-- ===== src/Api/Runtime/RoundTrip.antt =====
-- The loop of `merge_from` over what the fields of a message wrote.
use linux_bt_proxy.Prelude.{
  sym, length, ◌+◌, ◌*◌, ◌^◌, ◌%◌, ℕ, zero, suc, ◌≤◌, ◌<◌, ◌≡◌, refl, ap, ◌∙◌, Bool, true, false,
  Option, none, some, Option-cases, inl, inr, List, [], ◌∷◌, ◌++◌, append_assoc, append-nil, Bytes,
  All, arith,
}
use linux_bt_proxy.Prelude.Int.{ℤ, pos, negsuc}
use linux_bt_proxy.Api.Runtime.{
  message_field, Protobuf, emit, emit_all, nonempty, nonzero, nonzero_ℤ,
}
use linux_bt_proxy.Api.Runtime.Merge.{merged, assign, Advances, merge_loop, merge}
use linux_bt_proxy.Api.Runtime.ReadsBack.{Back, ReadsBack}
use native.Mathlib.Nat.{mod-eq_of_lt}

-- A field that is not written holds its default.
pub nonzero-false : (n : ℕ) → nonzero n ≡ false → 0 ≡ n
nonzero-false n h = ground arith

pub nonzero_ℤ-false : (z : ℤ) → nonzero_ℤ z ≡ false → pos 0 ≡ z
nonzero_ℤ-false (pos n) h = ap pos (nonzero-false n h)
nonzero_ℤ-false (negsuc n) h = cc

pub nonempty-false {ℓ} : {A : Type ℓ} (xs : List A) → nonempty xs ≡ false → [] ≡ xs
nonempty-false [] h = refl
nonempty-false (x ∷ xs) h = cc

-- A message inside another, which reads its own bytes.
pub message-Back :
    (rt : Protobuf) (back : ReadsBack rt) {M : Type 0}
    (merge_from : M → rt.CodedInputStream → Option M) (default : M) (size : M → ℕ)
    (write : M → Bytes) (f : ℕ) (v : M)
    → 0 < f
    → f < 2 ^ 29
    → length (write v) ≡ size v
    → size v < 2 ^ 31
    → merge_from default (rt.of_bytes (write v)) ≡ some v
    → Back rt (f * 8 + 2) (message_field rt f size write v) (rt.read_message merge_from default) v
message-Back rt back merge_from default size write f v h k e small reads =
    let q : size v % 2 ^ 32 ≡ length (write v) = mod-eq_of_lt (omega arith) ∙ sym e in
    rw q (back.message_back merge_from default v f (write v) h k (omega (arith, e)) reads)

module _ (rt : Protobuf) where
  open rt use {CodedInputStream, of_bytes, remaining, read_raw_tag_or_eof}

  module _ {M : Type 0} (merge_field : ℕ → M → CodedInputStream → Option (M × CodedInputStream))
      (advances : (tag : ℕ) (m : M) (is : CodedInputStream)
        → Advances rt is (merge_field tag m is)) where
    -- Any number of rounds above the bytes that remain gives the same.
    merge_loop-enough :
        (rounds rounds' : ℕ) (m : M) (is : CodedInputStream)
        → remaining is < rounds
        → remaining is < rounds'
        → merge_loop rt merge_field rounds m is ≡ merge_loop rt merge_field rounds' m is
    unfolding merge_loop
    merge_loop-enough zero rounds' m is h k = absurd (omega arith)
    merge_loop-enough (suc rounds) zero m is h k = absurd (omega arith)
    merge_loop-enough (suc rounds) (suc rounds') m is h k =
        elim (Option-cases (read_raw_tag_or_eof is)) [
          | inl e ↦ rw (merge_loop, e) refl
          | inr ((none, is'), e) ↦ rw (merge_loop, e) refl
          | inr ((some tag, is'), e) ↦ elim (Option-cases (merge_field tag m is')) [
            | inl f ↦ rw (merge_loop, e, f) refl
            | inr ((m', is''), f) ↦
                let q : remaining is'' ≤ remaining is' =
                  (let a = advances tag m is' in rw f at a) in
                rw (merge_loop, e, f)
                  (merge_loop-enough rounds rounds' m' is'' (omega (arith, rt.tag_advances is e, q))
                    (omega (arith, rt.tag_advances is e, q)))
          ]
        ]

    -- A tag and its field.
    merge-step :
        (m : M) (is : CodedInputStream) {tag : ℕ} {is' is'' : CodedInputStream} {m' : M}
        → read_raw_tag_or_eof is ≡ some (some tag, is')
        → merge_field tag m is' ≡ some (m', is'')
        → merge rt merge_field m is ≡ merge rt merge_field m' is''
    unfolding merge merge_loop
    merge-step m is {tag} {is'} {is''} {m'} e f =
        let q : remaining is'' ≤ remaining is' = (let a = advances tag m is' in rw f at a) in
        rw (merge, merge_loop, e, f)
          (merge_loop-enough (remaining is) (suc (remaining is'')) m' is''
            (omega (arith, rt.tag_advances is e, q)) (omega arith))

    merge-ends :
        (m : M) (is : CodedInputStream) {is' : CodedInputStream}
        → read_raw_tag_or_eof is ≡ some (none, is')
        → merge rt merge_field m is ≡ merged m
    unfolding merge merge_loop
    merge-ends m is e = rw (merge, merge_loop, e) refl

    module _ {A : Type 0} (tag : ℕ) (read : CodedInputStream → Option (A × CodedInputStream)) where
      -- A field that was written is assigned.
      merge-field :
          (f : A → M) (m : M) (written rest : Bytes) {a : A}
          → Back rt tag written read a
          → ((is : CodedInputStream) → merge_field tag m is ≡ assign rt f (read is))
          → merge rt merge_field m (of_bytes (written ++ rest))
            ≡ merge rt merge_field (f a) (of_bytes rest)
      merge-field f m written rest back arm =
          let (is', e, r) = back rest in
          merge-step m (of_bytes (written ++ rest)) e (arm is' ∙ ap (assign rt f) r)

      -- A field that is written unless it holds its default.
      pub merge-emit :
          (f : A → M) (m : M) (test : Bool) (written rest : Bytes) {a : A}
          → Back rt tag written read a
          → ((is : CodedInputStream) → merge_field tag m is ≡ assign rt f (read is))
          → (test ≡ false → m ≡ f a)
          → merge rt merge_field m (of_bytes (emit test written ++ rest))
            ≡ merge rt merge_field (f a) (of_bytes rest)
      merge-emit f m true written rest back arm default = merge-field f m written rest back arm
      merge-emit f m false written rest back arm default =
          ap (λ m. merge rt merge_field m (of_bytes rest)) (default refl)

      -- A field that is written for each of its values in turn.
      pub merge-emit_all :
          (f : List A → M) (write : A → Bytes) (ys xs : List A) (rest : Bytes)
          → All (λ x. Back rt tag (write x) read x) xs
          → ((ys : List A) (is : CodedInputStream)
              → merge_field tag (f ys) is ≡ assign rt (λ x. f (ys ++ x ∷ [])) (read is))
          → merge rt merge_field (f ys) (of_bytes (emit_all write xs ++ rest))
            ≡ merge rt merge_field (f (ys ++ xs)) (of_bytes rest)
      merge-emit_all f write ys [] rest back arm = rw (append-nil ys) refl
      merge-emit_all f write ys (x ∷ xs) rest (b, back) arm =
          ap (λ b. merge rt merge_field (f ys) (of_bytes b))
            (append_assoc (write x) (emit_all write xs) rest)
          ∙ merge-field (λ x. f (ys ++ x ∷ [])) (f ys) (write x) (emit_all write xs ++ rest) b
              (arm ys)
          ∙ merge-emit_all f write (ys ++ x ∷ []) xs rest back arm
          ∙ ap (λ zs. merge rt merge_field (f zs) (of_bytes rest)) (append_assoc ys (x ∷ []) xs)

    -- A packed field, which is not written if it is empty.
    pub merge-packed :
        {A : Type 0} (tag : ℕ) (read : CodedInputStream → Option (List A × CodedInputStream))
        (f : List A → M) (m : M) (xs : List A) (written rest : Bytes)
        → (nonempty xs ≡ true → Back rt tag written read xs)
        → ([] ≡ xs → written ≡ [])
        → ((is : CodedInputStream) → merge_field tag m is ≡ assign rt f (read is))
        → m ≡ f []
        → merge rt merge_field m (of_bytes (written ++ rest))
          ≡ merge rt merge_field (f xs) (of_bytes rest)
    merge-packed tag read f m [] written rest back none_written arm default =
        ap (λ (w : Bytes). merge rt merge_field m (of_bytes (w ++ rest))) (none_written refl)
        ∙ ap (λ m. merge rt merge_field m (of_bytes rest)) default
    merge-packed tag read f m (x ∷ xs) written rest back none_written arm default =
        merge-field tag read f m written rest (back refl) arm

    -- What is left when no field is.
    pub merge-unknown :
        (m : M) {is' : CodedInputStream}
        → read_raw_tag_or_eof (of_bytes []) ≡ some (none, is')
        → rt.write_unknown_fields rt.no_unknown ≡ []
        → merge rt merge_field m (of_bytes (rt.write_unknown_fields rt.no_unknown ++ [])) ≡ merged m
    merge-unknown m e none_written = rw none_written (merge-ends m (of_bytes []) e)
