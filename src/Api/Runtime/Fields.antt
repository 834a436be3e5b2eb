-- ===== src/Api/Runtime/Fields.antt =====
-- The loop of `merge_from` over one field of each type that the generated code writes. A field is given
-- by its number and by the message with each value in it.
use linux_bt_proxy.Prelude.{
  ℕ, ◌+◌, ◌*◌, ◌^◌, ◌<◌, ◌≡◌, refl, sym, ap, ◌∙◌, Bool, true, false, Option, none, some, List, [],
  ◌∷◌, ◌++◌, append-nil, Bytes, length, All, arith,
}
use linux_bt_proxy.Api.Runtime.{
  Protobuf, emit, emit_all, message_field, nonempty, nonzero, of_option,
}
use linux_bt_proxy.Api.Runtime.Sizes.{All-map}
use linux_bt_proxy.Api.Runtime.Merge.{assign, Advances, merge}
use linux_bt_proxy.Api.Runtime.ReadsBack.{Back, ReadsBack}
use linux_bt_proxy.Api.Runtime.RoundTrip.{
  nonzero-false, nonempty-false, message-Back, merge-emit, merge-emit_all, merge-packed,
}
use native.Mathlib.Nat.{mod-eq_of_lt}

-- A field's number.
abbrev pub IsField : ℕ → Type 0
IsField f = (0 < f) × (f < 2 ^ 29)

-- A string that can be written.
abbrev pub IsText : {rt : Protobuf} → ReadsBack rt → Bytes → Type 0
IsText back s = back.IsUtf8 s × (length s < 2 ^ 31)

-- A flag is written if it is set.
bool-false : (b : Bool) → b ≡ false → false ≡ b
bool-false b h = sym h

module _ (rt : Protobuf) (back : ReadsBack rt) {M : Type 0}
    (merge_field : ℕ → M → rt.CodedInputStream → Option (M × rt.CodedInputStream))
    (advances : (tag : ℕ) (m : M) (is : rt.CodedInputStream)
      → Advances rt is (merge_field tag m is)) where
  open rt use {CodedInputStream, of_bytes}

  pub merge-bool :
      (f : ℕ) (b : Bool) (set : Bool → M) (rest : Bytes)
      → IsField f
      → ((is : CodedInputStream)
          → merge_field (f * 8) (set false) is ≡ assign rt set (rt.read_bool is))
      → merge rt merge_field (set false) (of_bytes (emit b (rt.write_bool f b) ++ rest))
        ≡ merge rt merge_field (set b) (of_bytes rest)
  merge-bool f b set rest (h, k) arm =
      merge-emit rt merge_field advances (f * 8) rt.read_bool set (set false) b (rt.write_bool f b)
        rest (back.bool_back f b h k) arm (λ e. ap set (bool-false b e))

  pub merge-uint32 :
      (f n : ℕ) (set : ℕ → M) (rest : Bytes)
      → IsField f
      → n < 2 ^ 32
      → ((is : CodedInputStream)
          → merge_field (f * 8) (set 0) is ≡ assign rt set (rt.read_uint32 is))
      → merge rt merge_field (set 0) (of_bytes (emit (nonzero n) (rt.write_uint32 f n) ++ rest))
        ≡ merge rt merge_field (set n) (of_bytes rest)
  merge-uint32 f n set rest (h, k) small arm =
      merge-emit rt merge_field advances (f * 8) rt.read_uint32 set (set 0) (nonzero n)
        (rt.write_uint32 f n) rest (back.uint32_back f n h k small) arm
        (λ e. ap set (nonzero-false n e))

  pub merge-string :
      (f : ℕ) (s : Bytes) (set : Bytes → M) (rest : Bytes)
      → IsField f
      → IsText back s
      → ((is : CodedInputStream)
          → merge_field (f * 8 + 2) (set []) is ≡ assign rt set (rt.read_string is))
      → merge rt merge_field (set []) (of_bytes (emit (nonempty s) (rt.write_string f s) ++ rest))
        ≡ merge rt merge_field (set s) (of_bytes rest)
  merge-string f s set rest (h, k) (utf8, short) arm =
      merge-emit rt merge_field advances (f * 8 + 2) rt.read_string set (set []) (nonempty s)
        (rt.write_string f s) rest (back.string_back f s h k utf8 short) arm
        (λ e. ap set (nonempty-false s e))

  pub merge-packed_uint64 :
      (f : ℕ) (ns : List ℕ) (set : List ℕ → M) (rest : Bytes)
      → IsField f
      → All (λ n. n < 2 ^ 64) ns × (length ns < 2 ^ 27)
      → ((is : CodedInputStream)
          → merge_field (f * 8 + 2) (set []) is ≡ assign rt set (rt.read_packed_uint64 is))
      → merge rt merge_field (set []) (of_bytes (rt.write_repeated_packed_uint64 f ns ++ rest))
        ≡ merge rt merge_field (set ns) (of_bytes rest)
  merge-packed_uint64 f ns set rest (h, k) (range, short) arm =
      merge-packed rt merge_field advances (f * 8 + 2) rt.read_packed_uint64 set (set []) ns
        (rt.write_repeated_packed_uint64 f ns) rest
        (λ filled. back.packed_uint64_back f ns h k filled range short)
        (λ e. ap (rt.write_repeated_packed_uint64 f) (sym e) ∙ back.packed_uint64_none f) arm refl

  -- Messages inside, each of which its own `merge_from` reads.
  module _ {V : Type 0} (merge_from : V → CodedInputStream → Option V) (default : V) (size : V → ℕ)
      (write : V → Bytes) (sized : (v : V) → length (write v) ≡ size v) where
    abbrev pub IsInside : V → Type 0
    IsInside v = (size v < 2 ^ 31) × (merge_from default (of_bytes (write v)) ≡ some v)

    pub merge-messages :
        (f : ℕ) (vs : List V) (set : List V → M) (rest : Bytes)
        → IsField f
        → All IsInside vs
        → ((ys : List V) (is : CodedInputStream)
            → merge_field (f * 8 + 2) (set ys) is
              ≡ assign rt (λ x. set (ys ++ x ∷ [])) (rt.read_message merge_from default is))
        → merge rt merge_field
            (set [])
            (of_bytes (emit_all (message_field rt f size write) vs ++ rest))
          ≡ merge rt merge_field (set vs) (of_bytes rest)
    merge-messages f vs set rest (h, k) inside arm =
        merge-emit_all rt merge_field advances (f * 8 + 2) (rt.read_message merge_from default) set
          (message_field rt f size write) [] vs rest
          (All-map IsInside
            (λ v.
              Back rt (f * 8 + 2) (message_field rt f size write v)
                (rt.read_message merge_from default) v)
            vs
            (λ v (small, reads).
              message-Back rt back merge_from default size write f v h k (sized v) small reads)
            inside)
          arm

    written_as :
        (f : ℕ) (v : V)
        → size v < 2 ^ 31
        → message_field rt f size write v ≡ rt.message_header f (length (write v)) ++ write v
    written_as f v small =
        ap (λ n. rt.message_header f n ++ write v) (mod-eq_of_lt (omega arith) ∙ sym (sized v))

    pub merge-singular :
        (f : ℕ) (v : Option V) (set : Option V → M) (rest : Bytes)
        → IsField f
        → All IsInside (of_option v)
        → ((is : CodedInputStream)
            → merge_field (f * 8 + 2) (set none) is
              ≡ assign rt set (rt.read_singular_message_into_field merge_from default none is))
        → merge rt merge_field
            (set none)
            (of_bytes (emit_all (message_field rt f size write) (of_option v) ++ rest))
          ≡ merge rt merge_field (set v) (of_bytes rest)
    merge-singular f none set rest h inside arm = refl
    merge-singular f (some v) set rest (h, k) ((small, reads), _) arm =
        ap (λ (w : Bytes). merge rt merge_field (set none) (of_bytes ((w ++ []) ++ rest)))
          (written_as f v small)
        ∙ ap (λ (w : Bytes). merge rt merge_field (set none) (of_bytes (w ++ rest)))
            (append-nil (rt.message_header f (length (write v)) ++ write v))
        ∙ merge-emit rt merge_field advances (f * 8 + 2)
            (rt.read_singular_message_into_field merge_from default none) set (set none) true
            (rt.message_header f (length (write v)) ++ write v) rest
            (back.singular_back merge_from default v f (write v) h k (omega (arith, sized v)) reads)
            arm (λ e. cc)
