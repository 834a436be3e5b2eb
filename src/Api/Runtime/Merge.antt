-- ===== src/Api/Runtime/Merge.antt =====
-- The loop of every `merge_from` (src/api/api.rs), `while let Some(tag) = is.read_raw_tag_or_eof()?`,
-- over the message's own `match tag`.
use linux_bt_proxy.Prelude.{
  ℕ, zero, suc, ◌≤◌, ◌<◌, ◌≡◌, ◌≢◌, refl, Option, none, some, Option-cases, inl, inr, Bytes, Bool,
  if◌then◌else◌, if_holds, arith,
}
use linux_bt_proxy.Api.Runtime.{Protobuf}

-- `stuck` is no result of the code: the rounds given did not suffice.
pub data Merged (M : Type 0) : Type 0 where
  merged : M → Merged M
  failed : Merged M
  stuck : Merged M

abbrev pub finished : {M : Type 0} → Merged M → Option M
finished (merged m) = some m
finished failed = none
finished stuck = none

module _ (rt : Protobuf) where
  open rt use {CodedInputStream, of_bytes, remaining, read_raw_tag_or_eof}

  -- `self.field = is.read_…()?`
  abbrev pub assign :
      {A M : Type 0} → (A → M) → Option (A × CodedInputStream) → Option (M × CodedInputStream)
  assign f none = none
  assign f (some (a, is)) = some (f a, is)

  -- The read leaves no more than there was.
  abbrev pub Advances : {A : Type 0} → CodedInputStream → Option (A × CodedInputStream) → Type 0
  Advances is none = Unit
  Advances is (some (a, is')) = remaining is' ≤ remaining is

  pub advancing :
      {A : Type 0} (is : CodedInputStream) (r : Option (A × CodedInputStream))
      → ((a : A) (is' : CodedInputStream) → r ≡ some (a, is') → remaining is' ≤ remaining is)
      → Advances is r
  advancing is none h = tt
  advancing is (some (a, is')) h = h a is' refl

  pub assign-Advances :
      {A M : Type 0} (f : A → M) (is : CodedInputStream) (r : Option (A × CodedInputStream))
      → Advances is r
      → Advances is (assign f r)
  assign-Advances f is none h = tt
  assign-Advances f is (some (a, is')) h = h

  -- An arm of the match, before the others.
  pub arm-Advances :
      {A M : Type 0} (test : Bool) (f : A → M) (is : CodedInputStream)
      (r : Option (A × CodedInputStream)) (others : Option (M × CodedInputStream))
      → ((a : A) (is' : CodedInputStream) → r ≡ some (a, is') → remaining is' ≤ remaining is)
      → Advances is others
      → Advances is (if test then assign f r else others)
  arm-Advances test f is r others h k =
      if_holds (Advances is) test (assign f r) others (assign-Advances f is r (advancing is r h)) k

  module _ {M : Type 0}
      (merge_field : ℕ → M → CodedInputStream → Option (M × CodedInputStream)) where
    unfoldable pub merge_loop : ℕ → M → CodedInputStream → Merged M
    merge_loop zero m is = stuck
    merge_loop (suc rounds) m is = elim (read_raw_tag_or_eof is) [
      | none ↦ failed
      | some (none, is') ↦ merged m
      | some (some tag, is') ↦ elim (merge_field tag m is') [
        | none ↦ failed
        | some (m', is'') ↦ merge_loop rounds m' is''
      ]
    ]

    -- Each tag takes a byte, so one round more than the bytes that remain is enough.
    unfoldable pub merge : M → CodedInputStream → Merged M
    unfolding merge_loop
    merge m is = merge_loop (suc (remaining is)) m is

    -- `Message::parse_from_bytes`, from the message's default.
    unfoldable pub parse_from_bytes : M → Bytes → Merged M
    unfolding merge
    parse_from_bytes default bytes = merge default (of_bytes bytes)

    -- `merge_from`: a stuck loop has no result.
    unfoldable pub merge_from : M → CodedInputStream → Option M
    unfolding merge
    merge_from m is = finished (merge m is)

    module _
        (advances : (tag : ℕ) (m : M) (is : CodedInputStream)
          → Advances is (merge_field tag m is)) where
      advanced :
          {tag : ℕ} {m m' : M} {is is' : CodedInputStream}
          → merge_field tag m is ≡ some (m', is')
          → remaining is' ≤ remaining is
      advanced {tag} {m} {is = is} e = let h = advances tag m is in rw e at h

      merge_loop-ne-stuck :
          (rounds : ℕ) (m : M) (is : CodedInputStream)
          → remaining is < rounds
          → merge_loop rounds m is ≢ stuck
      unfolding merge_loop
      merge_loop-ne-stuck zero m is h = absurd (omega arith)
      merge_loop-ne-stuck (suc rounds) m is h = elim (Option-cases (read_raw_tag_or_eof is)) [
        | inl e ↦ rw (merge_loop, e) (λ p. cc)
        | inr ((none, is'), e) ↦ rw (merge_loop, e) (λ p. cc)
        | inr ((some tag, is'), e) ↦ elim (Option-cases (merge_field tag m is')) [
          | inl f ↦ rw (merge_loop, e, f) (λ p. cc)
          | inr ((m', is''), f) ↦
              rw (merge_loop, e, f)
                (merge_loop-ne-stuck rounds m' is''
                  (omega (arith, rt.tag_advances is e, advanced f)))
        ]
      ]

      pub parse_from_bytes-ne-stuck :
          (default : M) (bytes : Bytes) → parse_from_bytes default bytes ≢ stuck
      unfolding parse_from_bytes
      parse_from_bytes-ne-stuck default bytes =
          merge_loop-ne-stuck (suc (remaining (of_bytes bytes))) default (of_bytes bytes)
            (omega arith)
