-- ===== src/RawAdv/Uuid/Shortest.antt =====
-- The form that `parse_uuid` (src/raw_adv.rs) chooses for sixteen bytes.
use linux_bt_proxy.Prelude.{
  ℕ, ◌^◌, ◌≤◌, ◌&&◌, if_holds, ◌/◌, ◌%◌, ◌<◌, ◌≡◌, refl, [], ◌∷◌, Bytes, IsBytes, length, ◌==◌,
  arith, inl, inr, Bool-cases,
}
use mathlib.Core.Path.{subst}
use linux_bt_proxy.RawAdv.Uuid.Equal.{bytes_eq_iff}
use linux_bt_proxy.RawAdv.Uuid.{
  base_uuid_suffix, ShortUuid, bit16, bit32, bit128, bytes_eq, shorten,
}

-- The sixteen bytes that a short form stands for: the identifier in front of the base UUID.
abbrev pub expand : ShortUuid → Bytes
expand (bit16 id) = 0 ∷ 0 ∷ (id / 256) ∷ (id % 256) ∷ base_uuid_suffix
expand (bit32 id) =
    (id / 16777216) ∷ (id / 65536 % 256) ∷ (id / 256 % 256) ∷ (id % 256) ∷ base_uuid_suffix
expand (bit128 bytes) = bytes

-- Shortening loses nothing: the bytes come back from the short form.
expand-shorten : (bs : Bytes) → IsBytes bs → expand (shorten bs) ≡ bs
unfolding shorten
expand-shorten [] h = refl
expand-shorten (b0 ∷ []) h = refl
expand-shorten (b0 ∷ b1 ∷ []) h = refl
expand-shorten (b0 ∷ b1 ∷ b2 ∷ []) h = refl
expand-shorten (b0 ∷ b1 ∷ b2 ∷ b3 ∷ suffix) h =
    elim (Bool-cases (bytes_eq suffix base_uuid_suffix)) [
      | inr other ↦ rw other refl
      | inl same ↦ rw same (ground (arith, (bytes_eq_iff suffix base_uuid_suffix).0 same))
    ]

-- The bytes that a form takes in an advertisement, and the ranges of `u16` and `u32`.
abbrev pub size : ShortUuid → ℕ
size (bit16 id) = 2
size (bit32 id) = 4
size (bit128 bytes) = length bytes

abbrev pub FitsForm : ShortUuid → Type 0
FitsForm (bit16 id) = id < 2 ^ 16
FitsForm (bit32 id) = id < 2 ^ 32
FitsForm (bit128 bytes) = (length bytes ≡ 16) × IsBytes bytes

-- `u` stands for sixteen bytes, and no other form that does is shorter.
abbrev pub IsShortest : Bytes → ShortUuid → Type 0
IsShortest bs u =
    (expand u ≡ bs) × FitsForm u × ((v : ShortUuid) → FitsForm v → expand v ≡ bs → size u ≤ size v)

-- No form that stands for the bytes is shorter than the one that is chosen.
shorten_least : (v : ShortUuid) → FitsForm v → size (shorten (expand v)) ≤ size v
unfolding shorten bytes_eq
shorten_least (bit16 id) h = omega arith
shorten_least (bit32 id) h =
    if_holds (λ (u : ShortUuid). size u ≤ 4) ((id / 16777216 == 0) && (id / 65536 % 256 == 0)) _ _
      (omega arith) (omega arith)
shorten_least (bit128 bytes) (e, h) = shorten_small bytes (omega (arith, e))
  where
    shorten_small : (bs : Bytes) → 4 ≤ length bs → size (shorten bs) ≤ length bs
    shorten_small [] h = omega arith
    shorten_small (b0 ∷ []) h = omega arith
    shorten_small (b0 ∷ b1 ∷ []) h = omega arith
    shorten_small (b0 ∷ b1 ∷ b2 ∷ []) h = omega arith
    shorten_small (b0 ∷ b1 ∷ b2 ∷ b3 ∷ suffix) h =
        if_holds (λ (u : ShortUuid). size u ≤ length (b0 ∷ b1 ∷ b2 ∷ b3 ∷ suffix))
          (bytes_eq suffix base_uuid_suffix) _ _
          (if_holds (λ (u : ShortUuid). size u ≤ length (b0 ∷ b1 ∷ b2 ∷ b3 ∷ suffix))
            ((b0 == 0) && (b1 == 0)) _ _ (omega (arith, h)) (omega (arith, h)))
          (omega arith)

shorten-FitsForm : (bs : Bytes) → IsBytes bs → length bs ≡ 16 → FitsForm (shorten bs)
unfolding shorten
shorten-FitsForm [] h e = absurd (omega (arith, e))
shorten-FitsForm (b0 ∷ []) h e = absurd (omega (arith, e))
shorten-FitsForm (b0 ∷ b1 ∷ []) h e = absurd (omega (arith, e))
shorten-FitsForm (b0 ∷ b1 ∷ b2 ∷ []) h e = absurd (omega (arith, e))
shorten-FitsForm (b0 ∷ b1 ∷ b2 ∷ b3 ∷ suffix) (h0, (h1, (h2, (h3, h)))) e =
    if_holds FitsForm (bytes_eq suffix base_uuid_suffix) _ _
      (if_holds FitsForm ((b0 == 0) && (b1 == 0)) _ _ (omega arith) (omega arith))
      (e, (h0, (h1, (h2, (h3, h)))))

pub shorten-IsShortest : (bs : Bytes) → IsBytes bs → length bs ≡ 16 → IsShortest bs (shorten bs)
shorten-IsShortest bs h e = (
  expand-shorten bs h,
  shorten-FitsForm bs h e,
  λ v fits same. subst (λ b. size (shorten b) ≤ size v) same (shorten_least v fits),
)
