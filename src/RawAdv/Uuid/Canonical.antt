-- ===== src/RawAdv/Uuid/Canonical.antt =====
-- `parse_uuid` (src/raw_adv.rs) on the dashed form of sixteen bytes, and on ASCII text.
use linux_bt_proxy.Prelude.{
  ℕ, zero, suc, ◌*◌, ◌/◌, ◌%◌, ◌<◌, ◌≡◌, refl, ◌∙◌, true, false, some, List, [], ◌∷◌, ◌++◌, Bytes,
  append_assoc, All, All-drop, IsByte, IsBytes, length, take, drop, ◌==◌, arith, inl, inr,
  Bool-cases, ◌≢◌,
}
use linux_bt_proxy.Prelude.Outcome.{returns, panics}
use linux_bt_proxy.Text.{within, upper_digit, upper_hex, to_lowercase, lower}
use linux_bt_proxy.Text.Hex.{u8_from_hex-lower}
use linux_bt_proxy.RawAdv.Uuid.Shortest.{IsShortest, shorten-IsShortest}
use linux_bt_proxy.RawAdv.Uuid.{
  ShortUuid, without_dashes, starts_char, read_pairs, shorten, parse_uuid,
}

-- Two lower-case digits for each byte.
abbrev pub hex_text : Bytes → Bytes
hex_text [] = []
hex_text (b ∷ bs) = to_lowercase (upper_hex b) ++ hex_text bs

-- Groups of the sizes given, a dash behind each, and then the rest.
abbrev pub dashed : List ℕ → Bytes → Bytes
dashed [] b = hex_text b
dashed (n ∷ ns) b = hex_text (take n b) ++ b'-' ∷ dashed ns (drop n b)

-- The canonical text of a UUID: 8-4-4-4-12 digits.
abbrev pub canonical : Bytes → Bytes
canonical = dashed (4 ∷ 2 ∷ 2 ∷ 2 ∷ [])

-- A digit of `hex_text` is ASCII and no dash.
plain_digit :
    (d : ℕ)
    → d < 16
    → ((lower (upper_digit d) == b'-') ≡ false) × (within 0x80 0xBF (lower (upper_digit d)) ≡ false)
unfolding upper_digit
plain_digit d h = ground arith

without_dashes-append :
    (xs ys : Bytes) → without_dashes (xs ++ ys) ≡ without_dashes xs ++ without_dashes ys
unfolding without_dashes
without_dashes-append [] ys = refl
without_dashes-append (x ∷ xs) ys = ground (arith, without_dashes-append xs ys)

without_dashes-hex_text : (bs : Bytes) → IsBytes bs → without_dashes (hex_text bs) ≡ hex_text bs
unfolding without_dashes upper_hex
without_dashes-hex_text [] h = refl
without_dashes-hex_text (b ∷ bs) (hb, h) =
    rw
      (
        (plain_digit (b / 16) (omega arith)).0,
        (plain_digit (b % 16) (omega arith)).0,
        without_dashes-hex_text bs h,
      )
      refl

starts_char-hex_text : (bs : Bytes) → IsBytes bs → starts_char (hex_text bs) ≡ true
unfolding upper_hex
starts_char-hex_text [] h = refl
starts_char-hex_text (b ∷ bs) (hb, h) = rw (plain_digit (b / 16) (omega arith)).1

read_pairs-hex_text : (bs : Bytes) → IsBytes bs → read_pairs (hex_text bs) ≡ returns (some bs)
unfolding read_pairs upper_hex
read_pairs-hex_text [] h = refl
read_pairs-hex_text (b ∷ bs) (hb, h) =
    rw
      (
        (plain_digit (b / 16) (omega arith)).1,
        starts_char-hex_text bs h,
        read_pairs,
        u8_from_hex-lower b hb,
        read_pairs-hex_text bs h,
      )
      refl

hex_text-split : (n : ℕ) (bs : Bytes) → hex_text (take n bs) ++ hex_text (drop n bs) ≡ hex_text bs
hex_text-split zero bs = refl
hex_text-split (suc n) [] = refl
hex_text-split (suc n) (b ∷ bs) = rw (append_assoc, hex_text-split n bs)

length-hex_text : (bs : Bytes) → length (hex_text bs) ≡ 2 * length bs
unfolding upper_hex
length-hex_text [] = refl
length-hex_text (b ∷ bs) = omega (arith, length-hex_text bs)

All-take : (n : ℕ) (bs : Bytes) → IsBytes bs → IsBytes (take n bs)
All-take zero bs h = tt
All-take (suc n) [] h = tt
All-take (suc n) (b ∷ bs) (hb, h) = (hb, All-take n bs h)

without_dashes-dashed :
    (ns : List ℕ) (bs : Bytes) → IsBytes bs → without_dashes (dashed ns bs) ≡ hex_text bs
unfolding without_dashes
without_dashes-dashed [] bs h = without_dashes-hex_text bs h
without_dashes-dashed (n ∷ ns) bs h =
    without_dashes-append (hex_text (take n bs)) (b'-' ∷ dashed ns (drop n bs))
    ∙ rw
        (
          without_dashes-hex_text (take n bs) (All-take n bs h),
          without_dashes,
          without_dashes-dashed ns (drop n bs) (All-drop IsByte n bs h),
        )
        (hex_text-split n bs)

abbrev IsAscii : Bytes → Type 0
IsAscii = All (λ c. c < 128)

without_dashes-IsAscii : (s : Bytes) → IsAscii s → IsAscii (without_dashes s)
unfolding without_dashes
without_dashes-IsAscii [] h = tt
without_dashes-IsAscii (c ∷ cs) h = ground (arith, without_dashes-IsAscii cs h.1)

ascii_starts : (c : ℕ) → c < 128 → within 0x80 0xBF c ≡ false
ascii_starts c h = ground arith

ascii_tail : (s : Bytes) → IsAscii s → starts_char s ≡ true
ascii_tail [] h = refl
ascii_tail (c ∷ cs) h = rw (ascii_starts c h.0)

read_pairs_ascii :
    (pairs : ℕ) (s : Bytes) → IsAscii s → length s ≡ 2 * pairs → read_pairs s ≢ panics
unfolding read_pairs
read_pairs_ascii pairs [] h e = λ p. cc
read_pairs_ascii zero (x ∷ s) h e = absurd (omega arith)
read_pairs_ascii (suc pairs) (x ∷ []) h e = absurd (omega arith)
read_pairs_ascii (suc pairs) (x ∷ y ∷ s) (hx, (hy, h)) e =
    rw (ascii_starts x hx, ascii_tail s h)
      (ground (arith, read_pairs_ascii pairs s h (omega arith)))

-- On ASCII text `parse_uuid` does not panic.
pub parse_uuid_ascii : (s : Bytes) → All (λ c. c < 128) s → parse_uuid s ≢ panics
unfolding parse_uuid
parse_uuid_ascii s h = elim (Bool-cases (length (without_dashes s) == 32)) [
  | inr other ↦ rw other (λ e. cc)
  | inl right ↦ rw right (
      ground (
        arith,
        read_pairs_ascii 16 (without_dashes s) (without_dashes-IsAscii s h) (ground (arith, right)),
      ))
]

-- The canonical text of sixteen bytes, and the same digits with their dashes anywhere else, is read
-- as a form that stands for these bytes, in its range, and no form that stands for them is shorter.
pub parse_uuid-dashed :
    (ns : List ℕ) (bs : Bytes)
    → IsBytes bs
    → length bs ≡ 16
    → (u : ShortUuid) × (parse_uuid (dashed ns bs) ≡ returns (some u)) × IsShortest bs u
unfolding parse_uuid
parse_uuid-dashed ns bs h e = (
  shorten bs,
  rw (without_dashes-dashed ns bs h, length-hex_text bs, e, read_pairs-hex_text bs h) refl,
  shorten-IsShortest bs h e,
)
