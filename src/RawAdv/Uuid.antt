-- ===== src/RawAdv/Uuid.antt =====
-- src/raw_adv.rs: `parse_uuid`.
pub mod Equal
pub mod Shortest
pub mod Canonical
use linux_bt_proxy.Prelude.{
  ℕ, ◌+◌, ◌*◌, Bool, true, false, not, ◌&&◌, ◌||◌, Option, none, some, List, [], ◌∷◌, Bytes, length,
  ltb, leb, ◌==◌, if◌then◌else◌,
}
use linux_bt_proxy.Prelude.Outcome.{Outcome, returns, panics, ◌>>=◌}
use mathlib.Core.Option
use linux_bt_proxy.Text.{u8_from_hex, within}

abbrev pub base_uuid_suffix : Bytes
base_uuid_suffix =
    0x00 ∷ 0x00 ∷ 0x10 ∷ 0x00 ∷ 0x80 ∷ 0x00 ∷ 0x00 ∷ 0x80 ∷ 0x5F ∷ 0x9B ∷ 0x34 ∷ 0xFB ∷ []

pub data ShortUuid : Type 0 where
  bit16 : ℕ → ShortUuid
  bit32 : ℕ → ShortUuid
  bit128 : Bytes → ShortUuid

-- `==` of byte slices.
unfoldable pub bytes_eq : Bytes → Bytes → Bool
bytes_eq [] [] = true
bytes_eq [] (y ∷ ys) = false
bytes_eq (x ∷ xs) [] = false
bytes_eq (x ∷ xs) (y ∷ ys) = x == y && bytes_eq xs ys

-- `chars().filter(|c| *c != '-').collect()`
unfoldable pub without_dashes : Bytes → Bytes
without_dashes [] = []
without_dashes (c ∷ cs) = let rest = without_dashes cs in if c == b'-' then rest else c ∷ rest

-- No character starts at a byte of the form 0b10xxxxxx.
abbrev pub starts_char : Bytes → Bool
starts_char [] = true
starts_char (c ∷ cs) = not (within 0x80 0xBF c)

-- `u8::from_str_radix(&hex[i * 2..i * 2 + 2], 16)` for the pairs in turn. An end of the slice
-- beyond the text, or inside a character, panics.
unfoldable pub read_pairs : Bytes → Outcome (Option Bytes)
read_pairs [] = returns (some [])
read_pairs (x ∷ []) = panics
read_pairs (x ∷ y ∷ rest) =
    let more = read_pairs rest in
    if starts_char (x ∷ y ∷ rest) && starts_char rest
    then elim (u8_from_hex (x ∷ y ∷ [])) [
      | none ↦ returns none
      | some byte ↦ elim more [
        | panics ↦ panics
        | returns none ↦ returns none
        | returns (some bytes) ↦ returns (some (byte ∷ bytes))
      ]
    ]
    else panics

-- The shortest form of sixteen bytes.
unfoldable pub shorten : Bytes → ShortUuid
unfolding bytes_eq
shorten (b0 ∷ b1 ∷ b2 ∷ b3 ∷ suffix) =
    if bytes_eq suffix base_uuid_suffix
    then (if b0 == 0 && b1 == 0
        then bit16 (b2 * 256 + b3)
        else bit32 (((b0 * 256 + b1) * 256 + b2) * 256 + b3))
    else bit128 (b0 ∷ b1 ∷ b2 ∷ b3 ∷ suffix)
shorten bytes = bit128 bytes

unfoldable pub parse_uuid : Bytes → Outcome (Option ShortUuid)
unfolding without_dashes read_pairs shorten
parse_uuid uuid_str =
    let hex = without_dashes uuid_str in
    if length hex == 32
    then (read_pairs hex >>= λ bytes. returns (Option.map shorten bytes))
    else returns none
