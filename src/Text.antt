-- ===== src/Text.antt =====
-- What the program uses of Rust's text operations, over the UTF-8 bytes of a `str`.
pub mod Hex
pub mod Split
pub mod Decimal
use linux_bt_proxy.Prelude.{
  ℕ, zero, suc, ◌+◌, ◌-◌, ◌*◌, ◌/◌, ◌%◌, ◌≤◌, Bool, Option, none, some, List, [], ◌∷◌, ◌++◌, Bytes,
  ltb, leb, ◌==◌, ◌&&◌, if◌then◌else◌, map,
}
use Prim.Native.Char.{code}
use Prim.Native.String.{String}

-- The bytes of a literal; every literal of the program is ASCII.
abbrev pub codes : String → Bytes
codes String.[] = []
codes (String.◌∷◌ c s) = code c ∷ codes s

abbrev pub within : ℕ → ℕ → ℕ → Bool
within lo hi c = leb lo c && leb c hi

-- `char::to_digit(16)`
unfoldable pub hex_digit : ℕ → Option ℕ
hex_digit c =
    if within b'0' b'9' c
    then some (c - b'0')
    else if within b'a' b'f' c
    then some (c - b'a' + 10)
    else if within b'A' b'F' c
    then some (c - b'A' + 10)
    else none

unfoldable pub hex_digits : ℕ → Bytes → Option ℕ
unfolding hex_digit
hex_digits acc [] = some acc
hex_digits acc (c ∷ cs) = elim (hex_digit c) [
  | none ↦ none
  | some d ↦
      let rest = hex_digits (acc * 16 + d) cs in if ltb 255 (acc * 16 + d) then none else rest
]

-- `u8::from_str_radix(s, 16)`: one `+` may stand in front of at least one digit, of either case.
unfoldable pub u8_from_hex : Bytes → Option ℕ
unfolding hex_digits
u8_from_hex [] = none
u8_from_hex (c ∷ []) = hex_digits 0 (c ∷ [])
u8_from_hex (c ∷ d ∷ ds) = if c == b'+' then hex_digits 0 (d ∷ ds) else hex_digits 0 (c ∷ d ∷ ds)

-- A digit of `{:X}` and of `{:x}`.
unfoldable pub upper_digit : ℕ → ℕ
upper_digit d = if ltb d 10 then b'0' + d else b'A' + (d - 10)

unfoldable pub lower_digit : ℕ → ℕ
lower_digit d = if ltb d 10 then b'0' + d else b'a' + (d - 10)

-- `format!("{b:02X}")` of a `u8`.
unfoldable pub upper_hex : ℕ → Bytes
unfolding upper_digit
upper_hex b = upper_digit (b / 16) ∷ upper_digit (b % 16) ∷ []

-- `format!("{id:04x}")` of a `u16`.
unfoldable pub lower_hex : ℕ → Bytes
unfolding lower_digit
lower_hex w =
    lower_digit (w / 4096)
    ∷ lower_digit (w / 256 % 16)
    ∷ lower_digit (w / 16 % 16)
    ∷ lower_digit (w % 16)
    ∷ []

-- `to_lowercase` on ASCII text.
abbrev pub lower : ℕ → ℕ
lower c = if within b'A' b'Z' c then c + 32 else c

abbrev pub to_lowercase : Bytes → Bytes
to_lowercase = map lower

abbrev push_front : ℕ → List Bytes → List Bytes
push_front c [] = (c ∷ []) ∷ []
push_front c (part ∷ parts) = (c ∷ part) ∷ parts

-- `s.split(sep)`, which yields one part more than there are separators.
unfoldable pub split : ℕ → Bytes → List Bytes
split sep [] = [] ∷ []
split sep (c ∷ cs) = let parts = split sep cs in if c == sep then [] ∷ parts else push_front c parts

-- `parts.join(sep)`
unfoldable pub join : Bytes → List Bytes → Bytes
join sep [] = []
join sep (part ∷ []) = part
join sep (part ∷ next ∷ parts) = part ++ (sep ++ join sep (next ∷ parts))

-- `{}` of an unsigned integer: its last digit stands behind those of the tenth. The fuel is one less than
-- the digits that a `u64` has at most.
unfoldable pub decimal_digits : ℕ → ℕ → Bytes
decimal_digits zero n = (b'0' + n) ∷ []
decimal_digits (suc fuel) n =
    let front = decimal_digits fuel (n / 10) in
    if ltb n 10 then (b'0' + n) ∷ [] else front ++ (b'0' + n % 10) ∷ []

unfoldable pub decimal : ℕ → Bytes
unfolding decimal_digits
decimal n = decimal_digits 19 n
