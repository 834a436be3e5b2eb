-- ===== src/Text/Hex.antt =====
-- Two hexadecimal digits are read back, in either case.
use linux_bt_proxy.Prelude.{
  ℕ, ◌+◌, ◌*◌, ◌/◌, ◌%◌, ◌<◌, ◌≡◌, ap, ◌∙◌, false, Option-cases, Bool-cases, inl, inr, some, [],
  ◌∷◌, Bytes, IsByte, ◌==◌, arith,
}
use linux_bt_proxy.Text.{
  hex_digit, hex_digits, u8_from_hex, upper_digit, upper_hex, lower, to_lowercase,
}

hex_digit-upper : (d : ℕ) → d < 16 → hex_digit (upper_digit d) ≡ some d
unfolding hex_digit upper_digit
hex_digit-upper d h = ground arith

hex_digit-lower : (d : ℕ) → d < 16 → hex_digit (lower (upper_digit d)) ≡ some d
unfolding hex_digit upper_digit
hex_digit-lower d h = ground arith

not_plus : (x a : ℕ) → hex_digit x ≡ some a → (x == b'+') ≡ false
unfolding hex_digit
not_plus x a h = ground arith

two_digits :
    (x y a b : ℕ)
    → hex_digit x ≡ some a
    → hex_digit y ≡ some b
    → a < 16
    → b < 16
    → u8_from_hex (x ∷ y ∷ []) ≡ some (a * 16 + b)
unfolding u8_from_hex
two_digits x y a b hx hy ha hb = rw (not_plus x a hx, hex_digits, hx, hex_digits, hy) (ground arith)

-- A byte's two digits, in upper case or lower case, are read back as the byte.
pub u8_from_hex-upper_hex : (b : ℕ) → IsByte b → u8_from_hex (upper_hex b) ≡ some b
unfolding upper_hex
u8_from_hex-upper_hex b h =
    two_digits _ _ (b / 16) (b % 16) (hex_digit-upper (b / 16) (omega arith))
      (hex_digit-upper (b % 16) (omega arith)) (omega arith) (omega arith)
    ∙ ap some (omega arith)

pub u8_from_hex-lower : (b : ℕ) → IsByte b → u8_from_hex (to_lowercase (upper_hex b)) ≡ some b
unfolding upper_hex
u8_from_hex-lower b h =
    two_digits _ _ (b / 16) (b % 16) (hex_digit-lower (b / 16) (omega arith))
      (hex_digit-lower (b % 16) (omega arith)) (omega arith) (omega arith)
    ∙ ap some (omega arith)

hex_digits-lt : (acc : ℕ) (cs : Bytes) {r : ℕ} → acc < 256 → hex_digits acc cs ≡ some r → r < 256
unfolding hex_digits
hex_digits-lt acc [] h e = ground arith
hex_digits-lt acc (c ∷ cs) {r} h e = elim (Option-cases (hex_digit c)) [
  | inl bad ↦ ground (arith, bad)
  | inr (d, good) ↦ ground (arith, good, hex_digits-lt (acc * 16 + d) cs {r = r})
]

-- Whatever is read is a byte.
pub u8_from_hex-IsByte : (s : Bytes) {r : ℕ} → u8_from_hex s ≡ some r → IsByte r
unfolding u8_from_hex
u8_from_hex-IsByte [] e = cc
u8_from_hex-IsByte (c ∷ []) {r} e = hex_digits-lt 0 (c ∷ []) (omega arith) e
u8_from_hex-IsByte (c ∷ d ∷ ds) {r} e = elim (Bool-cases (c == b'+')) [
  | inl plus ↦ hex_digits-lt 0 (d ∷ ds) (omega arith) (rw plus at e)
  | inr digit ↦ hex_digits-lt 0 (c ∷ d ∷ ds) (omega arith) (rw digit at e)
]

-- The two digits of a byte are no colon.
pub upper_digit-ne_colon : (d : ℕ) → d < 16 → (upper_digit d == b':') ≡ false
unfolding upper_digit
upper_digit-ne_colon d h = ground arith

pub lower-ne_colon : (d : ℕ) → d < 16 → (lower (upper_digit d) == b':') ≡ false
unfolding upper_digit
lower-ne_colon d h = ground arith
