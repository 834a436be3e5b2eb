-- ===== src/Text/Decimal.antt =====
-- `{}` of an unsigned integer, in decimal, and its reading back.
use linux_bt_proxy.Prelude.{
  ℕ, zero, suc, ◌+◌, ◌-◌, ◌*◌, ◌/◌, ◌%◌, ◌^◌, ◌<◌, ◌≡◌, refl, sym, ap, ◌∙◌, Bool-cases, inl, inr,
  [], ◌∷◌, ◌++◌, Bytes, ltb, arith,
}
use linux_bt_proxy.Text.{decimal_digits, decimal}
use native.Mathlib.Nat.{pow-suc}

-- The number that digits write, behind one that was read.
pub value_from : ℕ → Bytes → ℕ
value_from acc [] = acc
value_from acc (b ∷ bs) = value_from (acc * 10 + (b - b'0')) bs

value_from-append :
    (acc : ℕ) (bs : Bytes) (b : ℕ)
    → value_from acc (bs ++ b ∷ []) ≡ value_from acc bs * 10 + (b - b'0')
unfolding value_from
value_from-append acc [] b = refl
value_from-append acc (c ∷ bs) b = value_from-append (acc * 10 + (c - b'0')) bs b

value_from-decimal_digits :
    (fuel n : ℕ) → n < 10 ^ suc fuel → value_from 0 (decimal_digits fuel n) ≡ n
unfolding value_from decimal_digits
value_from-decimal_digits zero n h = omega arith
value_from-decimal_digits (suc fuel) n h = elim (Bool-cases (ltb n 10)) [
  | inl small ↦ rw (decimal_digits, small) (omega arith)
  | inr large ↦
      rw (decimal_digits, large)
        (value_from-append 0 (decimal_digits fuel (n / 10)) (b'0' + n % 10)
          ∙ omega (
            arith,
            value_from-decimal_digits fuel (n / 10) (omega (arith, pow-suc 10 (suc fuel))),
          ))
]

-- A `u64` is read back.
pub value_from-decimal : (n : ℕ) → n < 2 ^ 64 → value_from 0 (decimal n) ≡ n
unfolding decimal
value_from-decimal n h = value_from-decimal_digits 19 n (omega arith)

-- So two of them are written differently.
pub decimal-injective : (m n : ℕ) → m < 2 ^ 64 → n < 2 ^ 64 → decimal m ≡ decimal n → m ≡ n
decimal-injective m n h k e =
    sym (value_from-decimal m h) ∙ ap (value_from 0) e ∙ value_from-decimal n k
