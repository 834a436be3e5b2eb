-- ===== src/Prelude/Bits.antt =====
-- `&` and `|` on words of any width, digit by digit, and the masks that the program uses.
use Prim.Native.Nat.{ℕ, zero, suc, ◌+◌, ◌*◌, ◌/◌, ◌%◌, ◌^◌, ◌≤◌, ◌<◌, min, max, bit_and, bit_or}
use Prim.Native.Nat.{digits, bit_and-bitwise, bit_or-bitwise}
use mathlib.Core.Path.{◌≡◌, refl, sym, ap, ◌∙◌}
use native.Mathlib.Nat.{
  pow-suc, add-zero, add-suc, add-mul-mod_self_right, mod-eq_of_lt, div-add-mod, mod-lt, one-le-pow,
  add-mod-mod, mul-lt-mul_of_pos_right, mul-le-mul_right,
}
use native.Mathlib.Omega.{arith}

-- The digit recursion that the native operations stand for needs no more fuel than its first number.
digits-fuel :
    (z : ℕ → ℕ) (f : ℕ → ℕ → ℕ) (n m a b : ℕ) → a ≤ n → a ≤ m → digits z f n a b ≡ digits z f m a b
digits-fuel z f zero zero zero b p q = refl
digits-fuel z f zero (suc m) zero b p q = refl
digits-fuel z f zero m (suc a) b p q = absurd (omega arith)
digits-fuel z f (suc n) zero zero b p q = refl
digits-fuel z f (suc n) zero (suc a) b p q = absurd (omega arith)
digits-fuel z f (suc n) (suc m) zero b p q = refl
digits-fuel z f (suc n) (suc m) (suc a) b p q =
    omega (arith, digits-fuel z f n m (suc a / 2) (b / 2) (omega arith) (omega arith))

-- The lowest digit of `a & b`, and the digits above it.
pub bit_and_step : (a b : ℕ) → bit_and a b ≡ bit_and (a / 2) (b / 2) * 2 + min (a % 2) (b % 2)
bit_and_step zero b = omega (arith, bit_and-bitwise 0 b, bit_and-bitwise 0 (b / 2))
bit_and_step (suc a) b = omega (
  arith,
  bit_and-bitwise (suc a) b,
  bit_and-bitwise (suc a / 2) (b / 2),
  digits-fuel (λ b. zero) min a (suc a / 2) (suc a / 2) (b / 2) (omega arith) (omega arith),
)

zero-bit_or : (b : ℕ) → bit_or 0 b ≡ b
zero-bit_or b = bit_or-bitwise 0 b

-- The lowest digit of `a | b`, and the digits above it.
pub bit_or_step : (a b : ℕ) → bit_or a b ≡ bit_or (a / 2) (b / 2) * 2 + max (a % 2) (b % 2)
bit_or_step zero b = omega (arith, zero-bit_or b, zero-bit_or (b / 2))
bit_or_step (suc a) b = omega (
  arith,
  bit_or-bitwise (suc a) b,
  bit_or-bitwise (suc a / 2) (b / 2),
  digits-fuel (λ b. b) max a (suc a / 2) (suc a / 2) (b / 2) (omega arith) (omega arith),
)

bit_or_comm_below : (n a b : ℕ) → a ≤ n → b ≤ n → bit_or a b ≡ bit_or b a
bit_or_comm_below zero a b h k =
    rw (let e : a ≡ 0 = omega arith in e, let e : b ≡ 0 = omega arith in e) refl
bit_or_comm_below (suc n) a b h k = omega (
  arith,
  bit_or_step a b,
  bit_or_step b a,
  bit_or_comm_below n (a / 2) (b / 2) (omega arith) (omega arith),
)

pub bit_or_comm : (a b : ℕ) → bit_or a b ≡ bit_or b a
bit_or_comm a b = bit_or_comm_below (a + b) a b (omega arith) (omega arith)

-- `x & (2 ^ k - 1)` keeps the low digits.
zero-bit_and : (b : ℕ) → bit_and 0 b ≡ 0
zero-bit_and b = bit_and-bitwise 0 b

bit_and-zero_below : (n a : ℕ) → a ≤ n → bit_and a 0 ≡ 0
bit_and-zero_below n zero h = zero-bit_and 0
bit_and-zero_below zero (suc a) h = absurd (omega arith)
bit_and-zero_below (suc n) (suc a) h =
    omega (arith, bit_and_step (suc a) 0, bit_and-zero_below n (suc a / 2) (omega arith))

bit_and-zero : (a : ℕ) → bit_and a 0 ≡ 0
bit_and-zero a = bit_and-zero_below a a (omega arith)

-- `x & 1` is the lowest digit.
pub bit_and-one : (a : ℕ) → bit_and a 1 ≡ a % 2
bit_and-one a = omega (arith, bit_and_step a 1, bit_and-zero (a / 2))

three_bits : (a : ℕ) → bit_and a 7 ≡ a % 8
three_bits a = omega (arith, bit_and_step a 7, bit_and_step (a / 2) 3, bit_and-one (a / 2 / 2))

-- `x & 0x7F` is `x % 128`, for an `x` of any width.
pub low_seven : (a : ℕ) → bit_and a 0x7F ≡ a % 128
low_seven a = omega (
  arith,
  bit_and_step a 127,
  bit_and_step (a / 2) 63,
  bit_and_step (a / 2 / 2) 31,
  bit_and_step (a / 2 / 2 / 2) 15,
  three_bits (a / 2 / 2 / 2 / 2),
)

bit_or-even : (a b : ℕ) → bit_or a (2 * b) ≡ bit_or (a / 2) b * 2 + a % 2
bit_or-even a b =
    omega
      (arith, bit_or_step a (2 * b), ap (bit_or (a / 2)) (let e : 2 * b / 2 ≡ b = omega arith in e))

double : (b s : ℕ) → b * 2 ^ suc s ≡ 2 * (b * 2 ^ s)
double b s = omega (arith, ap (λ (t : ℕ). b * t) (pow-suc 2 s))

-- `|` of a number below `2 ^ s` and a multiple of `2 ^ s` is their sum.
pub bit_or-shifted : (s a b : ℕ) → a < 2 ^ s → bit_or a (b * 2 ^ s) ≡ a + b * 2 ^ s
bit_or-shifted zero zero b h = omega (arith, zero-bit_or (b * 2 ^ 0))
bit_or-shifted zero (suc a) b h = absurd (omega arith)
bit_or-shifted (suc s) a b h = rw (double b s) (
    omega (
      arith,
      bit_or-even a (b * 2 ^ s),
      pow-suc 2 s,
      bit_or-shifted s (a / 2) b (omega (arith, pow-suc 2 s)),
    ))

-- `x | 0x80` on seven bits sets the eighth.
pub set_top_bit : (a : ℕ) → a < 128 → bit_or a 0x80 ≡ a + 128
set_top_bit a h = bit_or-shifted 7 a 1 h

second_bit : (a : ℕ) → bit_and a 2 ≡ a / 2 % 2 * 2
second_bit a = omega (arith, bit_and_step a 2, bit_and-one (a / 2))

fourth_bit : (a : ℕ) → bit_and a 8 ≡ a / 8 % 2 * 8
fourth_bit a = omega (arith, bit_and_step a 8, bit_and_step (a / 2) 4, second_bit (a / 2 / 2))

sixth_bit : (a : ℕ) → bit_and a 32 ≡ a / 32 % 2 * 32
sixth_bit a = omega (arith, bit_and_step a 32, bit_and_step (a / 2) 16, fourth_bit (a / 2 / 2))

-- `x & 0x80` is the eighth bit in place.
pub top_bit : (a : ℕ) → bit_and a 0x80 ≡ a / 128 % 2 * 128
top_bit a = omega (arith, bit_and_step a 128, bit_and_step (a / 2) 64, sixth_bit (a / 2 / 2))

-- A left shift that drops what passes the width.
shl_mod : (x p q : ℕ) → 0 < p → 0 < q → x * p % (p * q) ≡ x % q * p
shl_mod x p q hp hq =
    rw split (add-mul-mod_self_right (x % q * p) (x / q) (p * q) ∙ mod-eq_of_lt fits)
  where
    split : x * p ≡ x % q * p + x / q * (p * q)
    split = omega (arith, ap (λ (t : ℕ). t * p) (div-add-mod x q))

    fits : x % q * p < p * q
    fits = omega (arith, mul-lt-mul_of_pos_right (mod-lt x hq) hp)

pub pow_add : (a b : ℕ) → 2 ^ (a + b) ≡ 2 ^ a * 2 ^ b
pow_add a zero = rw (add-zero a) (omega arith)
pow_add a (suc b) =
    rw (add-suc a b, pow-suc 2 (a + b), pow-suc 2 b)
      (omega (arith, ap (λ (t : ℕ). t * 2) (pow_add a b)))

pub pow_pos : (a : ℕ) → 0 < 2 ^ a
pow_pos a = one-le-pow a 2 (omega arith)

module _ (s k : ℕ) (width : s + k ≡ 64) where
  width_split : 2 ^ 64 ≡ 2 ^ s * 2 ^ k
  width_split = ap (λ (t : ℕ). 2 ^ t) (sym width) ∙ pow_add s k

  -- `r | (x << s)` on a `u64`, for an `r` below bit `s`, is the sum modulo the width.
  pub or_shl64 : (r x : ℕ) → r < 2 ^ s → bit_or r (x * 2 ^ s % 2 ^ 64) ≡ (r + x * 2 ^ s) % 2 ^ 64
  or_shl64 r x h =
      rw (← add-mod-mod r (x * 2 ^ s) (2 ^ 64), shifted, bit_or-shifted s r (x % 2 ^ k) h)
        (sym (mod-eq_of_lt fits))
    where
      shifted : x * 2 ^ s % 2 ^ 64 ≡ x % 2 ^ k * 2 ^ s
      shifted =
          ap (λ (t : ℕ). x * 2 ^ s % t) width_split
          ∙ shl_mod x (2 ^ s) (2 ^ k) (pow_pos s) (pow_pos k)

      fits : r + x % 2 ^ k * 2 ^ s < 2 ^ 64
      fits = omega (
        arith,
        width_split,
        mul-le-mul_right (2 ^ s) (let e : suc (x % 2 ^ k) ≤ 2 ^ k = mod-lt x (pow_pos k) in e),
      )
