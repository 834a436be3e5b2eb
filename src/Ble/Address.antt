-- ===== src/Ble/Address.antt =====
-- `parse_ble_address` (src/ble.rs) against `parse_mac` (src/utils.rs).
use linux_bt_proxy.Prelude.{
  ℕ, suc, ◌+◌, ◌*◌, ◌%◌, ◌^◌, ◌<◌, ◌≤◌, ◌≡◌, refl, ap, some, List, [], ◌∷◌, Bytes, drop, map,
  length, arith,
}
use linux_bt_proxy.Prelude.Bits.{bit_or_comm, or_shl64, pow_add}
use native.Mathlib.Nat.{pow-le-pow_right}
use linux_bt_proxy.Text.{split, u8_from_hex}
use linux_bt_proxy.Text.Hex.{u8_from_hex-IsByte}
use linux_bt_proxy.Utils.{parse_mac, ok}
use linux_bt_proxy.Utils.Mac.{parse_mac_iff}
use linux_bt_proxy.Ble.{push_octet, fold_octets, parse_ble_address, adapter_path}
use linux_bt_proxy.Text.Decimal.{decimal-injective}

-- The number that octets are, the first the most significant.
abbrev pub big_endian : ℕ → List ℕ → ℕ
big_endian acc [] = acc
big_endian acc (b ∷ bs) = big_endian (acc * 256 + b) bs

push_octet_lem :
    (acc b : ℕ) (part : Bytes)
    → u8_from_hex part ≡ some b
    → acc < 2 ^ 56
    → push_octet acc part ≡ acc * 256 + b
unfolding push_octet
push_octet_lem acc b part e h =
    rw
      (
        e,
        bit_or_comm (acc * 2 ^ 8 % 2 ^ 64) b,
        or_shl64 8 56 refl b acc (u8_from_hex-IsByte part e),
      )
      (omega (arith, u8_from_hex-IsByte part e))

-- Octets behind `k` others, where all of them have room on 64 bits.
fold_octets_lem :
    (k acc : ℕ) (parts : List Bytes) (mac : Bytes)
    → map u8_from_hex parts ≡ map some mac
    → k + length mac ≤ 8
    → acc < 2 ^ (8 * k)
    → fold_octets acc parts ≡ big_endian acc mac
unfolding fold_octets
fold_octets_lem k acc [] [] e small room = refl
fold_octets_lem k acc [] (b ∷ mac) e small room = cc
fold_octets_lem k acc (part ∷ parts) [] e small room = cc
fold_octets_lem k acc (part ∷ parts) (b ∷ mac) e small room =
    rw (push_octet_lem acc b part read below) (
      fold_octets_lem (suc k) (acc * 256 + b) parts mac (cc) (omega arith)
        (omega (arith, widened, pow_add (8 * k) 8, u8_from_hex-IsByte part read)))
  where
    widened : 2 ^ (8 * suc k) ≡ 2 ^ (8 * k + 8)
    widened = ap (λ (t : ℕ). 2 ^ t) (omega arith)

    read : u8_from_hex part ≡ some b
    read = cc

    below : acc < 2 ^ 56
    below = omega (arith, pow-le-pow_right {n = 2} (omega arith) {i = 8 * k} {j = 56} (omega arith))

-- The address of an advertisement is the number that the six bytes of its text are, for every text
-- that `parse_mac` accepts.
pub parse_ble_address-parse_mac :
    (s mac : Bytes) → parse_mac s ≡ ok mac → parse_ble_address s ≡ big_endian 0 mac
unfolding parse_ble_address
parse_ble_address-parse_mac s mac e =
    let (six, parts) = (parse_mac_iff s mac).0 e in
    fold_octets_lem 0 0 (split b':' s) mac parts (omega (arith, six)) (omega arith)

-- Two adapters have different paths.
pub adapter_path-injective :
    (m n : ℕ) → m < 2 ^ 16 → n < 2 ^ 16 → adapter_path m ≡ adapter_path n → m ≡ n
unfolding adapter_path
adapter_path-injective m n h k e =
    decimal-injective m n (omega arith) (omega arith) (ap (drop 14) e)
