-- ===== src/Proto/Varint/Decode.antt =====
-- What `decode_varint` (src/proto.rs) answers on any bytes, against an independent description.
use linux_bt_proxy.Prelude.{
  ℕ, suc, ◌+◌, ◌-◌, ◌*◌, ◌%◌, ◌^◌, ◌≤◌, ◌<◌, ◌≡◌, refl, sym, ap, ◌∙◌, bit_and, [], ◌∷◌, Bytes,
  length, take, IsByte, IsBytes, ltb, leb, ◌==◌, if◌then◌else◌, arith,
}
use linux_bt_proxy.Prelude.Bits.{low_seven, top_bit, or_shl64, pow_add}
use linux_bt_proxy.Proto.Varint.{
  Decoded, ok, err, invalid_data, unexpected_eof, decode_loop, decode_varint,
}
use native.Mathlib.Nat.{mod-add-mod, mod-le, mul-le-mul_right}
use native.Mathlib.Decide.{dec_lt}
use native.Mathlib.Numerals.{add-one}

-- How many bytes at the front have the top bit set.
abbrev pub leading : Bytes → ℕ
leading [] = 0
leading (b ∷ bs) = if ltb b 128 then 0 else suc (leading bs)

-- The number whose groups of seven bits, lowest first, the bytes hold.
abbrev pub group_value : Bytes → ℕ
group_value [] = 0
group_value (b ∷ bs) = b % 128 + 128 * group_value bs

-- What is read behind `i` bytes that gave `result`, in bits from `shift` on.
abbrev answer : Bytes → ℕ → ℕ → ℕ → Decoded
answer bs result shift i =
    if leb 10 (i + leading bs)
    then err invalid_data
    else if leading bs == length bs
    then err unexpected_eof
    else ok ((result + group_value (take (suc (leading bs)) bs) * 2 ^ shift) % 2 ^ 64)
        (i + leading bs + 1)

abbrev add_group : ℕ → ℕ → ℕ → ℕ
add_group b result shift = (result + b % 128 * 2 ^ shift) % 2 ^ 64

module _ (b : ℕ) (bs : Bytes) (result shift i : ℕ) (index : shift ≡ 7 * i) (fewer : i ≤ 9)
    (small : result < 2 ^ shift) where
  grouped : decode_loop (b ∷ bs) result shift i ≡ (
      if bit_and b 0x80 == 0
      then ok (add_group b result shift) (i + 1)
      else if ltb 63 (shift + 7)
      then err invalid_data
      else decode_loop bs (add_group b result shift) (shift + 7) (i + 1))
  unfolding decode_loop
  grouped = rw (low_seven b, or_shl64 shift (64 - shift) (omega arith) result (b % 128) small) refl

  last_byte : b < 128 → decode_loop (b ∷ bs) result shift i ≡ ok (add_group b result shift) (i + 1)
  last_byte h = rw grouped (ground (arith, top_bit b))

  tenth_byte : IsByte b → 128 ≤ b → i ≡ 9 → decode_loop (b ∷ bs) result shift i ≡ err invalid_data
  tenth_byte hb h e = rw grouped (ground (arith, top_bit b))

  inner_byte :
      IsByte b
      → 128 ≤ b
      → i < 9
      → decode_loop (b ∷ bs) result shift i
        ≡ decode_loop bs (add_group b result shift) (shift + 7) (i + 1)
  inner_byte hb h e = rw grouped (ground (arith, top_bit b))

  add_group-lt : add_group b result shift < 2 ^ (shift + 7)
  add_group-lt = omega (
    arith,
    pow_add shift 7,
    mod-le (result + b % 128 * 2 ^ shift) (2 ^ 64),
    mul-le-mul_right (2 ^ shift) (let e : b % 128 ≤ 127 = omega arith in e),
  )

  answer_last : b < 128 → answer (b ∷ bs) result shift i ≡ ok (add_group b result shift) (i + 1)
  answer_last h = ground arith

  answer_tenth : 128 ≤ b → i ≡ 9 → answer (b ∷ bs) result shift i ≡ err invalid_data
  answer_tenth h e = ground arith

  carried :
      (v : ℕ)
      → (add_group b result shift + v * 2 ^ (shift + 7)) % 2 ^ 64
        ≡ (result + (b % 128 + 128 * v) * 2 ^ shift) % 2 ^ 64
  carried v =
      mod-add-mod (result + b % 128 * 2 ^ shift) (2 ^ 64) (v * 2 ^ (shift + 7))
      ∙ ap (λ (t : ℕ). t % 2 ^ 64) (omega (arith, ap (λ (t : ℕ). v * t) (pow_add shift 7)))

  answer_inner :
      128 ≤ b
      → i < 9
      → answer bs (add_group b result shift) (shift + 7) (i + 1) ≡ answer (b ∷ bs) result shift i
  answer_inner h e = ground (arith, carried (group_value (take (suc (leading bs)) bs)))

decode_loop-answer :
    (bs : Bytes) (result shift i : ℕ)
    → IsBytes bs
    → shift ≡ 7 * i
    → i ≤ 9
    → result < 2 ^ shift
    → decode_loop bs result shift i ≡ answer bs result shift i
decode_loop-answer [] result shift i _ e h s = unfold decode_loop in ground arith
decode_loop-answer (b ∷ bs) result shift i (hb, hbs) e h s = elim (dec_lt b 128) [
  | yes small ↦
      last_byte b bs result shift i e h s small ∙ sym (answer_last b bs result shift i e h s small)
  | no large ↦ elim (dec_lt i 9) [
    | yes more ↦
        inner_byte b bs result shift i e h s hb (omega arith) more
        ∙ decode_loop-answer bs (add_group b result shift) (shift + 7) (i + 1) hbs (omega arith)
            (omega arith) (add_group-lt b bs result shift i e h s)
        ∙ answer_inner b bs result shift i e h s (omega arith) more
    | no full ↦
        tenth_byte b bs result shift i e h s hb (omega arith) (omega arith)
        ∙ sym (answer_tenth b bs result shift i e h s (omega arith) (omega arith))
  ]
]

-- The answer on any bytes: ten bytes with the top bit set are refused as too long; fewer, with
-- nothing behind them, as incomplete; otherwise the number is that of the groups up to the first
-- byte without the top bit, modulo 2 ^ 64, and those bytes are consumed.
pub decode_varint_lem :
    (buf : Bytes)
    → IsBytes buf
    → decode_varint buf ≡ (
        if leb 10 (leading buf)
        then err invalid_data
        else if leading buf == length buf
        then err unexpected_eof
        else ok (group_value (take (leading buf + 1) buf) % 2 ^ 64) (leading buf + 1))
unfolding decode_varint
decode_varint_lem buf h =
    decode_loop-answer buf 0 0 0 h (omega arith) (omega arith) (omega arith)
    ∙ rw (add-one (leading buf)) (ground arith)

leading-le : (bs : Bytes) → leading bs ≤ length bs
leading-le [] = omega arith
leading-le (b ∷ bs) = ground (arith, leading-le bs)

-- A number that is read takes one to ten of the bytes, and is a `u64`.
pub decode_varint_bounds :
    (buf : Bytes) {v n : ℕ}
    → IsBytes buf
    → decode_varint buf ≡ ok v n
    → (1 ≤ n) × (n ≤ 10) × (n ≤ length buf) × (v < 2 ^ 64)
decode_varint_bounds buf h e = ground (arith, decode_varint_lem buf h, leading-le buf)
