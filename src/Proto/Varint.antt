-- ===== src/Proto/Varint.antt =====
-- src/proto.rs: `encode_varint` and `decode_varint`. A `u8` is a number below 2 ^ 8, a `u64` one
-- below 2 ^ 64. The loop of `encode_varint` is given ten rounds, the most that a `u64` takes.
pub mod Encode
pub mod Decode
pub mod RoundTrip
use linux_bt_proxy.Prelude.{
  ℕ, zero, suc, ◌+◌, ◌*◌, ◌/◌, ◌%◌, ◌^◌, bit_and, bit_or, List, [], ◌∷◌, Bytes, ltb, ◌==◌,
  if◌then◌else◌,
}

-- The `std::io::ErrorKind`s that the decoder reports.
pub data ErrorKind : Type 0 where
  invalid_data unexpected_eof : ErrorKind

pub data Decoded : Type 0 where
  ok : (value : ℕ) → (consumed : ℕ) → Decoded
  err : ErrorKind → Decoded

-- `val << shift` on a `u64`.
abbrev pub shl64 : ℕ → ℕ → ℕ
shl64 value shift = value * 2 ^ shift % 2 ^ 64

-- The rounds of the `for` loop over the bytes not yet seen; `i` is the loop's index.
pub decode_loop : Bytes → ℕ → ℕ → ℕ → Decoded
decode_loop [] result shift i = err unexpected_eof
decode_loop (byte ∷ bytes) result shift i =
    let result' = bit_or result (shl64 (bit_and byte 0x7F) shift) in
    let more = decode_loop bytes result' (shift + 7) (i + 1) in
    if bit_and byte 0x80 == 0
    then ok result' (i + 1)
    else if ltb 63 (shift + 7)
    then err invalid_data
    else more

unfoldable pub decode_varint : Bytes → Decoded
unfolding decode_loop
decode_varint buf = decode_loop buf 0 0 0

-- The rounds of `loop`, the first argument bounding their number.
pub encode_loop : ℕ → ℕ → Bytes
encode_loop zero value = []
encode_loop (suc rounds) value =
    let byte = bit_and value 0x7F in
    let value' = value / 2 ^ 7 in
    let rest = encode_loop rounds value' in
    if value' == 0 then byte ∷ [] else bit_or byte 0x80 ∷ rest

unfoldable pub encode_varint : ℕ → Bytes
unfolding encode_loop
encode_varint value = encode_loop 10 value
