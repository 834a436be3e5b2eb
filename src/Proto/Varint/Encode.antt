-- ===== src/Proto/Varint/Encode.antt =====
-- What `encode_varint` (src/proto.rs) writes, in plain arithmetic.
use linux_bt_proxy.Prelude.{
  ℕ, zero, suc, ◌+◌, ◌/◌, ◌%◌, ◌≤◌, ◌≡◌, refl, bit_and, bit_or, [], ◌∷◌, length, IsBytes, ◌==◌,
  if◌then◌else◌, arith,
}
use linux_bt_proxy.Prelude.Bits.{low_seven, set_top_bit}
use linux_bt_proxy.Proto.Varint.{encode_loop, encode_varint}

pub continued : (v : ℕ) → bit_or (bit_and v 0x7F) 0x80 ≡ v % 128 + 128
continued v = rw (low_seven v) (set_top_bit (v % 128) (omega arith))

-- One round, with the masks read as arithmetic.
pub encode_loop_step :
    (rounds v : ℕ)
    → encode_loop (suc rounds) v
      ≡ (if v / 128 == 0 then (v % 128) ∷ [] else (v % 128 + 128) ∷ encode_loop rounds (v / 128))
unfolding encode_loop
encode_loop_step rounds v = rw (continued v, low_seven v) refl

encode_loop-IsBytes : (rounds v : ℕ) → IsBytes (encode_loop rounds v)
encode_loop-IsBytes zero v = unfold encode_loop in tt
encode_loop-IsBytes (suc rounds) v =
    rw (encode_loop_step rounds v) (ground (arith, encode_loop-IsBytes rounds (v / 128)))

length-encode_loop :
    (rounds v : ℕ)
    → (1 ≤ length (encode_loop (suc rounds) v)) × (length (encode_loop (suc rounds) v) ≤ suc rounds)
length-encode_loop zero v = rw (encode_loop_step zero v) (unfold encode_loop in ground arith)
length-encode_loop (suc rounds) v =
    rw (encode_loop_step (suc rounds) v) (ground (arith, length-encode_loop rounds (v / 128)))

pub length-encode_varint :
    (v : ℕ) → (1 ≤ length (encode_varint v)) × (length (encode_varint v) ≤ 10)
unfolding encode_varint
length-encode_varint v = length-encode_loop 9 v

pub encode_varint-IsBytes : (v : ℕ) → IsBytes (encode_varint v)
unfolding encode_varint
encode_varint-IsBytes v = encode_loop-IsBytes 10 v
