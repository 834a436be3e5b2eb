-- ===== src/Proto/Varint/RoundTrip.antt =====
-- `decode_varint` reads back what `encode_varint` wrote (src/proto.rs).
use linux_bt_proxy.Prelude.{
  ℕ, zero, suc, ◌+◌, ◌/◌, ◌%◌, ◌^◌, ◌≤◌, ◌<◌, ◌≡◌, refl, sym, ap, ◌∙◌, [], ◌∷◌, ◌++◌, Bytes, length,
  length-append, take-append, All-append, All-left, IsByte, IsBytes, arith, append-nil,
}
use linux_bt_proxy.Proto.Varint.{ok, err, unexpected_eof, decode_varint, encode_loop, encode_varint}
use linux_bt_proxy.Proto.Varint.Encode.{
  encode_loop_step, length-encode_varint, encode_varint-IsBytes,
}
use linux_bt_proxy.Proto.Varint.Decode.{leading, group_value, decode_varint_lem}
use native.Mathlib.Nat.{mod-eq_of_lt}

leading-encode_loop :
    (k v : ℕ) (rest : Bytes)
    → v < 128 ^ suc k
    → suc (leading (encode_loop (suc k) v ++ rest)) ≡ length (encode_loop (suc k) v)
leading-encode_loop zero v rest h =
    rw (encode_loop_step zero v) (unfold encode_loop in ground arith)
leading-encode_loop (suc k) v rest h =
    rw (encode_loop_step (suc k) v)
      (ground (arith, leading-encode_loop k (v / 128) rest (omega arith)))

group_value-encode_loop : (k v : ℕ) → v < 128 ^ suc k → group_value (encode_loop (suc k) v) ≡ v
group_value-encode_loop zero v h = rw (encode_loop_step zero v) (unfold encode_loop in ground arith)
group_value-encode_loop (suc k) v h =
    rw (encode_loop_step (suc k) v)
      (ground (arith, group_value-encode_loop k (v / 128) (omega arith)))

module _ (v : ℕ) (rest : Bytes) (fits : v < 2 ^ 64) where
  leading-encode_varint : leading (encode_varint v ++ rest) + 1 ≡ length (encode_varint v)
  unfolding encode_varint
  leading-encode_varint = omega (arith, leading-encode_loop 9 v rest (omega arith))

  group_value-encode_varint : group_value (encode_varint v) % 2 ^ 64 ≡ v
  unfolding encode_varint
  group_value-encode_varint = rw (group_value-encode_loop 9 v (omega arith)) (mod-eq_of_lt fits)

  -- `decode_varint` reads back any `u64` that `encode_varint` wrote, whatever follows it, and
  -- consumes exactly the bytes written.
  pub decode_varint-encode_varint :
      IsBytes rest → decode_varint (encode_varint v ++ rest) ≡ ok v (length (encode_varint v))
  decode_varint-encode_varint h =
      decode_varint_lem (encode_varint v ++ rest)
        (All-append IsByte (encode_varint v) rest (encode_varint-IsBytes v) h)
      ∙ rw (leading-encode_varint, take-append (encode_varint v) rest)
          (ground (
            arith,
            leading-encode_varint,
            length-encode_varint v,
            length-append (encode_varint v) rest,
            group_value-encode_varint,
          ))

leading_front :
    (front more : Bytes) → length front ≤ leading (front ++ more) → leading front ≡ length front
leading_front [] more h = refl
leading_front (b ∷ front) more h = ground (arith, leading_front front more)

-- On a proper front of what `encode_varint` wrote, `decode_varint` answers that it is incomplete.
pub decode_varint-cut :
    (v x : ℕ) (front back : Bytes)
    → v < 2 ^ 64
    → encode_varint v ≡ front ++ x ∷ back
    → decode_varint front ≡ err unexpected_eof
decode_varint-cut v x front back fits e =
    decode_varint_lem front (All-left IsByte front (x ∷ back) (rw (← e) (encode_varint-IsBytes v)))
    ∙ ground (
      arith,
      leading_front front (x ∷ back) (omega (arith, counted, sizes)),
      sizes,
      length-encode_varint v,
    )
  where
    sizes : length (encode_varint v) ≡ length front + suc (length back)
    sizes = ap length e ∙ length-append front (x ∷ back)

    counted : leading (front ++ x ∷ back) + 1 ≡ length (encode_varint v)
    counted = rw (append-nil, e) at (leading-encode_varint v [] fits) ∙ sym (ap length e)
