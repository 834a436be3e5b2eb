-- ===== src/Proto/Frame/Progress.antt =====
-- `next_message` (src/proto.rs) on any buffer: what it leaves of it.
use linux_bt_proxy.Prelude.{
  ℕ, ◌^◌, ◌≤◌, ◌<◌, ◌≡◌, refl, [], ◌∷◌, Bytes, length, All-drop, drop, IsByte, IsBytes, ltb, leb,
  ◌==◌, inl, inr, arith, Bool-cases, ltb→le, some, none, ◌⊎◌,
}
use linux_bt_proxy.Prelude.Outcome.{Outcome, returns, panics, ◌>>=◌}
use linux_bt_proxy.Proto.Varint.{Decoded, ok, err, decode_varint}
use linux_bt_proxy.Proto.Varint.Decode.{decode_varint_bounds}
use linux_bt_proxy.Proto.Frame.{
  BytesMut, or_panic, add_usize, slice_from, Next, split_message, read_message, next_message,
}
use native.Mathlib.Decide.{dec_le}

-- A call leaves the buffer alone, or takes some bytes off its front.
abbrev pub Leaves : Bytes → Outcome Next → Type 0
Leaves buf panics = Unit
Leaves buf (returns (none, rest)) = rest ≡ buf
Leaves buf (returns (some m, rest)) = (k : ℕ) × (0 < k) × (k ≤ length buf) × (rest ≡ drop k buf)

Decoded-cases : (d : Decoded) → ((e : _) × (d ≡ err e)) ⊎ ((v : ℕ) × (n : ℕ) × (d ≡ ok v n))
Decoded-cases (err e) = inl (e, refl)
Decoded-cases (ok v n) = inr (v, n, refl)

module _ (lib : BytesMut) where
  -- Once the front of the buffer is split off, only the payload's own split is left.
  split_off-Leaves :
      (buf head : Bytes) (offset at msg_type : ℕ)
      → 0 < at
      → at ≤ length buf
      → Leaves buf (
          or_panic (lib.split_off offset head) >>= λ p. returns (some (msg_type, p.1), drop at buf))
  split_off-Leaves buf head offset at msg_type pos le =
      elim (lib.split_off offset head)
        as (λ o. Leaves buf (or_panic o >>= λ p. returns (some (msg_type, p.1), drop at buf))) [
          | none ↦ tt
          | some p ↦ (at, pos, le, refl)
        ]

  split_message-Leaves :
      (buf : Bytes) (offset len msg_type : ℕ)
      → 0 < add_usize offset len
      → Leaves buf (split_message lib buf offset len msg_type)
  unfolding split_message
  split_message-Leaves buf offset len msg_type pos =
      elim (dec_le (add_usize offset len) (length buf)) [
        | yes le ↦
            rw (lib.split_to_within (add_usize offset len) buf le)
              (split_off-Leaves buf _ offset _ _ pos le)
        | no gt ↦ rw (lib.split_to_beyond (add_usize offset len) buf (omega arith)) tt
      ]

  read_message-Leaves :
      (buf : Bytes) (offset len : ℕ)
      → IsBytes buf
      → length buf < 2 ^ 63
      → 2 ≤ offset
      → offset ≤ 11
      → len < 2 ^ 64
      → Leaves buf (read_message lib buf offset len)
  unfolding read_message
  read_message-Leaves buf offset len bytes fits lo hi wide =
      elim (Bool-cases (ltb (length buf) (add_usize offset len))) [
        | inl short ↦ rw short refl
        | inr enough ↦ elim (Bool-cases (leb offset (length buf))) [
          | inr out ↦ rw (enough, out) tt
          | inl inside ↦ elim (Decoded-cases (decode_varint (drop offset buf))) [
            | inl (e, d) ↦ rw (enough, inside, ◌>>=◌, d) refl
            | inr (v, n, d) ↦
                rw (enough, inside, ◌>>=◌, d)
                  (split_message-Leaves buf (add_usize offset n) len v (
                    omega (
                      arith,
                      decode_varint_bounds (drop offset buf) (All-drop IsByte offset buf bytes) d,
                      ltb→le (length buf) (add_usize offset len) enough,
                    )))
          ]
        ]
      ]

  -- Every call either leaves the buffer as it was, or panics, or takes a message off its front, at
  -- least one byte: for any buffer of bytes shorter than 2 ^ 63, whatever the peer wrote into it.
  pub next_message-Leaves :
      (buf : Bytes) → IsBytes buf → length buf < 2 ^ 63 → Leaves buf (next_message lib buf)
  unfolding next_message
  next_message-Leaves [] bytes fits = refl
  next_message-Leaves (byte ∷ body) bytes fits = elim (Bool-cases (byte == 0)) [
    | inr other ↦ rw other refl
    | inl zero_byte ↦ elim (Decoded-cases (decode_varint body)) [
      | inl (e, d) ↦ rw (zero_byte, one_byte, ◌>>=◌, d) refl
      | inr (v, n, d) ↦
          rw (zero_byte, one_byte, ◌>>=◌, d)
            (read_message-Leaves (byte ∷ body) (add_usize 1 n) v bytes fits
              (omega (arith, sizes v n d)) (omega (arith, sizes v n d))
              (omega (arith, sizes v n d)))
    ]
  ]
    where
      one_byte : slice_from 1 (byte ∷ body) ≡ returns body
      one_byte = ground arith

      sizes : (v n : ℕ) → decode_varint body ≡ ok v n → (1 ≤ n) × (n ≤ 10) × (v < 2 ^ 64)
      sizes v n d = let (a, b, c, e) = decode_varint_bounds body bytes.1 d in (a, b, e)
