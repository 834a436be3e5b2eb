-- ===== src/Proto/Frame.antt =====
-- src/proto.rs: `next_message`, which takes one frame off the receive buffer: a zero byte, the
-- payload's length and the message type as varints, then the payload. Sums of a `usize` wrap at
-- 2 ^ 64, as they do in the release build that the README and the packages use.
pub mod Whole
pub mod Cut
pub mod Progress
use linux_bt_proxy.Prelude.{
  ℕ, ◌+◌, ◌%◌, ◌^◌, ◌≤◌, ◌<◌, ◌≡◌, Option, none, some, [], ◌∷◌, ◌++◌, Bytes, length, take, drop,
  ltb, leb, ◌==◌, if◌then◌else◌,
}
use linux_bt_proxy.Prelude.Outcome.{Outcome, returns, panics, ◌>>=◌}
use linux_bt_proxy.Proto.Varint.{ok, err, decode_varint, encode_varint}

-- What `next_message` uses of the `bytes` crate's `BytesMut`, here its contents. `none` is a panic.
-- Documented: `split_to(at)` returns the first `at` bytes and keeps the rest, and panics if `at` is
-- greater than the length; `split_off(at)` keeps the first `at` bytes and returns the rest.
pub record BytesMut : Type 0 where
  pub split_to : ℕ → Bytes → Option (Bytes × Bytes)
  pub split_off : ℕ → Bytes → Option (Bytes × Bytes)
  pub split_to_within :
      (at : ℕ) (b : Bytes) → at ≤ length b → split_to at b ≡ some (take at b, drop at b)
  pub split_to_beyond : (at : ℕ) (b : Bytes) → length b < at → split_to at b ≡ none
  pub split_off_within :
      (at : ℕ) (b : Bytes) → at ≤ length b → split_off at b ≡ some (take at b, drop at b)

abbrev pub or_panic {ℓ} : {A : Type ℓ} → Option A → Outcome A
or_panic none = panics
or_panic (some a) = returns a

-- `a + b` on `usize`.
abbrev pub add_usize : ℕ → ℕ → ℕ
add_usize a b = (a + b) % 2 ^ 64

-- `&buf[offset..]`
abbrev pub slice_from : ℕ → Bytes → Outcome Bytes
slice_from offset buf = if leb offset (length buf) then returns (drop offset buf) else panics

-- A message's type and payload, if there is one, and the buffer that is left.
abbrev pub Next : Type 0
Next = Option (ℕ × Bytes) × Bytes

module _ (lib : BytesMut) where
  open lib use {split_to, split_off}

  -- From `let payload_len` on; `offset` is behind the message type.
  pub split_message : Bytes → ℕ → ℕ → ℕ → Outcome Next
  split_message buf offset payload_len msg_type = do
    (head, rest) ← or_panic (split_to (add_usize offset payload_len) buf)
    (_, payload) ← or_panic (split_off offset head)
    returns (some (msg_type % 2 ^ 32, payload), rest)

  -- From `Step 3` on; `offset` is behind the length.
  pub read_message : Bytes → ℕ → ℕ → Outcome Next
  unfolding split_message
  read_message buf offset len =
      if ltb (length buf) (add_usize offset len) then returns (none, buf) else do
        tail ← slice_from offset buf
        elim (decode_varint tail) [
          | err _ ↦ returns (none, buf)
          | ok msg_type type_size ↦ split_message buf (add_usize offset type_size) len msg_type
        ]

  -- From `Step 2` on.
  pub read_length : Bytes → Outcome Next
  unfolding read_message
  read_length buf = do
    tail ← slice_from 1 buf
    elim (decode_varint tail) [
      | err _ ↦ returns (none, buf)
      | ok len len_size ↦ read_message buf (add_usize 1 len_size) len
    ]

  unfoldable pub next_message : Bytes → Outcome Next
  unfolding read_length
  next_message [] = returns (none, [])
  next_message (byte ∷ body) =
      if byte == 0 then read_length (byte ∷ body) else returns (none, byte ∷ body)

-- What stands before the payload in the frame of a payload of `len` bytes.
abbrev pub frame_header : ℕ → ℕ → Bytes
frame_header msg_type len = 0 ∷ (encode_varint len ++ encode_varint msg_type)

abbrev pub frame : ℕ → Bytes → Bytes
frame msg_type payload = frame_header msg_type (length payload) ++ payload
