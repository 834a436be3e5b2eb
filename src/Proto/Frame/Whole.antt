-- ===== src/Proto/Frame/Whole.antt =====
-- `next_message` (src/proto.rs) behind a complete frame header.
use linux_bt_proxy.Prelude.{
  ℕ, suc, ◌+◌, ◌%◌, ◌^◌, ◌≤◌, ◌<◌, ◌≡◌, ◌≢◌, refl, ap, ◌∙◌, [], ◌∷◌, ◌++◌, Bytes, length,
  length-append, take, drop, take-append, drop-append, take-append_add, drop-append_add, All-append,
  IsByte, IsBytes, ltb, if◌then◌else◌, inl, inr, arith, append_assoc, Bool-cases, ltb→lt, ltb→le,
  some, none,
}
use linux_bt_proxy.Prelude.Outcome.{Outcome, returns, panics, ◌>>=◌}
use linux_bt_proxy.Proto.Varint.{ok, decode_varint, encode_varint}
use linux_bt_proxy.Proto.Varint.Encode.{length-encode_varint, encode_varint-IsBytes}
use linux_bt_proxy.Proto.Varint.RoundTrip.{decode_varint-encode_varint}
use linux_bt_proxy.Proto.Frame.{
  BytesMut, add_usize, slice_from, Next, split_message, read_message, next_message, frame_header,
  frame,
}
use native.Mathlib.Nat.{mod-eq_of_lt}

length_pos : (xs : Bytes) → xs ≢ [] → 0 < length xs
length_pos [] h = absurd (h refl)
length_pos (x ∷ xs) h = omega arith

module _ (lib : BytesMut) where
  -- Past the checks the message is split off, unless the payload is not all there.
  split_message-frame :
      (head rest : Bytes) (len msg_type : ℕ)
      → length head + len < 2 ^ 64
      → split_message lib (head ++ rest) (length head) len msg_type ≡ (
          if ltb (length rest) len
          then panics
          else returns (some (msg_type % 2 ^ 32, take len rest), drop len rest))
  unfolding split_message
  split_message-frame head rest len msg_type fits = elim (Bool-cases (ltb (length rest) len)) [
    | inl short ↦
        rw
          (
            mod-eq_of_lt fits,
            short,
            lib.split_to_beyond (length head + len) (head ++ rest)
                (omega (arith, length-append head rest, ltb→lt (length rest) len short)),
          )
          refl
    | inr enough ↦
        rw
          (
            mod-eq_of_lt fits,
            enough,
            lib.split_to_within (length head + len) (head ++ rest)
                (omega (arith, length-append head rest, ltb→le (length rest) len enough)),
            take-append_add head rest len,
            drop-append_add head rest len,
            lib.split_off_within (length head) (head ++ take len rest)
                (omega (arith, length-append head (take len rest))),
            drop-append head (take len rest),
          )
          refl
  ]

  -- What `next_message` answers on a header for `len` bytes with `rest` behind it.
  abbrev pub Answers : ℕ → ℕ → ℕ → Bytes → Bytes → Outcome Next
  Answers msg_type len type_size buf rest =
      if ltb (length rest + type_size) len
      then returns (none, buf)
      else if ltb (length rest) len
      then panics
      else returns (some (msg_type % 2 ^ 32, take len rest), drop len rest)

  pub slice_from-front :
      (front back : Bytes) → slice_from (length front) (front ++ back) ≡ returns back
  slice_from-front front back =
      rw (drop-append front back) (ground (arith, length-append front back))

  enough-front :
      (front types rest : Bytes) (len : ℕ)
      → ltb (length (front ++ (types ++ rest))) (length front + len)
        ≡ ltb (length rest + length types) len
  enough-front front types rest len =
      rw (length-append front (types ++ rest), length-append types rest) (ground arith)

  read_message-frame :
      (front types rest : Bytes) (len msg_type : ℕ)
      → length front + length types + len < 2 ^ 64
      → decode_varint (types ++ rest) ≡ ok msg_type (length types)
      → read_message lib (front ++ (types ++ rest)) (length front) len
        ≡ Answers msg_type len (length types) (front ++ (types ++ rest)) rest
  unfolding read_message
  read_message-frame front types rest len msg_type fits read =
      rw
        (
          mod-eq_of_lt (let e : length front + len < 2 ^ 64 = omega arith in e),
          enough-front front types rest len,
          slice_from-front front (types ++ rest),
          ◌>>=◌,
          read,
          mod-eq_of_lt (let e : length front + length types < 2 ^ 64 = omega arith in e),
        )
        (ap
          (λ (t : Outcome Next).
            if ltb (length rest + length types) len
            then returns (none, front ++ (types ++ rest))
            else t)
          past_checks)
    where
      past_checks :
          split_message lib (front ++ (types ++ rest)) (length front + length types) len msg_type
          ≡ (if ltb (length rest) len
              then panics
              else returns (some (msg_type % 2 ^ 32, take len rest), drop len rest))
      past_checks =
          rw (append_assoc front types rest, length-append front types) at
            (split_message-frame (front ++ types) rest len msg_type
              (omega (arith, length-append front types)))

  pub next_message-length :
      (body : Bytes) (len size : ℕ)
      → decode_varint body ≡ ok len size
      → next_message lib (0 ∷ body) ≡ read_message lib (0 ∷ body) (add_usize 1 size) len
  unfolding next_message
  next_message-length body len size read = rw (slice_from-front (0 ∷ []) body, ◌>>=◌, read) refl

  -- The answer on a complete header, as `encode_varint` writes it for a `u64` type and a length below
  -- 2 ^ 63, for any number of bytes behind it. With less than
  -- `len` minus the type's size the message is left in the buffer; with less than `len`
  -- the task panics; otherwise the type, the payload and what follows it are returned.
  pub next_message-frame_header :
      (msg_type len : ℕ) (rest : Bytes)
      → msg_type < 2 ^ 64
      → len < 2 ^ 63
      → IsBytes rest
      → next_message lib (frame_header msg_type len ++ rest) ≡ (
          if ltb (length rest + length (encode_varint msg_type)) len
          then returns (none, frame_header msg_type len ++ rest)
          else if ltb (length rest) len
          then panics
          else returns (some (msg_type % 2 ^ 32, take len rest), drop len rest))
  next_message-frame_header msg_type len rest type_fits len_fits bytes =
      rw (append_assoc (encode_varint len) types rest) (
        next_message-length (encode_varint len ++ (types ++ rest)) len (length (encode_varint len))
          len_read
        ∙ rw behind (
            read_message-frame (0 ∷ encode_varint len) types rest len msg_type
              (omega (arith, length-encode_varint len, length-encode_varint msg_type)) type_read))
    where
      types : Bytes
      types = encode_varint msg_type

      behind : add_usize 1 (length (encode_varint len)) ≡ suc (length (encode_varint len))
      behind = omega (arith, length-encode_varint len)

      type_read : decode_varint (types ++ rest) ≡ ok msg_type (length types)
      type_read = decode_varint-encode_varint msg_type rest type_fits bytes

      len_read :
          decode_varint (encode_varint len ++ (types ++ rest)) ≡ ok len (length (encode_varint len))
      len_read =
          decode_varint-encode_varint len (types ++ rest) (omega arith)
            (All-append IsByte types rest (encode_varint-IsBytes msg_type) bytes)

  -- A whole frame of a `u32` type is taken off the buffer: its type and payload come back, and
  -- the bytes behind it stay in the buffer, if the payload is shorter than 2 ^ 63 bytes.
  pub next_message-frame :
      (msg_type : ℕ) (payload rest : Bytes)
      → msg_type < 2 ^ 32
      → length payload < 2 ^ 63
      → IsBytes payload
      → IsBytes rest
      → next_message lib (frame msg_type payload ++ rest) ≡ returns (some (msg_type, payload), rest)
  next_message-frame msg_type payload rest type_fits len_fits bytes more =
      rw (append_assoc (frame_header msg_type (length payload)) payload rest) (
        next_message-frame_header msg_type (length payload) (payload ++ rest) (omega arith) len_fits
          (All-append IsByte payload rest bytes more)
        ∙ rw (take-append payload rest, drop-append payload rest, mod-eq_of_lt type_fits)
            (ground (arith, length-append payload rest)))

  -- A frame whose last bytes have not arrived yet, as few of them as the message type takes or
  -- fewer: the length check passes, and `split_to` panics, for a `u32` type and a payload
  -- below 2 ^ 63 bytes.
  pub next_message_short :
      (msg_type : ℕ) (arrived missing : Bytes)
      → msg_type < 2 ^ 32
      → length (arrived ++ missing) < 2 ^ 63
      → IsBytes arrived
      → missing ≢ []
      → length missing ≤ length (encode_varint msg_type)
      → next_message lib (frame_header msg_type (length (arrived ++ missing)) ++ arrived) ≡ panics
  next_message_short msg_type arrived missing type_fits len_fits bytes some_missing few =
      next_message-frame_header msg_type (length (arrived ++ missing)) arrived (omega arith)
        len_fits bytes
      ∙ ground (arith, length-append arrived missing, length_pos missing some_missing)
