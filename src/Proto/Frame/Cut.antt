-- ===== src/Proto/Frame/Cut.antt =====
-- `next_message` (src/proto.rs) on a buffer that ends inside a frame's header.
use linux_bt_proxy.Prelude.{
  ℕ, suc, ◌^◌, ◌<◌, ◌≡◌, refl, ◌∙◌, [], ◌∷◌, ◌++◌, Bytes, List, length, All-left, IsByte, inl, inr,
  arith, none, ◌⊎◌,
}
use linux_bt_proxy.Prelude.Outcome.{returns, ◌>>=◌}
use linux_bt_proxy.Proto.Varint.{ok, err, unexpected_eof, decode_varint, encode_varint}
use linux_bt_proxy.Proto.Varint.Encode.{length-encode_varint, encode_varint-IsBytes}
use linux_bt_proxy.Proto.Varint.RoundTrip.{decode_varint-encode_varint, decode_varint-cut}
use linux_bt_proxy.Proto.Frame.Whole.{next_message-length, slice_from-front}
use linux_bt_proxy.Proto.Frame.{BytesMut, add_usize, read_message, next_message, frame_header}

-- Where a cut falls in a list that is made of two.
cut_cases {ℓ} :
    {A : Type ℓ} (xs ys front : List A) (x : A) (back : List A)
    → xs ++ ys ≡ front ++ x ∷ back
    → ((back' : List A) × (xs ≡ front ++ x ∷ back'))
      ⊎ ((front' : List A) × (front ≡ xs ++ front') × (ys ≡ front' ++ x ∷ back))
cut_cases [] ys front x back e = inr (front, refl, e)
cut_cases (a ∷ xs) ys [] x back e = inl (xs, cc)
cut_cases (a ∷ xs) ys (b ∷ front) x back e = elim (cut_cases xs ys front x back (cc)) [
  | inl (back', p) ↦ inl (back', cc)
  | inr (front', p, q) ↦ inr (front', cc, q)
]

module _ (lib : BytesMut) where
  next_message-no_length :
      (body : Bytes)
      → decode_varint body ≡ err unexpected_eof
      → next_message lib (0 ∷ body) ≡ returns (none, 0 ∷ body)
  unfolding next_message
  next_message-no_length body read = rw (slice_from-front lib (0 ∷ []) body, ◌>>=◌, read) refl

  read_message-no_type :
      (front types : Bytes) (len : ℕ)
      → decode_varint types ≡ err unexpected_eof
      → read_message lib (front ++ types) (length front) len ≡ returns (none, front ++ types)
  unfolding read_message
  read_message-no_type front types len read =
      rw (slice_from-front lib front types, ◌>>=◌, read) (ground arith)

  -- While the header of a frame, as `encode_varint` writes it, is incomplete, wherever it is cut, no message is found and the
  -- buffer is left alone.
  pub next_message-cut :
      (msg_type len x : ℕ) (front back : Bytes)
      → msg_type < 2 ^ 64
      → len < 2 ^ 64
      → frame_header msg_type len ≡ front ++ x ∷ back
      → next_message lib front ≡ returns (none, front)
  next_message-cut msg_type len x [] back type_fits len_fits e = unfold next_message in refl
  next_message-cut msg_type len x (b ∷ front) back type_fits len_fits e =
      elim (cut_cases (encode_varint len) (encode_varint msg_type) front x back (cc)) [
        | inl (back', p) ↦
            zero_first
              (next_message-no_length front (decode_varint-cut len x front back' len_fits p))
        | inr (types, p, q) ↦ zero_first (
            rw p (
              next_message-length lib (encode_varint len ++ types) len (length (encode_varint len))
                (len_read types q)
              ∙ rw behind (
                  read_message-no_type (0 ∷ encode_varint len) types len
                    (decode_varint-cut msg_type x types back type_fits q))))
      ]
    where
      zero_first :
          next_message lib (0 ∷ front) ≡ returns (none, 0 ∷ front)
          → next_message lib (b ∷ front) ≡ returns (none, b ∷ front)
      zero_first = rw (let e : b ≡ 0 = cc in e) (λ h. h)

      behind : add_usize 1 (length (encode_varint len)) ≡ suc (length (encode_varint len))
      behind = omega (arith, length-encode_varint len)

      len_read :
          (types : Bytes)
          → encode_varint msg_type ≡ types ++ x ∷ back
          → decode_varint (encode_varint len ++ types) ≡ ok len (length (encode_varint len))
      len_read types q =
          decode_varint-encode_varint len types len_fits
            (All-left IsByte types (x ∷ back) (rw (← q) (encode_varint-IsBytes msg_type)))
