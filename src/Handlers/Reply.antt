-- ===== src/Handlers/Reply.antt =====
-- The handlers of src/handlers.rs that answer with a message: the frame that they write.
use linux_bt_proxy.Prelude.{
  ℕ, ◌^◌, ◌<◌, ◌≡◌, refl, ◌∙◌, Bool, true, false, not, ◌||◌, some, ◌∷◌, ◌++◌, Bytes, if◌then◌else◌,
  inl, inr, Bool-cases,
}
use linux_bt_proxy.Net.{Net, Level, Answer, done, error, ◌>>=◌, checked, log_peer, write_response}
use linux_bt_proxy.Proto.Varint.{encode_varint}
use linux_bt_proxy.Proto.Frame.{frame}
use linux_bt_proxy.Api.Runtime.Merge.{Merged, merged, failed, stuck}
use linux_bt_proxy.Api.Message.{Message, get_message_id}
use linux_bt_proxy.Handlers.{encode_response, respond}

-- Whether the request is one.
abbrev pub accepted : {M : Type 0} → Merged M → Bool
accepted (merged m) = true
accepted failed = false
accepted stuck = false

-- The frame that answers with a message.
abbrev pub answer_frame : {M : Type 0} → Message M → M → Bytes
answer_frame message m = frame (get_message_id message) (message.write_to m)

-- A message that protobuf writes: its size is below the limit of 2 ^ 31, and no size inside wraps.
abbrev pub IsSendable : {M : Type 0} → Message M → M → Type 0
IsSendable message m = message.Fits m × (message.compute_size m < 2 ^ 31)

module _ (net : Net) where
  open net use {Stream, enabled, peer_addr, write_all, sent}

  -- A handler's contract: it fails without a word if its log line needs the peer's address and there
  -- is none, or if the payload is not the request; else it writes the frame.
  abbrev pub reply : Level → Bool → Bytes → Stream → Answer Stream Unit
  reply level is_request answer s =
      if not (enabled level) || peer_addr s
      then (if is_request then checked (write_all answer s) else error s)
      else error s

  -- `encode_response` gives the frame of the message: its size is that of the bytes that follow,
  -- for a message below 2 ^ 31 bytes.
  pub encode_response-frame :
      {M : Type 0} (message : Message M) (msg_type : ℕ) (m : M)
      → IsSendable message m
      → encode_response net message msg_type m ≡ some (frame msg_type (message.write_to m))
  unfolding encode_response
  encode_response-frame message msg_type m (fits, small) =
      net.write_to_vec-append
        (0 ∷ (encode_varint (message.compute_size m) ++ encode_varint msg_type))
        (message.write_to m) (rw (message.length-write_to m fits) small)
      ∙ rw (message.length-write_to m fits) refl

  respond_lem :
      {R M : Type 0} (request : Merged R) (message : Message M) (resp : M) (s : Stream)
      → IsSendable message resp
      → respond net request message resp s
        ≡ (if accepted request then checked (write_all (answer_frame message resp) s) else error s)
  unfolding respond write_response
  respond_lem (merged m) message resp s sendable =
      rw (encode_response-frame message (get_message_id message) resp sendable) refl
  respond_lem failed message resp s sendable = refl
  respond_lem stuck message resp s sendable = refl

  pub respond-reply :
      {R M : Type 0} (level : Level) (request : Merged R) (message : Message M) (resp : M)
      (s : Stream)
      → IsSendable message resp
      → (log_peer net level s >>= λ r. respond net request message resp (r.1))
        ≡ reply level (accepted request) (answer_frame message resp) s
  unfolding log_peer
  respond-reply level request message resp s sendable = elim (Bool-cases (enabled level)) [
    | inr off ↦ rw off (respond_lem request message resp s sendable)
    | inl on ↦ elim (Bool-cases (peer_addr s)) [
      | inr lost ↦ rw (on, lost) refl
      | inl known ↦ rw (on, known) (respond_lem request message resp s sendable)
    ]
  ]

  -- The same for a message that answers no request.
  pub write_response-reply :
      {M : Type 0} (level : Level) (message : Message M) (m : M) (s : Stream)
      → IsSendable message m
      → (log_peer net level s >>= λ r.
          write_response net (encode_response net message (get_message_id message) m) (r.1))
        ≡ reply level true (answer_frame message m) s
  unfolding respond
  write_response-reply level message m s sendable =
      respond-reply level (merged tt) message m s sendable

  checked-done : (r : Bool × Stream) {s : Stream} → checked r ≡ done tt s → r ≡ (true, s)
  checked-done (true, s') e = cc
  checked-done (false, s') e = cc

  -- What the peer has been sent after a reply that returned `Ok`: the frame is all it adds.
  pub sent-reply :
      (level : Level) (is_request : Bool) (answer : Bytes) (s s' : Stream)
      → reply level is_request answer s ≡ done tt s'
      → sent s' ≡ sent s ++ answer
  sent-reply level is_request answer s s' e =
      elim (Bool-cases (not (enabled level) || peer_addr s)) [
        | inr lost ↦ absurd (let q : error s ≡ done tt s' = rw lost at e in cc)
        | inl known ↦ elim (Bool-cases is_request) [
          | inr other ↦ absurd (let q : error s ≡ done tt s' = rw (known, other) at e in cc)
          | inl request ↦
              net.sent-write_all answer s s'
                (checked-done (write_all answer s) (rw (known, request) at e))
        ]
      ]
