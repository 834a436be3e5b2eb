-- ===== src/Server/Drain.antt =====
-- The inner loop of `handle_client` (src/server.rs) on a buffer of whole frames.
use linux_bt_proxy.Prelude.{
  ℕ, zero, suc, ◌+◌, ◌^◌, ◌<◌, ◌≡◌, refl, sym, ap, ◌∙◌, none, some, List, [], ◌∷◌, ◌++◌,
  append_assoc, Bytes, IsByte, IsBytes, All, All-append, length, length-append, inl, inr, arith,
}
use mathlib.Core.Path.{subst}
use linux_bt_proxy.Prelude.Outcome.{returns}
use linux_bt_proxy.Context.{ProxyContext}
use linux_bt_proxy.Proto.Varint.{encode_varint}
use linux_bt_proxy.Proto.Varint.Encode.{encode_varint-IsBytes}
use linux_bt_proxy.Proto.Frame.{BytesMut, next_message, frame, frame_header}
use linux_bt_proxy.Proto.Frame.Whole.{next_message-frame}
use linux_bt_proxy.Net.{Net, Answer, Answer-cases, done, error, ◌>>=◌}
use linux_bt_proxy.Api.Runtime.{Protobuf}
use linux_bt_proxy.Handlers.{SubscriptionFlags}
use linux_bt_proxy.Server.Total.{IsBuffer, drain-rounds}
use linux_bt_proxy.Server.{Served, serving, failed, dispatch, drain}

-- A message as `next_message` gives it: its type and its payload.
abbrev pub Parcel : Type 0
Parcel = ℕ × Bytes

abbrev pub IsParcel : Parcel → Type 0
IsParcel (msg_type, payload) = (msg_type < 2 ^ 32) × IsBytes payload

abbrev pub frames : List Parcel → Bytes
frames [] = []
frames ((msg_type, payload) ∷ parcels) = frame msg_type payload ++ frames parcels

pub frame-IsBytes :
    (msg_type : ℕ) (payload : Bytes) → IsBytes payload → IsBytes (frame msg_type payload)
frame-IsBytes msg_type payload bytes =
    All-append IsByte (frame_header msg_type (length payload)) payload
      (
        omega arith,
        All-append IsByte (encode_varint (length payload)) (encode_varint msg_type)
            (encode_varint-IsBytes (length payload)) (encode_varint-IsBytes msg_type),
      )
      bytes

pub frames-IsBytes : (parcels : List Parcel) → All IsParcel parcels → IsBytes (frames parcels)
frames-IsBytes [] h = tt
frames-IsBytes ((msg_type, payload) ∷ parcels) (h, hs) =
    All-append IsByte (frame msg_type payload) (frames parcels)
      (frame-IsBytes msg_type payload (h.1)) (frames-IsBytes parcels hs)

module _ (lib : BytesMut) (net : Net) (rt : Protobuf) (ctx : ProxyContext) where
  open net use {Stream}

  -- The messages are dispatched in turn, up to the first handler that fails.
  abbrev pub dispatch_all :
      SubscriptionFlags → Stream → List Parcel → Answer Stream SubscriptionFlags
  dispatch_all flags s [] = done flags s
  dispatch_all flags s ((msg_type, payload) ∷ parcels) =
      dispatch lib net rt ctx flags s msg_type payload >>= λ r. dispatch_all (r.0) (r.1) parcels

  abbrev pub with_buffer : Bytes → Answer Stream SubscriptionFlags → Served net
  with_buffer buf (done flags s) =
      serving (record { buf = buf; subscription_flags = flags; stream = s })
  with_buffer buf (error s) = failed s

  -- The loop goes on with a buffer, behind the messages that were dispatched.
  abbrev pub drain_on : Bytes → Answer Stream SubscriptionFlags → Served net
  drain_on buf (done flags s) =
      drain lib net rt ctx (suc (length buf))
        (record { buf = buf; subscription_flags = flags; stream = s })
  drain_on buf (error s) = failed s

  -- The frames at the front of a buffer are dispatched in turn, whatever follows them.
  pub drain-front :
      (parcels : List Parcel) (rest : Bytes) (rounds : ℕ) (flags : SubscriptionFlags) (s : Stream)
      → All IsParcel parcels
      → IsBuffer (frames parcels ++ rest)
      → IsBytes rest
      → length (frames parcels ++ rest) < rounds
      → drain lib net rt ctx rounds
          (record { buf = frames parcels ++ rest; subscription_flags = flags; stream = s })
        ≡ drain_on rest (dispatch_all flags s parcels)
  unfolding drain
  drain-front parcels rest zero flags s h b bytes enough = absurd (omega arith)
  drain-front [] rest (suc rounds) flags s h b bytes enough =
      (drain-rounds lib net rt ctx (suc rounds) (suc (length rest))
        (record { buf = rest; subscription_flags = flags; stream = s }) b enough (omega arith)).0
  drain-front ((msg_type, payload) ∷ parcels) rest (suc rounds) flags s (h, hs) b bytes enough =
      elim (Answer-cases (dispatch lib net rt ctx flags s msg_type payload)) [
        | inl (s', e) ↦ rw (drain, split_off, e, ◌>>=◌) refl
        | inr (flags', s', e) ↦
            rw (drain, split_off, e, ◌>>=◌)
              (drain-front parcels rest rounds flags' s' hs (more_bytes, omega (arith, sizes, b.1))
                bytes (omega (arith, sizes)))
      ]
    where
      more_bytes : IsBytes (frames parcels ++ rest)
      more_bytes = All-append IsByte (frames parcels) rest (frames-IsBytes parcels hs) bytes

      sizes :
          (length payload + length (frames parcels ++ rest)
            < length (frames ((msg_type, payload) ∷ parcels) ++ rest))
      sizes =
          subst (λ b. length payload + length (frames parcels ++ rest) < length b)
            (sym (append_assoc (frame msg_type payload) (frames parcels) rest))
            (omega (
              arith,
              length-append (frame msg_type payload) (frames parcels ++ rest),
              length-append (frame_header msg_type (length payload)) payload,
            ))

      split_off :
          next_message lib (frames ((msg_type, payload) ∷ parcels) ++ rest)
          ≡ returns (some (msg_type, payload), frames parcels ++ rest)
      split_off =
          ap (next_message lib) (append_assoc (frame msg_type payload) (frames parcels) rest)
          ∙ next_message-frame lib msg_type payload (frames parcels ++ rest) (h.0)
              (omega (arith, sizes, b.1)) (h.1) more_bytes

  pub drain_on-waits :
      (tail : Bytes) (answer : Answer Stream SubscriptionFlags)
      → next_message lib tail ≡ returns (none, tail)
      → drain_on tail answer ≡ with_buffer tail answer
  unfolding drain
  drain_on-waits tail (done flags s) last = rw (drain, last) refl
  drain_on-waits tail (error s) last = refl

  -- A whole read: the frames that have arrived are dispatched in their order, each exactly once, and
  -- what follows them, if it holds no message yet, stays in the buffer. The types are
  -- `u32`, and the buffer holds bytes, fewer than 2 ^ 63.
  pub drain-frames :
      (parcels : List Parcel) (tail : Bytes) (flags : SubscriptionFlags) (s : Stream)
      → All IsParcel parcels
      → IsBuffer (frames parcels ++ tail)
      → IsBytes tail
      → next_message lib tail ≡ returns (none, tail)
      → drain lib net rt ctx
          (suc (length (frames parcels ++ tail)))
          (record { buf = frames parcels ++ tail; subscription_flags = flags; stream = s })
        ≡ with_buffer tail (dispatch_all flags s parcels)
  unfolding drain
  drain-frames parcels tail flags s h b bytes last =
      drain-front parcels tail (suc (length (frames parcels ++ tail))) flags s h b bytes
        (omega arith)
      ∙ drain_on-waits tail (dispatch_all flags s parcels) last
