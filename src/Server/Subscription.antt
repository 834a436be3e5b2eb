-- ===== src/Server/Subscription.antt =====
-- The subscription flags in `handle_client` (src/server.rs), over any course of events.
use linux_bt_proxy.Prelude.{
  ℕ, zero, suc, ◌≡◌, refl, false, ◌&&◌, Option, none, some, [], ◌∷◌, ◌++◌, Bytes, length, inl, inr,
  if_holds, ◌==◌, arith,
}
use linux_bt_proxy.Prelude.Outcome.{Outcome-cases}
use linux_bt_proxy.Context.{ProxyContext}
use linux_bt_proxy.Net.{
  Net, info, warn, Answer, Answer-cases, done, error, ◌>>=◌, or_error, log_peer,
}
use linux_bt_proxy.Proto.Frame.{BytesMut, next_message}
use linux_bt_proxy.Api.Runtime.{Protobuf}
use linux_bt_proxy.Api.SubscribeBluetoothLeAdvertisementsRequest
use linux_bt_proxy.Handlers.{
  SubscriptionFlags, no_flags, from_flags, parsed, subscribe_bluetooth_le_advertisements_request,
}
use linux_bt_proxy.Handlers.Flags.{from_flags_lem}
use linux_bt_proxy.Server.{
  Event, read_bytes, read_error, advert, lagged, channel_closed, Client, Served, serving, closed,
  failed, panicked, stuck, keeping, recovered, dispatch, drain, answered, forward, step,
}

-- At most one kind of advertisement is asked for.
abbrev pub IsExclusive : SubscriptionFlags → Type 0
IsExclusive flags = (flags.raw && flags.regular) ≡ false

from_flags-IsExclusive : (flags : ℕ) → IsExclusive (from_flags flags)
from_flags-IsExclusive flags =
    let (raw, regular) = from_flags_lem flags in rw (raw, regular) (ground arith)

-- What a handler leaves the flags as, if it returns.
Keeps : {S : Type 0} → Answer S SubscriptionFlags → Type 0
Keeps (done flags s) = IsExclusive flags
Keeps (error s) = Unit

keeping-Keeps :
    {S : Type 0} (flags : SubscriptionFlags) (a : Answer S Unit)
    → IsExclusive flags
    → Keeps (keeping flags a)
unfolding Keeps
keeping-Keeps flags (done _ s) h = h
keeping-Keeps flags (error s) h = tt

-- As `Keeps`, for the loop.
KeepsServed : {net : Net} → Served net → Type 0
KeepsServed (serving c) = IsExclusive c.subscription_flags
KeepsServed (closed s) = Unit
KeepsServed (failed s) = Unit
KeepsServed panicked = Unit
KeepsServed stuck = Unit

module _ (lib : BytesMut) (net : Net) (rt : Protobuf) (ctx : ProxyContext) where
  open net use {Stream}

  subscribed-Keeps :
      (flags : SubscriptionFlags) (heard : Answer Stream Unit)
      (req : Option
        (SubscribeBluetoothLeAdvertisementsRequest.SubscribeBluetoothLeAdvertisementsRequest rt))
      → IsExclusive flags
      → Keeps (
          recovered flags
            (heard >>= λ r. or_error (r.1) req >>= λ q. done (from_flags ((q.0).flags)) (q.1)))
  unfolding Keeps
  subscribed-Keeps flags (error s) req h = h
  subscribed-Keeps flags (done _ s) none h = h
  subscribed-Keeps flags (done _ s) (some req) h = from_flags-IsExclusive req.flags

  dispatch-Keeps :
      (flags : SubscriptionFlags) (s : Stream) (msg_type : ℕ) (payload : Bytes)
      → IsExclusive flags
      → Keeps (dispatch lib net rt ctx flags s msg_type payload)
  unfolding dispatch subscribe_bluetooth_le_advertisements_request no_flags Keeps
  dispatch-Keeps flags s msg_type payload h =
      if_holds Keeps (msg_type == 1) _ _ (keeping-Keeps flags _ h) (
        if_holds Keeps (msg_type == 3) _ _ (keeping-Keeps flags _ h) (
          if_holds Keeps (msg_type == 5) _ _ (keeping-Keeps flags _ h) (
            if_holds Keeps (msg_type == 7) _ _ (keeping-Keeps flags _ h) (
              if_holds Keeps (msg_type == 9) _ _ (keeping-Keeps flags _ h) (
                if_holds Keeps (msg_type == 11) _ _ (keeping-Keeps flags _ h) (
                  if_holds Keeps (msg_type == 66) _ _
                    (subscribed-Keeps flags (log_peer net info s)
                      (parsed (SubscribeBluetoothLeAdvertisementsRequest.parse rt payload)) h)
                    (if_holds Keeps (msg_type == 80) _ _ (keeping-Keeps flags _ h) (
                      if_holds Keeps (msg_type == 87) (done no_flags s) _ refl
                        (keeping-Keeps flags (log_peer net warn s) h)))))))))

  drain-Keeps :
      (rounds : ℕ) (c : Client net)
      → IsExclusive c.subscription_flags
      → KeepsServed (drain lib net rt ctx rounds c)
  unfolding drain KeepsServed Keeps
  drain-Keeps zero c h = tt
  drain-Keeps (suc rounds) c h = elim (Outcome-cases (next_message lib c.buf)) [
    | inl e ↦ rw (drain, e) tt
    | inr ((none, rest), e) ↦ rw (drain, e) h
    | inr ((some (msg_type, payload), rest), e) ↦
        elim (Answer-cases
          (dispatch lib net rt ctx c.subscription_flags c.stream msg_type payload)) [
            | inl (s, d) ↦ rw (drain, e, d) tt
            | inr (flags, s, d) ↦
                let kept = dispatch-Keeps c.subscription_flags c.stream msg_type payload h in
                rw (drain, e, d)
                  (drain-Keeps rounds
                    (record { buf = rest; subscription_flags = flags; stream = s }) (rw d at kept))
          ]
  ]

  answered-Keeps :
      (c : Client net) (a : Answer Stream Unit)
      → IsExclusive c.subscription_flags
      → KeepsServed (answered lib net rt ctx c a)
  unfolding KeepsServed
  answered-Keeps c (done _ s) h = h
  answered-Keeps c (error s) h = tt

  step-Keeps :
      (c : Client net) (event : Event rt)
      → IsExclusive c.subscription_flags
      → KeepsServed (step lib net rt ctx c event)
  unfolding step forward KeepsServed
  step-Keeps c (read_bytes []) h = tt
  step-Keeps c (read_bytes (byte ∷ bytes)) h =
      drain-Keeps (suc (length (c.buf ++ byte ∷ bytes))) (record c { buf = c.buf ++ byte ∷ bytes })
        h
  step-Keeps c read_error h = tt
  step-Keeps c (advert a) h =
      if_holds KeepsServed c.subscription_flags.raw _ _ (answered-Keeps c _ h)
        (if_holds KeepsServed c.subscription_flags.regular _ _ (answered-Keeps c _ h) h)
  step-Keeps c (lagged n) h = h
  step-Keeps c channel_closed h = tt

  -- The states that the loop of `handle_client` can be in, from a new connection on.
  pub data Reachable : Client net → Type 0 where
    connected :
        (s : Stream) → Reachable (record { buf = []; subscription_flags = no_flags; stream = s })
    stepped :
        {c c' : Client net} (event : Event rt)
        → Reachable c
        → step lib net rt ctx c event ≡ serving c'
        → Reachable c'

  -- A client is never subscribed to both kinds of advertisement at once, whatever it has sent and
  -- whatever has come of the channel.
  pub Reachable-IsExclusive : {c : Client net} → Reachable c → IsExclusive c.subscription_flags
  unfolding KeepsServed no_flags
  Reachable-IsExclusive (connected s) = refl
  Reachable-IsExclusive (stepped {c} event before e) =
      let kept = step-Keeps c event (Reachable-IsExclusive before) in rw e at kept
