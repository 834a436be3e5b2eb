-- ===== src/Server/Buffer.antt =====
-- The receive buffer of `handle_client` (src/server.rs), over any course of events.
use mathlib.Core.Path.{subst}
use linux_bt_proxy.Prelude.{
  ℕ, zero, suc, ◌≤◌, ◌<◌, ◌≡◌, ◌≢◌, refl, sym, ap, ◌∙◌, List, [], ◌∷◌, ◌++◌, append-nil,
  append_assoc, Bytes, IsByte, All-left, All-right, length, length-append, inl, inr, arith,
  if_holds,
}
use linux_bt_proxy.Context.{ProxyContext}
use linux_bt_proxy.Proto.Frame.{BytesMut, next_message}
use linux_bt_proxy.Proto.Frame.Progress.{next_message-Leaves}
use linux_bt_proxy.Net.{Net, Answer, Answer-cases, done, error}
use linux_bt_proxy.Api.Runtime.{Protobuf}
use linux_bt_proxy.Ble.{BleAdvertisement}
use linux_bt_proxy.Handlers.{no_flags}
use linux_bt_proxy.Server.{
  Event, read_bytes, read_error, advert, lagged, channel_closed, Client, Served, serving, closed,
  failed, panicked, stuck, dispatch, drain, answered, forward, step, run, handle_client,
}
use linux_bt_proxy.Server.Total.{IsBuffer, IsBack, Leaves-cases}

-- The bytes that an event brings, and those of a course of events.
abbrev pub brought : {rt : Protobuf} → Event rt → Bytes
brought (read_bytes bytes) = bytes
brought read_error = []
brought (advert a) = []
brought (lagged n) = []
brought channel_closed = []

abbrev pub arrived : {rt : Protobuf} → List (Event rt) → Bytes
arrived [] = []
arrived (event ∷ events) = brought event ++ arrived events

IsBack-refl : (b : Bytes) → IsBack b b
IsBack-refl b = ([], refl)

IsBack-trans : (a b c : Bytes) → IsBack a b → IsBack b c → IsBack a c
IsBack-trans a b c (x, e) (y, f) =
    (y ++ x, f ∙ ap (λ (t : Bytes). y ++ t) e ∙ sym (append_assoc y x a))

IsBack-append : (a b more : Bytes) → IsBack a b → IsBack (a ++ more) (b ++ more)
IsBack-append a b more (x, e) = (x, ap (λ (t : Bytes). t ++ more) e ∙ append_assoc x a more)

back_IsBuffer :
    (back whole more : Bytes) → IsBack back whole → IsBuffer (whole ++ more) → IsBuffer back
back_IsBuffer back whole more (front, e) (bytes, fits) = (
  All-right IsByte front back (rw e at (All-left IsByte whole more bytes)),
  omega (arith, ap length e, length-append front back, length-append whole more),
)

-- How the rounds of a loop leave the buffer `whole`: shorter at the front, if the loop goes on; and
-- the model's rounds always suffice.
Leaving : {net : Net} → Bytes → Served net → Type 0
Leaving whole (serving c) = IsBack c.buf whole
Leaving whole (closed s) = Unit
Leaving whole (failed s) = Unit
Leaving whole panicked = Unit
Leaving whole stuck = ⊥

Leaving-trans :
    {net : Net} (part whole : Bytes) (served : Served net)
    → IsBack part whole
    → Leaving part served
    → Leaving whole served
unfolding Leaving
Leaving-trans part whole (serving c) b l = IsBack-trans c.buf part whole l b
Leaving-trans part whole (closed s) b l = tt
Leaving-trans part whole (failed s) b l = tt
Leaving-trans part whole panicked b l = tt
Leaving-trans part whole stuck b l = l

module _ (lib : BytesMut) (net : Net) (rt : Protobuf) (ctx : ProxyContext) where
  open net use {Stream}

  drain-Leaving :
      (rounds : ℕ) (c : Client net)
      → IsBuffer c.buf
      → length c.buf < rounds
      → Leaving c.buf (drain lib net rt ctx rounds c)
  unfolding drain Leaving
  drain-Leaving zero c b lo = absurd (omega arith)
  drain-Leaving (suc rounds) c b lo =
      elim (Leaves-cases c.buf (next_message lib c.buf) b
        (next_message-Leaves lib c.buf (b.0) (b.1))) [
          | inl e ↦ rw (drain, e) tt
          | inr (inl e) ↦ rw (drain, e) (IsBack-refl c.buf)
          | inr (inr (msg_type, payload, rest, e, b', less, back)) ↦
              elim (Answer-cases
                (dispatch lib net rt ctx c.subscription_flags c.stream msg_type payload)) [
                  | inl (s, d) ↦ rw (drain, e, d) tt
                  | inr (flags, s, d) ↦
                      rw (drain, e, d)
                        (Leaving-trans rest c.buf _ back (
                          drain-Leaving rounds
                            (record { buf = rest; subscription_flags = flags; stream = s }) b'
                            (omega arith)))
                ]
        ]

  answered-Leaving :
      (c : Client net) (a : Answer Stream Unit) → Leaving c.buf (answered lib net rt ctx c a)
  unfolding Leaving
  answered-Leaving c (done _ s) = IsBack-refl c.buf
  answered-Leaving c (error s) = tt

  forward-Leaving :
      (c : Client net) (a : BleAdvertisement rt) → Leaving c.buf (forward lib net rt ctx c a)
  unfolding forward Leaving
  forward-Leaving c a =
      if_holds (Leaving c.buf) c.subscription_flags.raw _ _ (answered-Leaving c _) (
        if_holds (Leaving c.buf) c.subscription_flags.regular _ _ (answered-Leaving c _)
          (IsBack-refl c.buf))

  step-Leaving :
      (c : Client net) (event : Event rt)
      → IsBuffer (c.buf ++ brought event)
      → Leaving (c.buf ++ brought event) (step lib net rt ctx c event)
  unfolding step Leaving
  step-Leaving c (read_bytes []) b = tt
  step-Leaving c (read_bytes (byte ∷ bytes)) b =
      drain-Leaving (suc (length (c.buf ++ byte ∷ bytes)))
        (record c { buf = c.buf ++ byte ∷ bytes }) b (omega arith)
  step-Leaving c read_error b = tt
  step-Leaving c (advert a) b = rw (append-nil c.buf) (forward-Leaving c a)
  step-Leaving c (lagged n) b = rw (append-nil c.buf) (IsBack-refl c.buf)
  step-Leaving c channel_closed b = tt

  run-Leaving :
      (whole : Bytes) (served : Served net) (events : List (Event rt))
      → Leaving whole served
      → IsBuffer (whole ++ arrived events)
      → Leaving (whole ++ arrived events) (run lib net rt ctx served events)
  unfolding run Leaving
  run-Leaving whole served [] l b = rw (append-nil whole) l
  run-Leaving whole (serving c) (event ∷ events) l b =
      subst (λ w. Leaving w (run lib net rt ctx (step lib net rt ctx c event) events)) joined
        (run-Leaving (whole ++ brought event) (step lib net rt ctx c event) events
          (Leaving-trans (c.buf ++ brought event) (whole ++ brought event) _
            (IsBack-append c.buf whole (brought event) l)
            (step-Leaving c event (
              back_IsBuffer (c.buf ++ brought event) (whole ++ brought event) (arrived events)
                (IsBack-append c.buf whole (brought event) l) (subst IsBuffer (sym joined) b))))
          (subst IsBuffer (sym joined) b))
    where
      joined :
          (whole ++ brought event) ++ arrived events ≡ whole ++ (brought event ++ arrived events)
      joined = append_assoc whole (brought event) (arrived events)
  run-Leaving whole (closed s) (event ∷ events) l b = tt
  run-Leaving whole (failed s) (event ∷ events) l b = tt
  run-Leaving whole panicked (event ∷ events) l b = tt
  run-Leaving whole stuck (event ∷ events) l b = l

  handle_client-Leaving :
      (s : Stream) (events : List (Event rt))
      → IsBuffer (arrived events)
      → Leaving (arrived events) (handle_client lib net rt ctx s events)
  unfolding handle_client Leaving
  handle_client-Leaving s events b =
      run-Leaving [] (serving (record { buf = []; subscription_flags = no_flags; stream = s }))
        events (IsBack-refl []) b

  -- The loop never hangs on what it has received: whatever bytes have come in whatever reads, fewer
  -- than 2 ^ 63 in all, and whatever has come of the channel between them, its rounds suffice.
  pub handle_client-ne-stuck :
      (s : Stream) (events : List (Event rt))
      → IsBuffer (arrived events)
      → handle_client lib net rt ctx s events ≢ stuck
  unfolding Leaving
  handle_client-ne-stuck s events b e = let l = handle_client-Leaving s events b in rw e at l

  -- The buffer never holds more than has arrived: it is the end of it, so no byte is kept twice or
  -- made up, and its length is bounded by what the peer has sent, if that is fewer than 2 ^ 63 bytes.
  pub handle_client-IsBack :
      (s : Stream) (events : List (Event rt)) (c : Client net)
      → IsBuffer (arrived events)
      → handle_client lib net rt ctx s events ≡ serving c
      → IsBack c.buf (arrived events) × (length c.buf ≤ length (arrived events))
  unfolding Leaving
  handle_client-IsBack s events c b e =
      let l : Leaving (arrived events) (serving c) =
        (let l' = handle_client-Leaving s events b in rw e at l') in
      (l, omega (arith, ap length (l.1), length-append (l.0) c.buf))
