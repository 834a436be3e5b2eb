-- ===== src/System/Client.antt =====
-- A client of the running program (src/main.rs): its task, and the advertisements that it takes.
use linux_bt_proxy.Prelude.{
  ℕ, zero, suc, ◌+◌, ◌≤◌, ◌<◌, ◌≡◌, refl, sym, ap, ◌∙◌, Bool, true, false, some, List, [], ◌∷◌,
  ◌++◌, length, drop, All, arith,
}
use mathlib.Core.Path.{subst}
use linux_bt_proxy.Context.{ProxyContext}
use linux_bt_proxy.Proto.Frame.{BytesMut}
use linux_bt_proxy.Net.{Net}
use linux_bt_proxy.Broadcast.{Broadcast}
use linux_bt_proxy.Api.Runtime.{Protobuf}
use linux_bt_proxy.Ble.{BleAdvertisement}
use linux_bt_proxy.Server.{
  Served, Event, read_bytes, read_error, advert, lagged, channel_closed, handle_client,
}
use linux_bt_proxy.Server.Accept.{
  Arrival, accepting, get_elem?, events_of, connections, run_tcp_server,
}
use linux_bt_proxy.Server.Accept.Alone.{get_elem-new, run_tcp_server-alone}
use linux_bt_proxy.System.{
  Happening, connects, System, start, taken, arrival_of, receivers_after, chan_after, system_step,
  run_system, arrivals, sent_in,
}
use linux_bt_proxy.System.Connected.{run_system-tasks, came-append, length-receivers}
use linux_bt_proxy.System.Followed.{run_system-Follows}
use linux_bt_proxy.System.Taken.{Follows}

-- The same from where the client has subscribed.
Follows-shift :
    {rt : Protobuf} (before later : List (BleAdvertisement rt)) (i : ℕ) (events : List (Event rt))
    (p' : ℕ)
    → Follows (before ++ later) (length before + i) events p'
    → (i' : ℕ) × (p' ≡ length before + i') × Follows later i events i'
Follows-shift before later i [] p' h = (i, h, refl)
Follows-shift before later i (advert a ∷ events) p' (here, h) =
    let (i', e, follows) =
      Follows-shift before later (suc i) events p'
        (subst (λ n. Follows (before ++ later) n events p') (omega arith) h) in
    (i', e, (get_elem-back before later i ∙ here, follows))
  where
    get_elem-back :
        {A : Type 0} (xs ys : List A) (i : ℕ)
        → get_elem? ys i ≡ get_elem? (xs ++ ys) (length xs + i)
    get_elem-back [] ys i = ap (get_elem? ys) (omega arith)
    get_elem-back (x ∷ xs) ys i =
        get_elem-back xs ys i
        ∙ ap (λ n. get_elem? (x ∷ (xs ++ ys)) n)
            (let e : suc (length xs + i) ≡ suc (length xs) + i = omega arith in e)
Follows-shift before later i (lagged n ∷ events) p' h =
    Follows-shift before later (i + n) events p'
      (subst (λ n. Follows (before ++ later) n events p') (omega arith) h)
Follows-shift before later i (read_bytes bytes ∷ events) p' h =
    Follows-shift before later i events p' h
Follows-shift before later i (read_error ∷ events) p' h = Follows-shift before later i events p' h
Follows-shift before later i (channel_closed ∷ events) p' h =
    Follows-shift before later i events p' h

-- The advertisements that a client takes.
abbrev pub adverts_of : {rt : Protobuf} → List (Event rt) → List (BleAdvertisement rt)
adverts_of [] = []
adverts_of (advert a ∷ events) = a ∷ adverts_of events
adverts_of (lagged n ∷ events) = adverts_of events
adverts_of (read_bytes bytes ∷ events) = adverts_of events
adverts_of (read_error ∷ events) = adverts_of events
adverts_of (channel_closed ∷ events) = adverts_of events

abbrev pub lags_not : {rt : Protobuf} → Event rt → Bool
lags_not (advert a) = true
lags_not (lagged n) = false
lags_not (read_bytes bytes) = true
lags_not read_error = true
lags_not channel_closed = true

abbrev pub IsUnlagged : {rt : Protobuf} → List (Event rt) → Type 0
IsUnlagged events = All (λ e. lags_not e ≡ true) events

drop-get_elem :
    {A : Type 0} (xs : List A) (i : ℕ) {a : A}
    → get_elem? xs i ≡ some a
    → (drop i xs ≡ a ∷ drop (suc i) xs) × (i < length xs)
drop-get_elem [] i e = cc
drop-get_elem (x ∷ xs) zero e = (cc, omega arith)
drop-get_elem (x ∷ xs) (suc i) e =
    let (dropped, below) = drop-get_elem xs i e in (dropped, omega (arith, below))

-- Without a lag nothing is skipped.
pub Follows-unlagged :
    {rt : Protobuf} (all : List (BleAdvertisement rt)) (i : ℕ) (events : List (Event rt)) (i' : ℕ)
    → i ≤ length all
    → IsUnlagged events
    → Follows all i events i'
    → (adverts_of events ++ drop i' all ≡ drop i all) × (i' ≤ length all)
Follows-unlagged all i [] i' le u h = (ap (λ n. drop n all) h, omega (arith, h))
Follows-unlagged all i (advert a ∷ events) i' le (_, u) (here, h) =
    let (dropped, below) = drop-get_elem all i here in
    let (rest, end) = Follows-unlagged all (suc i) events i' (omega (arith, below)) u h in
    (ap (λ (l : List _). a ∷ l) rest ∙ sym dropped, end)
Follows-unlagged all i (lagged n ∷ events) i' le (lag, u) h = cc
Follows-unlagged all i (read_bytes bytes ∷ events) i' le (_, u) h =
    Follows-unlagged all i events i' le u h
Follows-unlagged all i (read_error ∷ events) i' le (_, u) h =
    Follows-unlagged all i events i' le u h
Follows-unlagged all i (channel_closed ∷ events) i' le (_, u) h =
    Follows-unlagged all i events i' le u h

module _ (lib : BytesMut) (net : Net) (rt : Protobuf) (ctx : ProxyContext)
    (broadcast : Broadcast (BleAdvertisement rt)) where
  open broadcast use {Channel, Receiver, sent, position}

  abbrev Running : Type 0
  Running = System lib net rt ctx broadcast

  abbrev go : Running → List (Happening net rt) → Running
  go = run_system lib net rt ctx broadcast

  abbrev came : Running → List (Happening net rt) → List (Arrival net rt)
  came = arrivals lib net rt ctx broadcast

  abbrev pub begun : Running
  begun = start lib net rt ctx broadcast

  -- The program when a client has connected, the client's number, and its events from then on.
  abbrev pub joined : List (Happening net rt) → net.Stream → Running
  joined before s = system_step lib net rt ctx broadcast (go begun before) (connects s)

  abbrev pub number : List (Happening net rt) → ℕ
  number before = connections (came begun before)

  abbrev pub client_events :
      List (Happening net rt) → net.Stream → List (Happening net rt) → List (Event rt)
  client_events before s after = events_of (number before) (came (joined before s) after)

  module _ (before after : List (Happening net rt)) (s : net.Stream) where
    pub client-task :
        (tasks : List _)
        → (go begun (before ++ connects s ∷ after)).tasks ≡ accepting tasks
        → get_elem? tasks (number before)
          ≡ some (handle_client lib net rt ctx s (client_events before s after))
    unfolding start arrivals arrival_of
    client-task tasks e =
        run_tcp_server-alone lib net rt ctx (came begun before) (came (joined before s) after) s
          tasks
          (ap (run_tcp_server lib net rt ctx (accepting []))
              (sym ((came-append lib net rt ctx broadcast begun before (connects s ∷ after)).1))
            ∙ sym (run_system-tasks lib net rt ctx broadcast begun (before ++ connects s ∷ after))
            ∙ e)

    client-receiver :
        get_elem? ((joined before s).receivers) (number before)
        ≡ some (broadcast.resubscribe ((go begun before).chan) ((go begun before).rx))
    unfolding start system_step receivers_after
    client-receiver =
        let receivers = (go begun before).receivers in
        let new = broadcast.resubscribe ((go begun before).chan) ((go begun before).rx) in
        let last : length receivers ≡ number before =
          omega (arith, length-receivers lib net rt ctx broadcast begun before) in
        ap (λ k. get_elem? (receivers ++ new ∷ []) k) (sym last) ∙ get_elem-new receivers new

    pub client-taken :
        (r' : Receiver) × (i : ℕ) × (get_elem?
            ((go (joined before s) after).receivers)
            (number before)
          ≡ some r')
        × (position r' ≡ length (sent ((go begun before).chan)) + i)
        × Follows (sent_in after) 0 (client_events before s after) i
    unfolding system_step chan_after
    client-taken =
        let earlier = sent ((go begun before).chan) in
        let r = broadcast.resubscribe ((go begun before).chan) ((go begun before).rx) in
        let (r', there, follows) =
          run_system-Follows lib net rt ctx broadcast (joined before s) after (number before) r
            client-receiver in
        let at_end : position r ≡ length earlier + 0 =
          omega (
            arith,
            broadcast.position-resubscribe ((go begun before).chan) ((go begun before).rx),
          ) in
        let (i, e, taken) =
          Follows-shift earlier (sent_in after) 0 (client_events before s after) (position r') (
            subst
              (λ n.
                Follows (earlier ++ sent_in after) n (client_events before s after) (position r'))
              at_end follows) in
        (r', i, there, e, taken)

    -- While connections are accepted, the task of a client is where `handle_client` would be with the
    -- client's events, and these follow what the listener has sent since the client connected, from its
    -- first advertisement on: each advertisement taken is the next one, and a lag skips as many as it says.
    pub run_system-client :
        (tasks : List (Served net))
        → (go begun (before ++ connects s ∷ after)).tasks ≡ accepting tasks
        → (get_elem? tasks (number before)
            ≡ some (handle_client lib net rt ctx s (client_events before s after)))
          × ((i : ℕ) × Follows (sent_in after) 0 (client_events before s after) i)
    run_system-client tasks e =
        let (_, i, _, _, taken) = client-taken in (client-task tasks e, (i, taken))
