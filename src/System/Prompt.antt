-- ===== src/System/Prompt.antt =====
-- A client of the running program (src/main.rs) that does not fall behind the channel.
use linux_bt_proxy.Prelude.{
  ℕ, ◌+◌, ◌-◌, ◌≤◌, ◌≡◌, refl, sym, ap, ◌∙◌, true, Bool-cases, ==_iff, inl, inr, none, some,
  Option-cases, List, [], ◌∷◌, ◌++◌, length, length-append, length-drop, drop, All-append, ◌==◌,
  arith,
}
use mathlib.Core.Path.{subst}
use linux_bt_proxy.Context.{ProxyContext}
use linux_bt_proxy.Proto.Frame.{BytesMut}
use linux_bt_proxy.Net.{Net}
use linux_bt_proxy.Broadcast.{Broadcast, Recv, value, lags, no_sender, waits}
use linux_bt_proxy.Api.Runtime.{Protobuf, of_option}
use linux_bt_proxy.Ble.{BleAdvertisement}
use linux_bt_proxy.Server.{Served, Event, read_bytes, read_error, handle_client}
use linux_bt_proxy.Server.Accept.{Arrival, at_client, accepting, get_elem?, events_of}
use linux_bt_proxy.System.{
  Happening, advertises, connects, accept_fails, reads, read_fails, receives, System, start, taken,
  arrival_of, chan_after, system_step, run_system, arrivals, sent_in, channel_capacity,
}
use linux_bt_proxy.System.Followed.{run_system-sent}
use linux_bt_proxy.System.Client.{
  joined, number, client_events, begun, client-task, client-taken, adverts_of, lags_not, IsUnlagged,
  Follows-unlagged,
}
use linux_bt_proxy.System.Taken.{events_at, events_at-own, events_at-other, events_of-append}

module _ (lib : BytesMut) (net : Net) (rt : Protobuf) (ctx : ProxyContext)
    (broadcast : Broadcast (BleAdvertisement rt)) where
  open broadcast use {Channel, Receiver, sent, position}

  abbrev Running : Type 0
  Running = System lib net rt ctx broadcast

  abbrev go : Running → List (Happening net rt) → Running
  go = run_system lib net rt ctx broadcast

  abbrev came : Running → List (Happening net rt) → List (Arrival net rt)
  came = arrivals lib net rt ctx broadcast

  -- How many of the advertisements sent the receiver of a client is not past.
  abbrev pub behind : ℕ → Running → ℕ
  behind k sys = elim (get_elem? sys.receivers k) [
    | none ↦ 0
    | some r ↦ length (sent sys.chan) - position r
  ]

  -- It is never behind more of them than `broadcast::channel(100)` holds.
  abbrev pub IsPrompt : ℕ → Running → List (Happening net rt) → Type 0
  IsPrompt k sys [] = Unit
  IsPrompt k sys (happening ∷ happenings) =
      (behind k sys ≤ channel_capacity)
      × IsPrompt k (system_step lib net rt ctx broadcast sys happening) happenings

  recv-IsUnlagged :
      (c : Channel) (r : Receiver) (given : Recv (BleAdvertisement rt) × Receiver)
      → broadcast.recv c r ≡ given
      → channel_capacity ≤ broadcast.capacity c
      → length (sent c) - position r ≤ channel_capacity
      → IsUnlagged (of_option (taken (given.0)))
  unfolding taken
  recv-IsUnlagged c r (value a, r') e large near = (refl, tt)
  recv-IsUnlagged c r (lags n, r') e large near =
      absurd (omega (arith, (broadcast.recv-lags c r r' n e).0))
  recv-IsUnlagged c r (no_sender, r') e large near = (refl, tt)
  recv-IsUnlagged c r (waits, r') e large near = tt

  reads-IsUnlagged :
      (j k : ℕ) (event : Event rt)
      → lags_not event ≡ true
      → (let arrivals : List (Arrival net rt) = at_client j event ∷ [] in
          IsUnlagged (events_of k arrivals))
  reads-IsUnlagged j k event h = elim (Bool-cases (j == k)) [
    | inl own ↦ rw own (h, tt)
    | inr other ↦ rw other tt
  ]

  own-IsUnlagged :
      (sys : Running) (k : ℕ)
      → channel_capacity ≤ broadcast.capacity sys.chan
      → behind k sys ≤ channel_capacity
      → IsUnlagged (events_at lib net rt ctx broadcast sys k k)
  unfolding events_at arrival_of
  own-IsUnlagged sys k large near = elim (Option-cases (get_elem? sys.receivers k)) [
    | inl gone ↦ rw (events_at, arrival_of, gone) tt
    | inr (r, there) ↦
        subst IsUnlagged (sym (events_at-own lib net rt ctx broadcast sys k r there)) (
          recv-IsUnlagged sys.chan r (broadcast.recv sys.chan r) refl large
            (rw (behind, there) at near))
  ]

  step-IsUnlagged :
      (sys : Running) (happening : Happening net rt) (k : ℕ)
      → channel_capacity ≤ broadcast.capacity sys.chan
      → behind k sys ≤ channel_capacity
      → IsUnlagged (events_of k (arrival_of lib net rt ctx broadcast sys happening))
  unfolding arrival_of events_at
  step-IsUnlagged sys (advertises a) k large near = tt
  step-IsUnlagged sys (connects s) k large near = tt
  step-IsUnlagged sys accept_fails k large near = tt
  step-IsUnlagged sys (reads j bytes) k large near = reads-IsUnlagged j k (read_bytes bytes) refl
  step-IsUnlagged sys (read_fails j) k large near = reads-IsUnlagged j k read_error refl
  step-IsUnlagged sys (receives j) k large near = elim (Bool-cases (j == k)) [
    | inl own ↦
        subst (λ i. IsUnlagged (events_at lib net rt ctx broadcast sys i k))
          (sym ((==_iff j k).0 own)) (own-IsUnlagged sys k large near)
    | inr other ↦ subst IsUnlagged (sym (events_at-other lib net rt ctx broadcast sys j k other)) tt
  ]

  capacity-chan_after :
      (sys : Running) (happening : Happening net rt)
      → broadcast.capacity (chan_after lib net rt ctx broadcast sys happening)
        ≡ broadcast.capacity sys.chan
  unfolding chan_after
  capacity-chan_after sys (advertises a) = broadcast.capacity-send a sys.chan
  capacity-chan_after sys (connects s) = refl
  capacity-chan_after sys accept_fails = refl
  capacity-chan_after sys (reads j bytes) = refl
  capacity-chan_after sys (read_fails j) = refl
  capacity-chan_after sys (receives j) = refl

  capacity-go :
      (sys : Running) (happenings : List (Happening net rt))
      → broadcast.capacity ((go sys happenings).chan) ≡ broadcast.capacity sys.chan
  unfolding run_system system_step
  capacity-go sys [] = refl
  capacity-go sys (happening ∷ happenings) =
      capacity-go (system_step lib net rt ctx broadcast sys happening) happenings
      ∙ capacity-chan_after sys happening

  came-IsUnlagged :
      (sys : Running) (happenings : List (Happening net rt)) (k : ℕ)
      → channel_capacity ≤ broadcast.capacity sys.chan
      → IsPrompt k sys happenings
      → IsUnlagged (events_of k (came sys happenings))
  unfolding arrivals system_step
  came-IsUnlagged sys [] k large prompt = tt
  came-IsUnlagged sys (happening ∷ happenings) k large (near, prompt) =
      let next : Running = system_step lib net rt ctx broadcast sys happening in
      let now = arrival_of lib net rt ctx broadcast sys happening in
      subst IsUnlagged (sym (events_of-append k now (came next happenings))) (
        All-append _ (events_of k now) (events_of k (came next happenings))
          (step-IsUnlagged sys happening k large near)
          (came-IsUnlagged next happenings k (omega (arith, capacity-chan_after sys happening))
            prompt))

  -- While connections are accepted, the task of a client is where `handle_client` would be with the
  -- client's events; and if the client's receiver is never more than a hundred behind, the advertisements
  -- among them are those that the listener has sent since the client connected, each once and in their
  -- order, up to those that its receiver is still behind: to all of them when it has caught up.
  pub run_system-prompt :
      (before after : List (Happening net rt)) (s : net.Stream) (tasks : List (Served net))
      → (go (begun lib net rt ctx broadcast) (before ++ connects s ∷ after)).tasks ≡ accepting tasks
      → IsPrompt
          (number lib net rt ctx broadcast before)
          (joined lib net rt ctx broadcast before s)
          after
      → (let events = client_events lib net rt ctx broadcast before s after in
          let now : Running = go (joined lib net rt ctx broadcast before s) after in
          (get_elem? tasks (number lib net rt ctx broadcast before)
            ≡ some (handle_client lib net rt ctx s events))
          × ((r : Receiver) × (to_come : List (BleAdvertisement rt)) × (get_elem? now.receivers
                  (number lib net rt ctx broadcast before)
                ≡ some r)
              × (adverts_of events ++ to_come ≡ sent_in after)
              × (position r + length to_come ≡ length (sent now.chan))))
  unfolding system_step chan_after start
  run_system-prompt before after s tasks e prompt =
      let (r, i, there, at_i, taken) = client-taken lib net rt ctx broadcast before after s in
      let events = client_events lib net rt ctx broadcast before s after in
      let sys : Running = go (begun lib net rt ctx broadcast) before in
      let large : channel_capacity ≤ broadcast.capacity sys.chan = omega (
        arith,
        capacity-go (begun lib net rt ctx broadcast) before,
        broadcast.capacity-channel channel_capacity,
      ) in
      let (all, below) =
        Follows-unlagged (sent_in after) 0 events i (omega arith)
          (came-IsUnlagged (joined lib net rt ctx broadcast before s) after
            (number lib net rt ctx broadcast before) large prompt)
          taken in
      (
        client-task lib net rt ctx broadcast before after s tasks e,
        (
          r,
          drop i (sent_in after),
          there,
          all,
          omega (
            arith,
            at_i,
            below,
            length-drop i (sent_in after),
            length-append (sent sys.chan) (sent_in after),
            ap length (
                run_system-sent lib net rt ctx broadcast (joined lib net rt ctx broadcast before s)
                  after),
          ),
        ),
      )
