-- ===== src/System/Followed.antt =====
-- What is sent over the channel while the program runs (src/main.rs), and the events of a client.
use linux_bt_proxy.Prelude.{
  ℕ, ◌≡◌, refl, sym, ap, ◌∙◌, some, List, [], ◌∷◌, ◌++◌, append_assoc, append-nil,
}
use mathlib.Core.Path.{subst}
use linux_bt_proxy.Context.{ProxyContext}
use linux_bt_proxy.Proto.Frame.{BytesMut}
use linux_bt_proxy.Net.{Net}
use linux_bt_proxy.Broadcast.{Broadcast}
use linux_bt_proxy.Api.Runtime.{Protobuf}
use linux_bt_proxy.Ble.{BleAdvertisement}
use linux_bt_proxy.Server.Accept.{get_elem?, events_of}
use linux_bt_proxy.System.{
  Happening, advertises, connects, accept_fails, reads, read_fails, receives, System, arrival_of,
  chan_after, system_step, run_system, arrivals, sent_by, sent_in,
}
use linux_bt_proxy.System.Taken.{Follows, events_of-append, step-Stepped}

module _ (lib : BytesMut) (net : Net) (rt : Protobuf) (ctx : ProxyContext)
    (broadcast : Broadcast (BleAdvertisement rt)) where
  open broadcast use {Channel, Receiver, recv, sent, position}

  abbrev Running : Type 0
  Running = System lib net rt ctx broadcast

  -- What the channel has been sent.
  pub chan_after-sent :
      (sys : Running) (happening : Happening net rt)
      → sent (chan_after lib net rt ctx broadcast sys happening)
        ≡ sent sys.chan ++ sent_by happening
  unfolding chan_after
  chan_after-sent sys (advertises a) = broadcast.sent-send a sys.chan
  chan_after-sent sys (connects s) = sym (append-nil (sent sys.chan))
  chan_after-sent sys accept_fails = sym (append-nil (sent sys.chan))
  chan_after-sent sys (reads j bytes) = sym (append-nil (sent sys.chan))
  chan_after-sent sys (read_fails j) = sym (append-nil (sent sys.chan))
  chan_after-sent sys (receives j) = sym (append-nil (sent sys.chan))

  next_sent :
      (sys : Running) (happening : Happening net rt) (later : List (BleAdvertisement rt))
      → sent (chan_after lib net rt ctx broadcast sys happening) ++ later
        ≡ sent sys.chan ++ (sent_by happening ++ later)
  next_sent sys happening later =
      ap (λ (l : List (BleAdvertisement rt)). l ++ later) (chan_after-sent sys happening)
      ∙ append_assoc (sent sys.chan) (sent_by happening) later

  pub run_system-sent :
      (sys : Running) (happenings : List (Happening net rt))
      → (let after : Running = run_system lib net rt ctx broadcast sys happenings in
          sent after.chan ≡ sent sys.chan ++ sent_in happenings)
  unfolding run_system system_step
  run_system-sent sys [] = sym (append-nil (sent sys.chan))
  run_system-sent sys (happening ∷ happenings) =
      run_system-sent (system_step lib net rt ctx broadcast sys happening) happenings
      ∙ next_sent sys happening (sent_in happenings)

  -- While the program runs, the events of a client follow what is sent, from the position of its
  -- receiver to that which it then has.
  pub run_system-Follows :
      (sys : Running) (happenings : List (Happening net rt)) (k : ℕ) (r : Receiver)
      → get_elem? sys.receivers k ≡ some r
      → (let after : Running = run_system lib net rt ctx broadcast sys happenings in
          (r' : Receiver) × (get_elem? after.receivers k ≡ some r')
          × Follows
              (sent sys.chan ++ sent_in happenings)
              (position r)
              (events_of k (arrivals lib net rt ctx broadcast sys happenings))
              (position r'))
  unfolding run_system arrivals system_step
  run_system-Follows sys [] k r e = (r, e, refl)
  run_system-Follows sys (happening ∷ happenings) k r e =
      let (r1, e1, steps) = step-Stepped lib net rt ctx broadcast sys happening k r e in
      let next : Running = system_step lib net rt ctx broadcast sys happening in
      let (r', e', follows) = run_system-Follows next happenings k r1 e1 in
      let later = events_of k (arrivals lib net rt ctx broadcast next happenings) in
      (
        r',
        e',
        subst
            (λ es.
              Follows (sent sys.chan ++ (sent_by happening ++ sent_in happenings)) (position r) es
                (position r'))
            (sym (
              events_of-append k (arrival_of lib net rt ctx broadcast sys happening)
                (arrivals lib net rt ctx broadcast next happenings)))
            (steps (sent_by happening ++ sent_in happenings) later (position r') (
              subst (λ l. Follows l (position r1) later (position r'))
                (next_sent sys happening (sent_in happenings)) follows)),
      )
