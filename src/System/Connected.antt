-- ===== src/System/Connected.antt =====
-- The tasks and the receivers of the running program (src/main.rs), by what came to its server.
use linux_bt_proxy.Prelude.{
  ℕ, ◌+◌, ◌≡◌, refl, sym, ap, ◌∙◌, inl, inr, Option, none, some, Option-cases, List, [], ◌∷◌, ◌++◌,
  append_assoc, length, length-append, arith,
}
use linux_bt_proxy.Context.{ProxyContext}
use linux_bt_proxy.Proto.Frame.{BytesMut}
use linux_bt_proxy.Net.{Net}
use linux_bt_proxy.Broadcast.{Broadcast}
use linux_bt_proxy.Api.Runtime.{Protobuf}
use linux_bt_proxy.Ble.{BleAdvertisement}
use linux_bt_proxy.Server.{Event}
use linux_bt_proxy.Server.Accept.{
  Arrival, accepted, accept_error, at_client, get_elem?, connections, run_tcp_server,
}
use linux_bt_proxy.Server.Accept.Alone.{serve-append, length-at}
use linux_bt_proxy.System.{
  Happening, advertises, connects, accept_fails, reads, read_fails, receives, System, taken,
  arrival_of, receivers_after, system_step, run_system, arrivals, at_task,
}

module _ (lib : BytesMut) (net : Net) (rt : Protobuf) (ctx : ProxyContext)
    (broadcast : Broadcast (BleAdvertisement rt)) where
  open broadcast use {Channel, Receiver, sent, position}

  abbrev Running : Type 0
  Running = System lib net rt ctx broadcast

  abbrev go : Running → List (Happening net rt) → Running
  go = run_system lib net rt ctx broadcast

  abbrev came : Running → List (Happening net rt) → List (Arrival net rt)
  came = arrivals lib net rt ctx broadcast

  -- The tasks are those of the server for what came to it.
  pub run_system-tasks :
      (sys : Running) (happenings : List (Happening net rt))
      → (go sys happenings).tasks ≡ run_tcp_server lib net rt ctx sys.tasks (came sys happenings)
  unfolding run_system arrivals system_step
  run_system-tasks sys [] = refl
  run_system-tasks sys (happening ∷ happenings) =
      let next : Running = system_step lib net rt ctx broadcast sys happening in
      run_system-tasks next happenings
      ∙ sym (
          serve-append lib net rt ctx sys.tasks (arrival_of lib net rt ctx broadcast sys happening)
            (came next happenings))

  pub came-append :
      (sys : Running) (xs ys : List (Happening net rt))
      → (go sys (xs ++ ys) ≡ go (go sys xs) ys)
        × (came sys (xs ++ ys) ≡ came sys xs ++ came (go sys xs) ys)
  unfolding run_system arrivals
  came-append sys [] ys = (refl, refl)
  came-append sys (x ∷ xs) ys =
      let next : Running = system_step lib net rt ctx broadcast sys x in
      let (gone, all) = came-append next xs ys in
      let now = arrival_of lib net rt ctx broadcast sys x in
      (gone, ap (λ l. now ++ l) all ∙ sym (append_assoc now (came next xs) (came (go next xs) ys)))

  connections-append :
      (xs ys : List (Arrival net rt)) → connections (xs ++ ys) ≡ connections xs + connections ys
  connections-append [] ys = omega arith
  connections-append (accepted s ∷ xs) ys = omega (arith, connections-append xs ys)
  connections-append (accept_error ∷ xs) ys = connections-append xs ys
  connections-append (at_client j event ∷ xs) ys = connections-append xs ys

  no_connection :
      (k : ℕ) (o : Option (Event rt))
      → (let arrivals : List (Arrival net rt) = at_task k o in connections arrivals) ≡ 0
  no_connection k none = refl
  no_connection k (some event) = refl

  length-receivers_after :
      (sys : Running) (happening : Happening net rt)
      → length (receivers_after lib net rt ctx broadcast sys happening)
        ≡ length sys.receivers + connections (arrival_of lib net rt ctx broadcast sys happening)
  unfolding receivers_after arrival_of
  length-receivers_after sys (advertises a) = omega arith
  length-receivers_after sys (connects s) = length-append sys.receivers _
  length-receivers_after sys accept_fails = omega arith
  length-receivers_after sys (reads j bytes) = omega arith
  length-receivers_after sys (read_fails j) = omega arith
  length-receivers_after sys (receives j) =
      length-at (λ r. (broadcast.recv sys.chan r).1) j sys.receivers
      ∙ elim (Option-cases (get_elem? sys.receivers j)) [
        | inl gone ↦ rw (arrival_of, gone) (omega arith)
        | inr (r, there) ↦
            rw (arrival_of, there, no_connection j (taken ((broadcast.recv sys.chan r).0)))
              (omega arith)
      ]

  -- There is a receiver for each connection.
  pub length-receivers :
      (sys : Running) (happenings : List (Happening net rt))
      → length ((go sys happenings).receivers)
        ≡ length sys.receivers + connections (came sys happenings)
  unfolding run_system arrivals system_step
  length-receivers sys [] = omega arith
  length-receivers sys (happening ∷ happenings) =
      let next : Running = system_step lib net rt ctx broadcast sys happening in
      omega (
        arith,
        length-receivers next happenings,
        length-receivers_after sys happening,
        connections-append (arrival_of lib net rt ctx broadcast sys happening)
            (came next happenings),
      )
