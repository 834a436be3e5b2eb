-- ===== src/Proxy/Serving.antt =====
-- The whole way through the running program: from BlueZ's signals (src/ble.rs) over the channel of
-- src/main.rs to what a client of src/server.rs reads while it talks to the program.
use linux_bt_proxy.Prelude.{
  ◌+◌, ◌≡◌, sym, ap, ◌∙◌, true, some, List, [], ◌∷◌, ◌++◌, map, Bytes, All, length,
}
use linux_bt_proxy.Context.{ProxyContext}
use linux_bt_proxy.DBus.{DBus}
use linux_bt_proxy.Proto.Frame.{BytesMut}
use linux_bt_proxy.Net.{Net}
use linux_bt_proxy.Broadcast.{Broadcast}
use linux_bt_proxy.Api.Runtime.{Protobuf}
use linux_bt_proxy.Api.Runtime.ReadsBack.{ReadsBack}
use linux_bt_proxy.Ble.{BleAdvertisement}
use linux_bt_proxy.Ble.Listener.{
  Streams, is_open, Adapter, Signal, Log, Listening, listening, failed, panicked,
  try_start_discovery, run_bluez_advertisement_listener,
}
use linux_bt_proxy.Ble.Listener.Steps.{IsCalm}
use linux_bt_proxy.Handlers.{no_flags}
use linux_bt_proxy.Server.{Served, serving, handle_client}
use linux_bt_proxy.Server.Accept.{accepting, get_elem?}
use linux_bt_proxy.Server.Session.{IsSound}
use linux_bt_proxy.Server.Delivered.{received}
use linux_bt_proxy.Server.Conversation.{Turn, event_of, behind_turns, all_delivered, IsServable}
use linux_bt_proxy.Server.Conversation.Run.{handle_client-converses}
use linux_bt_proxy.System.{Happening, connects, System, run_system, sent_in}
use linux_bt_proxy.System.Client.{begun, joined, number, client_events, adverts_of}
use linux_bt_proxy.System.Prompt.{IsPrompt, run_system-prompt}
use linux_bt_proxy.Proxy.{reported, listener-listens}

module _ (bus : DBus) (rt : Protobuf) where
  advertised : Listening bus rt → List (BleAdvertisement rt)
  advertised (listening log) = log.advertised
  advertised (failed log) = log.advertised
  advertised panicked = []

  listener-reported :
      (streams : Streams) (adapter : Adapter) (signals : List (Signal bus rt)) (log : Log bus rt)
      → is_open streams ≡ true
      → (try_start_discovery adapter).0 ≡ true
      → All (IsCalm bus rt) signals
      → run_bluez_advertisement_listener bus rt streams adapter signals ≡ listening log
      → log.advertised ≡ reported bus rt signals
  unfolding advertised
  listener-reported streams adapter signals log opens starts calm e =
      sym (ap advertised e)
      ∙ ap advertised (listener-listens bus rt streams adapter signals opens starts calm)

  module _ (lib : BytesMut) (back : ReadsBack rt) (net : Net) (ctx : ProxyContext)
      (sound : IsSound net) (broadcast : Broadcast (BleAdvertisement rt)) where
    open broadcast use {Receiver, position}

    -- If the streams open and discovery starts, the signals are calm and what the listener
    -- advertises is what is sent before and after a client connects; and the client's connection is
    -- sound, its receiver is never more than a hundred advertisements behind, and its loop has
    -- taken whole requests and advertisements: then its task is serving it, with the subscription
    -- that it asked for last; it reads from what it is sent the response to each request and each
    -- advertisement that its loop has taken, in their order and in the form that it was then
    -- subscribed to; and those advertisements are the devices that the signals have reported since
    -- it connected, each once and in order, but for those that its receiver is still behind. The
    -- requests and what is delivered are written by protobuf as bytes and are read back.
    pub proxy-serves :
        (streams : Streams) (adapter : Adapter) (signals : List (Signal bus rt)) (log : Log bus rt)
        (before after : List (Happening net rt)) (s : net.Stream) (tasks : List (Served net))
        (turns : List (Turn rt))
        → is_open streams ≡ true
        → (try_start_discovery adapter).0 ≡ true
        → All (IsCalm bus rt) signals
        → run_bluez_advertisement_listener bus rt streams adapter signals ≡ listening log
        → sent_in before ++ sent_in after ≡ log.advertised
        → (run_system lib net rt ctx broadcast
            (begun lib net rt ctx broadcast)
            (before ++ connects s ∷ after)).tasks
          ≡ accepting tasks
        → IsPrompt lib net rt ctx broadcast
            (number lib net rt ctx broadcast before)
            (joined lib net rt ctx broadcast before s)
            after
        → client_events lib net rt ctx broadcast before s after ≡ map event_of turns
        → All (IsServable net ctx back) turns
        → (s' : net.Stream) × (bytes : Bytes) × (r : Receiver) × (to_come : List
            (BleAdvertisement rt))
          × (get_elem? tasks (number lib net rt ctx broadcast before)
              ≡ some (
                  serving (record {
                    buf = [];
                    subscription_flags = behind_turns no_flags turns;
                    stream = s';
                  })))
          × (net.sent s' ≡ net.sent s ++ bytes)
          × (let ds = all_delivered net ctx no_flags turns in
              received lib rt (length ds) bytes ≡ ds)
          × (sent_in before ++ (adverts_of (map event_of turns) ++ to_come)
              ≡ reported bus rt signals)
          × (let now : System lib net rt ctx broadcast =
                run_system lib net rt ctx broadcast
                  (joined lib net rt ctx broadcast before s)
                  after in
              (get_elem? now.receivers (number lib net rt ctx broadcast before) ≡ some r)
              × (position r + length to_come ≡ length (broadcast.sent now.chan)))
    proxy-serves streams adapter signals log before after s tasks turns opens starts calm ran sends
          going prompt took servable =
        let (task, (r, to_come, there, all, end)) =
          run_system-prompt lib net rt ctx broadcast before after s tasks going prompt in
        let (s', bytes, served, sent', heard) =
          handle_client-converses back net ctx lib sound s turns servable in
        (
          s',
          bytes,
          r,
          to_come,
          task ∙ ap (λ events. some (handle_client lib net rt ctx s events)) took ∙ ap some served,
          sent',
          heard,
          ap (λ events. sent_in before ++ (adverts_of events ++ to_come)) (sym took)
              ∙ ap (λ (l : List (BleAdvertisement rt)). sent_in before ++ l) all
              ∙ sends
              ∙ listener-reported streams adapter signals log opens starts calm ran,
          (there, end),
        )
