-- ===== src/Proxy.antt =====
-- The way of an advertisement through the program: from BlueZ's signals (src/ble.rs) over the channel to
-- a client's loop (src/server.rs), and what the client reads.
pub mod Serving
use linux_bt_proxy.Prelude.{◌≡◌, ap, ◌∙◌, true, List, [], ◌++◌, map, Bytes, All, length}
use linux_bt_proxy.Context.{ProxyContext}
use linux_bt_proxy.DBus.{DBus}
use linux_bt_proxy.Proto.Frame.{BytesMut}
use linux_bt_proxy.Net.{Net}
use linux_bt_proxy.Api.Runtime.{Protobuf}
use linux_bt_proxy.Api.Runtime.ReadsBack.{ReadsBack}
use linux_bt_proxy.Ble.{BleAdvertisement}
use linux_bt_proxy.Ble.Listener.{
  Streams, is_open, Adapter, Signal, Log, listening, listen, try_start_discovery,
  run_bluez_advertisement_listener,
}
use linux_bt_proxy.Ble.Listener.Steps.{
  starts, turned_off, all, built, properties, IsCalm, with_more, one_start, restart_lem,
  listen-advertises,
}
use linux_bt_proxy.Server.{Client, advert, serving, run}
use linux_bt_proxy.Server.Advert.{IsForwardable}
use linux_bt_proxy.Server.Session.{IsSound}
use linux_bt_proxy.Server.Delivered.{received}
use linux_bt_proxy.Server.Received.{all_wanted, IsReadable, run-received}

module _ (bus : DBus) (rt : Protobuf) where
  -- What the devices that signals report are advertised as.
  abbrev pub reported : List (Signal bus rt) → List (BleAdvertisement rt)
  reported signals = all (λ s. built bus rt (properties bus rt s)) signals

  abbrev pub none_yet : Log bus rt
  none_yet = record { advertised = []; calls = [] }

  -- What the listener has done.
  pub listener-listens :
      (streams : Streams) (adapter : Adapter) (signals : List (Signal bus rt))
      → is_open streams ≡ true
      → (try_start_discovery adapter).0 ≡ true
      → All (IsCalm bus rt) signals
      → run_bluez_advertisement_listener bus rt streams adapter signals
        ≡ listening (
            with_more bus rt
              (with_more bus rt none_yet [] one_start)
              (reported signals)
              (all (λ s. starts bus rt (turned_off bus rt s)) signals))
  unfolding run_bluez_advertisement_listener
  listener-listens streams adapter signals opens start calm =
      rw (opens, restart_lem bus rt none_yet adapter start)
        (listen-advertises bus rt (with_more bus rt none_yet [] one_start) signals calm)

  module _ (lib : BytesMut) (back : ReadsBack rt) (net : Net) (ctx : ProxyContext)
      (sound : IsSound net) where
    -- If the streams open and discovery starts, the signals are calm and the connection is sound,
    -- the listener goes on, and a client whose loop takes what it advertises finds every device
    -- that the signals report in what it is sent: once, in their order, whole, and in the form that
    -- it has subscribed to. The messages are such that protobuf writes them and that they are read
    -- back.
    pub received-signals :
        (streams : Streams) (adapter : Adapter) (signals : List (Signal bus rt)) (c : Client net)
        → is_open streams ≡ true
        → (try_start_discovery adapter).0 ≡ true
        → All (IsCalm bus rt) signals
        → All (IsForwardable rt) (reported signals)
        → All (IsReadable lib rt back) (reported signals)
        → (log : Log bus rt) × (s' : net.Stream) × (bytes : Bytes)
          × (run_bluez_advertisement_listener bus rt streams adapter signals ≡ listening log)
          × (run lib net rt ctx (serving c) (map advert log.advertised)
              ≡ serving (record c { stream = s' }))
          × (net.sent s' ≡ net.sent c.stream ++ bytes)
          × (received lib rt (length log.advertised) bytes
              ≡ all_wanted c.subscription_flags (reported signals))
    received-signals streams adapter signals c opens starts calm forwardable readable =
        let (s', bytes, ran, sent', heard) =
          run-received lib rt back net ctx sound c (reported signals) forwardable readable in
        (
          _,
          s',
          bytes,
          listener-listens streams adapter signals opens starts calm,
          ran,
          sent',
          heard,
        )
