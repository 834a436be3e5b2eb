-- ===== src/System.antt =====
-- The running program: the channel that src/main.rs makes, into which the listener of src/ble.rs sends,
-- and the tasks of src/server.rs, each with a receiver of its own.
pub mod Taken
pub mod Followed
pub mod Connected
pub mod Client
pub mod Prompt
use linux_bt_proxy.Prelude.{ℕ, ◌≡◌, Option, none, some, List, [], ◌∷◌, ◌++◌, Bytes}
use linux_bt_proxy.Context.{ProxyContext}
use linux_bt_proxy.Proto.Frame.{BytesMut}
use linux_bt_proxy.Net.{Net}
use linux_bt_proxy.Broadcast.{Broadcast, Recv, value, lags, no_sender, waits}
use linux_bt_proxy.Api.Runtime.{Protobuf}
use linux_bt_proxy.Ble.{BleAdvertisement}
use linux_bt_proxy.Server.{Event, read_bytes, read_error, advert, lagged, channel_closed}
use linux_bt_proxy.Server.Accept.{
  Arrival, accepted, accept_error, at_client, Accepting, accepting, at, get_elem?, run_tcp_server,
}

-- `broadcast::channel(100)`
abbrev pub channel_capacity : ℕ
channel_capacity = 100

-- What happens next: the listener sends, `accept()` gives a connection or an error, or the `select!` of
-- a client takes a read, an error of it, or the channel; a client by its number.
pub data Happening (net : Net) (rt : Protobuf) : Type 0 where
  advertises : BleAdvertisement rt → Happening net rt
  connects : net.Stream → Happening net rt
  accept_fails : Happening net rt
  reads : ℕ → Bytes → Happening net rt
  read_fails : ℕ → Happening net rt
  receives : ℕ → Happening net rt

-- What the `select!` of a client takes, if the channel has something for it.
unfoldable pub taken : {rt : Protobuf} → Recv (BleAdvertisement rt) → Option (Event rt)
taken (value a) = some (advert a)
taken (lags n) = some (lagged n)
taken no_sender = some channel_closed
taken waits = none

abbrev pub at_task : {net : Net} {rt : Protobuf} → ℕ → Option (Event rt) → List (Arrival net rt)
at_task k none = []
at_task k (some event) = at_client k event ∷ []

module _ (lib : BytesMut) (net : Net) (rt : Protobuf) (ctx : ProxyContext)
    (broadcast : Broadcast (BleAdvertisement rt)) where
  open broadcast use {Channel, Receiver, channel, send, resubscribe, recv}

  -- The channel, the receiver that the server was given, those of its clients, and their tasks.
  pub record System : Type 0 where
    pub chan : Channel
    pub rx : Receiver
    pub receivers : List Receiver
    pub tasks : Accepting net

  unfoldable pub start : System
  start = record {
    chan = (channel channel_capacity).0;
    rx = (channel channel_capacity).1;
    receivers = [];
    tasks = accepting [];
  }

  -- What it is to the server, and to the receivers.
  unfoldable pub arrival_of : System → Happening net rt → List (Arrival net rt)
  unfolding taken
  arrival_of sys (advertises a) = []
  arrival_of sys (connects s) = accepted s ∷ []
  arrival_of sys accept_fails = accept_error ∷ []
  arrival_of sys (reads k bytes) = at_client k (read_bytes bytes) ∷ []
  arrival_of sys (read_fails k) = at_client k read_error ∷ []
  arrival_of sys (receives k) = elim (get_elem? sys.receivers k) [
    | none ↦ []
    | some r ↦ at_task k (taken ((recv sys.chan r).0))
  ]

  unfoldable pub receivers_after : System → Happening net rt → List Receiver
  receivers_after sys (advertises a) = sys.receivers
  receivers_after sys (connects s) = sys.receivers ++ resubscribe sys.chan sys.rx ∷ []
  receivers_after sys accept_fails = sys.receivers
  receivers_after sys (reads k bytes) = sys.receivers
  receivers_after sys (read_fails k) = sys.receivers
  receivers_after sys (receives k) = at (λ r. (recv sys.chan r).1) k sys.receivers

  unfoldable pub chan_after : System → Happening net rt → Channel
  chan_after sys (advertises a) = send a sys.chan
  chan_after sys (connects s) = sys.chan
  chan_after sys accept_fails = sys.chan
  chan_after sys (reads k bytes) = sys.chan
  chan_after sys (read_fails k) = sys.chan
  chan_after sys (receives k) = sys.chan

  unfoldable pub system_step : System → Happening net rt → System
  unfolding arrival_of receivers_after chan_after run_tcp_server
  system_step sys happening = record {
    chan = chan_after sys happening;
    rx = sys.rx;
    receivers = receivers_after sys happening;
    tasks = run_tcp_server lib net rt ctx sys.tasks (arrival_of sys happening);
  }

  unfoldable pub run_system : System → List (Happening net rt) → System
  unfolding system_step
  run_system sys [] = sys
  run_system sys (happening ∷ happenings) = run_system (system_step sys happening) happenings

  -- What came to the server, and what the listener sent.
  unfoldable pub arrivals : System → List (Happening net rt) → List (Arrival net rt)
  unfolding arrival_of system_step
  arrivals sys [] = []
  arrivals sys (happening ∷ happenings) =
      arrival_of sys happening ++ arrivals (system_step sys happening) happenings

abbrev pub sent_by : {net : Net} {rt : Protobuf} → Happening net rt → List (BleAdvertisement rt)
sent_by (advertises a) = a ∷ []
sent_by (connects s) = []
sent_by accept_fails = []
sent_by (reads k bytes) = []
sent_by (read_fails k) = []
sent_by (receives k) = []

abbrev pub sent_in :
    {net : Net} {rt : Protobuf} → List (Happening net rt) → List (BleAdvertisement rt)
sent_in [] = []
sent_in (happening ∷ happenings) = sent_by happening ++ sent_in happenings
