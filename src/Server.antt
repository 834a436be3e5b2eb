-- ===== src/Server.antt =====
-- src/server.rs: `handle_client`, the loop that serves one client. Its `select!` takes what comes
-- first, a read of the socket or an advertisement of the channel: here an event.
pub mod Dispatch
pub mod Advert
pub mod Subscription
pub mod Chunks
pub mod Buffer
pub mod Session
pub mod Delivered
pub mod Conversation
pub mod Received
pub mod Accept
pub mod Total
pub mod Drain
use linux_bt_proxy.Prelude.{
  ℕ, zero, suc, ◌≡◌, Bool, true, false, Option, none, some, List, [], ◌∷◌, ◌++◌, Bytes, length,
  ◌==◌, if◌then◌else◌,
}
use linux_bt_proxy.Prelude.Outcome.{Outcome, returns, panics}
use linux_bt_proxy.Context.{ProxyContext}
use linux_bt_proxy.Proto.Frame.{BytesMut, Next, next_message}
use linux_bt_proxy.Net.{
  Net, warn, info, debug, Answer, done, error, ◌>>=◌, or_error, checked, log_peer,
}
use linux_bt_proxy.Api.Runtime.{Protobuf}
use linux_bt_proxy.Api.BluetoothLeAdvertisementResponse.{BluetoothLeAdvertisementResponse}
use linux_bt_proxy.Api.BluetoothLeRawAdvertisement.{BluetoothLeRawAdvertisement}
use linux_bt_proxy.Ble.{BleAdvertisement}
use linux_bt_proxy.Handlers.{
  SubscriptionFlags, no_flags, hello_request, connect_request, disconnect_request, ping_request,
  device_info_request, list_entities_request, subscribe_bluetooth_le_advertisements_request,
  subscribe_bluetooth_connections_free_request, forward_ble_advertisement,
  forward_raw_ble_advertisement,
}

-- What `select!` takes: `Ok(n)` with the n bytes that were appended, a read error, an
-- advertisement, or one of the channel's errors.
pub data Event (rt : Protobuf) : Type 0 where
  read_bytes : Bytes → Event rt
  read_error : Event rt
  advert : BleAdvertisement rt → Event rt
  lagged : ℕ → Event rt
  channel_closed : Event rt

-- The locals of `handle_client`.
pub record Client (net : Net) : Type 0 where
  pub buf : Bytes
  pub subscription_flags : SubscriptionFlags
  pub stream : net.Stream

-- Where the loop is: in its next round, left by `break`, left by `?`, or unwinding. `stuck` is no
-- result of the code: the rounds given to the inner loop did not suffice.
pub data Served (net : Net) : Type 0 where
  serving : Client net → Served net
  closed : net.Stream → Served net
  failed : net.Stream → Served net
  panicked : Served net
  stuck : Served net

-- A handler that leaves the flags alone.
abbrev pub keeping : {S : Type 0} → SubscriptionFlags → Answer S Unit → Answer S SubscriptionFlags
keeping flags (done _ s) = done flags s
keeping flags (error s) = error s

-- `Ok(sub_flags) => subscription_flags = sub_flags`, and a warning on an error.
abbrev pub recovered :
    {S : Type 0} → SubscriptionFlags → Answer S SubscriptionFlags → Answer S SubscriptionFlags
recovered flags (done new_flags s) = done new_flags s
recovered flags (error s) = done flags s

module _ (lib : BytesMut) (net : Net) (rt : Protobuf) (ctx : ProxyContext) where
  open net use {Stream}

  -- `match msg_type`
  unfoldable pub dispatch : SubscriptionFlags → Stream → ℕ → Bytes → Answer Stream SubscriptionFlags
  dispatch flags s msg_type payload =
      if msg_type == 0x01
      then keeping flags (hello_request net rt s payload)
      else if msg_type == 0x03
      then keeping flags (connect_request net rt s payload)
      else if msg_type == 0x05
      then keeping flags (disconnect_request net rt s payload)
      else if msg_type == 0x07
      then keeping flags (ping_request net rt s payload)
      else if msg_type == 0x09
      then keeping flags (device_info_request net rt ctx s payload)
      else if msg_type == 0x0b
      then keeping flags (list_entities_request net rt s payload)
      else if msg_type == 0x42
      then recovered flags (subscribe_bluetooth_le_advertisements_request net rt s payload)
      else if msg_type == 0x50
      then keeping flags (subscribe_bluetooth_connections_free_request net rt s payload)
      else if msg_type == 0x57
      then done no_flags s
      else keeping flags (log_peer net warn s)

  -- `while let Some((msg_type, payload)) = next_message(&mut buf)`
  unfoldable pub drain : ℕ → Client net → Served net
  unfolding dispatch next_message
  drain zero c = stuck
  drain (suc rounds) c = elim (next_message lib c.buf) [
    | panics ↦ panicked
    | returns (none, rest) ↦ serving (record c { buf = rest })
    | returns (some (msg_type, payload), rest) ↦
        elim (dispatch c.subscription_flags c.stream msg_type payload) [
          | error s ↦ failed s
          | done flags s ↦
              drain rounds (record { buf = rest; subscription_flags = flags; stream = s })
        ]
  ]

  abbrev pub answered : Client net → Answer Stream Unit → Served net
  answered c (done _ s) = serving (record c { stream = s })
  answered c (error s) = failed s

  -- `Ok(advert)`
  unfoldable pub forward : Client net → BleAdvertisement rt → Served net
  forward c a =
      if c.subscription_flags.raw
      then answered c
          (do (_, s) ← log_peer net debug c.stream; forward_raw_ble_advertisement net rt s a.raw)
      else if c.subscription_flags.regular
      then answered c
          (do (_, s) ← log_peer net debug c.stream; forward_ble_advertisement net rt s a.legacy)
      else serving c

  -- A round of the `select!` loop. Each message takes a byte of the buffer at least, so one round
  -- of the inner loop more than the bytes is enough.
  unfoldable pub step : Client net → Event rt → Served net
  unfolding drain forward
  step c (read_bytes []) = closed c.stream
  step c (read_bytes (byte ∷ bytes)) =
      let buf = c.buf ++ byte ∷ bytes in drain (suc (length buf)) (record c { buf = buf })
  step c read_error = closed c.stream
  step c (advert a) = forward c a
  step c (lagged n) = serving c
  step c channel_closed = closed c.stream

  -- The loop over the events that come, from a state of it.
  unfoldable pub run : Served net → List (Event rt) → Served net
  unfolding step
  run state [] = state
  run (serving c) (event ∷ events) = run (step c event) events
  run (closed s) (event ∷ events) = closed s
  run (failed s) (event ∷ events) = failed s
  run panicked (event ∷ events) = panicked
  run stuck (event ∷ events) = stuck

  -- `handle_client` on a new connection.
  unfoldable pub handle_client : Stream → List (Event rt) → Served net
  unfolding run no_flags
  handle_client s events =
      run (serving (record { buf = []; subscription_flags = no_flags; stream = s })) events
