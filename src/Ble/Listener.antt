-- ===== src/Ble/Listener.antt =====
-- src/ble.rs: `run_bluez_advertisement_listener`, as a step over the signals that its `select!` takes,
-- and `try_start_discovery`.
pub mod Steps
pub mod Discovery
use linux_bt_proxy.Prelude.{
  ℕ, ◌≡◌, Bool, true, false, not, Option, none, some, List, [], ◌∷◌, ◌++◌, Bytes, and_then,
  if◌then◌else◌, ◌&&◌,
}
use linux_bt_proxy.Prelude.Outcome.{Outcome, returns, panics}
use linux_bt_proxy.Text.{codes}
use linux_bt_proxy.DBus.{DBus, Props}
use linux_bt_proxy.RawAdv.Uuid.{bytes_eq}
use linux_bt_proxy.Api.Runtime.{Protobuf}
use linux_bt_proxy.Ble.{BleAdvertisement, build_advertisement}

-- What the bus answers when the listener sets out: the connection, the three match rules, and the streams
-- of their signals.
pub record Streams : Type 0 where
  pub connection : Bool
  pub rules : Bool
  pub adapter_stream : Bool
  pub props_stream : Bool
  pub iface_stream : Bool

unfoldable pub is_open : Streams → Bool
is_open s = s.connection && (s.rules && (s.adapter_stream && (s.props_stream && s.iface_stream)))

-- What BlueZ answers to `StartDiscovery`: the error's name, if it is a method error.
pub data Started : Type 0 where
  started : Started
  method_error : Bytes → Started
  other_error : Started

-- What the bus answers when discovery is started: whether the proxy is made (its path parses and the
-- bus is there), whether `SetDiscoveryFilter` succeeds, and the answer to `StartDiscovery`.
pub record Adapter : Type 0 where
  pub proxy : Bool
  pub filter : Bool
  pub discovery : Started

-- The methods called on the adapter; the filter's one entry is `DuplicateData`, with its value.
pub data Call : Type 0 where
  set_discovery_filter : Bool → Call
  start_discovery : Call

-- `true` is `Ok(())`; with the calls that were made.
unfoldable pub try_start_discovery : Adapter → Bool × List Call
unfolding bytes_eq
try_start_discovery adapter =
    if adapter.proxy
    then (if adapter.filter
        then (
          elim adapter.discovery [
            | started ↦ true
            | method_error name ↦ bytes_eq name (codes "org.bluez.Error.InProgress")
            | other_error ↦ false
          ],
          set_discovery_filter true ∷ start_discovery ∷ [],
        )
        else (false, set_discovery_filter true ∷ []))
    else (false, [])

-- What the bus answers for a device: whether its path is an object path and the proxy is made, and the
-- device's properties, by `GetAll` of its interface.
pub record Device (bus : DBus) : Type 0 where
  pub object_path : Bool
  pub proxy : Bool
  pub get_all : Option (Props bus)

-- `none` is an error.
unfoldable pub get_device_properties : {bus : DBus} → Device bus → Option (Props bus)
get_device_properties device =
    if device.object_path then (if device.proxy then device.get_all else none) else none

module _ (bus : DBus) (rt : Protobuf) where
  -- What the three streams give. A signal of the adapter's properties has a body with an interface's
  -- name and the changed properties, or one that is not of that type; a stream that ends, or an error
  -- of it, is `adapter_none`. A signal of a device has a path or none; what the bus answers for
  -- the device comes with it. The body of `InterfacesAdded` maps interfaces to properties; of them the
  -- device's are looked up. `…_error` is an error of the stream, `…_end` its end.
  pub data Signal : Type 0 where
    adapter_changed : Bytes → Props bus → Adapter → Signal
    adapter_body_error : Signal
    adapter_none : Signal
    device_changed : Option (Device bus) → Signal
    device_error : Signal
    device_end : Signal
    interfaces_added : Option (Props bus) → Signal
    interfaces_body_error : Signal
    interfaces_error : Signal
    interfaces_end : Signal

  -- What the listener has done: the advertisements it sent to the channel (a failed `send` is only
  -- logged) and the calls on the adapter.
  pub record Log : Type 0 where
    pub advertised : List (BleAdvertisement rt)
    pub calls : List Call

  pub data Listening : Type 0 where
    listening : Log → Listening
    failed : Log → Listening
    panicked : Listening

  -- `match build_advertisement(…)`
  unfoldable pub publish : Log → Props bus → Listening
  unfolding build_advertisement
  publish log props = elim (build_advertisement bus rt props) [
    | panics ↦ panicked
    | returns none ↦ listening log
    | returns (some a) ↦ listening (record log { advertised = log.advertised ++ a ∷ [] })
  ]

  -- The properties of a device, if there are any.
  unfoldable pub publish_some : Log → Option (Props bus) → Listening
  unfolding publish
  publish_some log none = listening log
  publish_some log (some props) = publish log props

  -- `try_start_discovery(…).await?`
  unfoldable pub restart : Log → Adapter → Listening
  unfolding try_start_discovery
  restart log adapter =
      let (ok, made) = try_start_discovery adapter in
      let log' = record log { calls = log.calls ++ made } in
      if ok then listening log' else failed log'

  -- `changed.get("Discovering")`, as a `bool`.
  abbrev pub discovering : Props bus → Option Bool
  discovering changed = and_then (changed (codes "Discovering")) bus.as_bool

  unfoldable pub adapter_step : Log → Bytes → Props bus → Adapter → Listening
  unfolding restart bytes_eq
  adapter_step log interface changed adapter =
      if bytes_eq interface (codes "org.bluez.Adapter1")
      then elim (discovering changed) [
        | none ↦ listening log
        | some true ↦ listening log
        | some false ↦ restart log adapter
      ]
      else listening log

  -- A round of the `select!` loop.
  unfoldable pub listen_step : Log → Signal → Listening
  unfolding adapter_step publish_some get_device_properties
  listen_step log (adapter_changed interface changed adapter) =
      adapter_step log interface changed adapter
  listen_step log adapter_body_error = failed log
  listen_step log adapter_none = listening log
  listen_step log (device_changed none) = listening log
  listen_step log (device_changed (some device)) = publish_some log (get_device_properties device)
  listen_step log device_error = failed log
  listen_step log device_end = listening log
  listen_step log (interfaces_added props) = publish_some log props
  listen_step log interfaces_body_error = failed log
  listen_step log interfaces_error = failed log
  listen_step log interfaces_end = listening log

  unfoldable pub listen : Listening → List Signal → Listening
  unfolding listen_step
  listen state [] = state
  listen (listening log) (signal ∷ signals) = listen (listen_step log signal) signals
  listen (failed log) (signal ∷ signals) = failed log
  listen panicked (signal ∷ signals) = panicked

  -- The streams are opened first.
  unfoldable pub run_bluez_advertisement_listener : Streams → Adapter → List Signal → Listening
  unfolding listen restart is_open
  run_bluez_advertisement_listener streams adapter signals =
      let log : Log = record { advertised = []; calls = [] } in
      if is_open streams then listen (restart log adapter) signals else failed log
