-- ===== src/Ble/Listener/Steps.antt =====
-- What the listener of src/ble.rs has done after any course of signals.
use linux_bt_proxy.Prelude.{
  ◌≡◌, refl, sym, ap, ◌∙◌, Bool, true, false, Bool-cases, Option, none, some, Option-cases, inl,
  inr, List, [], ◌∷◌, ◌++◌, append-nil, append_assoc, Bytes, All, if◌then◌else◌, arith,
}
use linux_bt_proxy.Prelude.Outcome.{returns, panics}
use linux_bt_proxy.Text.{codes}
use linux_bt_proxy.DBus.{DBus, Props}
use linux_bt_proxy.RawAdv.Uuid.{bytes_eq}
use linux_bt_proxy.Api.Runtime.{Protobuf}
use linux_bt_proxy.Ble.{BleAdvertisement, build_advertisement}
use linux_bt_proxy.Ble.Listener.{
  Adapter, Call, set_discovery_filter, start_discovery, try_start_discovery, Signal,
  adapter_changed, adapter_body_error, adapter_none, device_changed, device_error, device_end,
  interfaces_added, interfaces_body_error, interfaces_error, interfaces_end, Log, listening,
  get_device_properties, publish, publish_some, restart, discovering, adapter_step, listen_step,
  listen,
}

-- The filter that asks for repeated advertisements too, and then the start.
abbrev pub one_start : List Call
one_start = set_discovery_filter true ∷ start_discovery ∷ []

pub try_start_discovery-calls :
    (adapter : Adapter)
    → (try_start_discovery adapter).0 ≡ true
    → (try_start_discovery adapter).1 ≡ one_start
unfolding try_start_discovery
try_start_discovery-calls adapter ok = ground arith

-- What each element gives, in order.
abbrev pub all : {A B : Type 0} → (A → List B) → List A → List B
all f [] = []
all f (x ∷ xs) = f x ++ all f xs

module _ (bus : DBus) (rt : Protobuf) where
  -- The properties that a signal brings of a device.
  abbrev pub properties : Signal bus rt → Option (Props bus)
  properties (adapter_changed interface changed adapter) = none
  properties adapter_body_error = none
  properties adapter_none = none
  properties (device_changed none) = none
  properties (device_changed (some device)) = get_device_properties device
  properties device_error = none
  properties device_end = none
  properties (interfaces_added props) = props
  properties interfaces_body_error = none
  properties interfaces_error = none
  properties interfaces_end = none

  -- The adapter, if the signal says that its discovery was turned off.
  abbrev pub turned_off : Signal bus rt → Option Adapter
  turned_off (adapter_changed interface changed adapter) =
      if bytes_eq interface (codes "org.bluez.Adapter1")
      then elim (discovering bus rt changed) [
        | none ↦ none
        | some true ↦ none
        | some false ↦ some adapter
      ]
      else none
  turned_off adapter_body_error = none
  turned_off adapter_none = none
  turned_off (device_changed d) = none
  turned_off device_error = none
  turned_off device_end = none
  turned_off (interfaces_added i) = none
  turned_off interfaces_body_error = none
  turned_off interfaces_error = none
  turned_off interfaces_end = none

  abbrev pub is_error : Signal bus rt → Bool
  is_error (adapter_changed interface changed adapter) = false
  is_error adapter_body_error = true
  is_error adapter_none = false
  is_error (device_changed d) = false
  is_error device_error = true
  is_error device_end = false
  is_error (interfaces_added i) = false
  is_error interfaces_body_error = true
  is_error interfaces_error = true
  is_error interfaces_end = false

  -- What properties are advertised as, if they are.
  abbrev pub built : Option (Props bus) → List (BleAdvertisement rt)
  built none = []
  built (some props) = elim (build_advertisement bus rt props) [
    | panics ↦ []
    | returns none ↦ []
    | returns (some a) ↦ a ∷ []
  ]

  abbrev pub starts : Option Adapter → List Call
  starts none = []
  starts (some adapter) = one_start

  abbrev pub Builds : Option (Props bus) → Type 0
  Builds none = Unit
  Builds (some props) =
      (r : Option (BleAdvertisement rt)) × (build_advertisement bus rt props ≡ returns r)

  abbrev pub Restarts : Option Adapter → Type 0
  Restarts none = Unit
  Restarts (some adapter) = (try_start_discovery adapter).0 ≡ true

  -- A signal that is no error, makes no UUID panic, and on which discovery starts again if it has to.
  abbrev pub IsCalm : Signal bus rt → Type 0
  IsCalm signal =
      (is_error signal ≡ false) × Restarts (turned_off signal) × Builds (properties signal)

  abbrev pub with_more : Log bus rt → List (BleAdvertisement rt) → List Call → Log bus rt
  with_more log adverts calls = record {
    advertised = log.advertised ++ adverts;
    calls = log.calls ++ calls;
  }

  logged :
      {advertised more : List (BleAdvertisement rt)} {calls again : List Call}
      → advertised ≡ more
      → calls ≡ again
      → listening (let log : Log bus rt = record { advertised = advertised; calls = calls } in log)
        ≡ listening (record { advertised = more; calls = again })
  logged e f = rw (e, f) refl

  same_log : (log : Log bus rt) → listening log ≡ listening (with_more log [] [])
  same_log log = logged (sym (append-nil log.advertised)) (sym (append-nil log.calls))

  publish_lem :
      (log : Log bus rt) (props : Props bus)
      → Builds (some props)
      → publish bus rt log props ≡ listening (with_more log (built (some props)) [])
  unfolding publish
  publish_lem log props (none, e) = rw (publish, built, e) (same_log log)
  publish_lem log props (some a, e) =
      rw (publish, built, e) (logged refl (sym (append-nil log.calls)))

  publish_some_lem :
      (log : Log bus rt) (props : Option (Props bus))
      → Builds props
      → publish_some bus rt log props ≡ listening (with_more log (built props) [])
  unfolding publish_some
  publish_some_lem log none h = same_log log
  publish_some_lem log (some props) h = publish_lem log props h

  pub restart_lem :
      (log : Log bus rt) (adapter : Adapter)
      → (try_start_discovery adapter).0 ≡ true
      → restart bus rt log adapter ≡ listening (with_more log [] one_start)
  unfolding restart
  restart_lem log adapter ok =
      rw (restart, ok, try_start_discovery-calls adapter ok)
        (logged (sym (append-nil log.advertised)) refl)

  adapter_step_lem :
      (log : Log bus rt) (interface : Bytes) (changed : Props bus) (adapter : Adapter)
      → Restarts (turned_off (adapter_changed interface changed adapter))
      → adapter_step bus rt log interface changed adapter
        ≡ listening
            (with_more log [] (starts (turned_off (adapter_changed interface changed adapter))))
  unfolding adapter_step
  adapter_step_lem log interface changed adapter h =
      elim (Bool-cases (bytes_eq interface (codes "org.bluez.Adapter1"))) [
        | inr other ↦ rw (adapter_step, other) (same_log log)
        | inl this ↦ elim (Option-cases (discovering bus rt changed)) [
          | inl e ↦ rw (adapter_step, this, e) (same_log log)
          | inr (true, e) ↦ rw (adapter_step, this, e) (same_log log)
          | inr (false, e) ↦
              rw (adapter_step, this, e) (restart_lem log adapter (rw (this, e) at h))
        ]
      ]

  listen_step_lem :
      (log : Log bus rt) (signal : Signal bus rt)
      → IsCalm signal
      → listen_step bus rt log signal
        ≡ listening (with_more log (built (properties signal)) (starts (turned_off signal)))
  unfolding listen_step
  listen_step_lem log (adapter_changed interface changed adapter) h =
      adapter_step_lem log interface changed adapter (h.1)
  listen_step_lem log adapter_body_error h = cc (h.0)
  listen_step_lem log adapter_none h = same_log log
  listen_step_lem log (device_changed none) h = same_log log
  listen_step_lem log (device_changed (some device)) h =
      publish_some_lem log (get_device_properties device) (h.2)
  listen_step_lem log device_error h = cc (h.0)
  listen_step_lem log device_end h = same_log log
  listen_step_lem log (interfaces_added props) h = publish_some_lem log props (h.2)
  listen_step_lem log interfaces_body_error h = cc (h.0)
  listen_step_lem log interfaces_error h = cc (h.0)
  listen_step_lem log interfaces_end h = same_log log

  -- Over a course of calm signals (none is an error, makes a UUID panic, or has discovery fail to
  -- start again) every device that they report is advertised, once and in order, and discovery is
  -- started again each time that it was turned off, and at no other time.
  pub listen-advertises :
      (log : Log bus rt) (signals : List (Signal bus rt))
      → All IsCalm signals
      → listen bus rt (listening log) signals
        ≡ listening (
            with_more log
              (all (λ s. built (properties s)) signals)
              (all (λ s. starts (turned_off s)) signals))
  unfolding listen
  listen-advertises log [] h = same_log log
  listen-advertises log (signal ∷ signals) (h, hs) =
      ap (λ state. listen bus rt state signals) (listen_step_lem log signal h)
      ∙ listen-advertises (with_more log (built (properties signal)) (starts (turned_off signal)))
          signals hs
      ∙ logged (append_assoc log.advertised (built (properties signal)) _)
          (append_assoc log.calls (starts (turned_off signal)) _)
