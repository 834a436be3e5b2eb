-- ===== src/Ble/Listener/Discovery.antt =====
-- Discovery, while the listener of src/ble.rs goes on.
use linux_bt_proxy.Prelude.{
  ℕ, zero, suc, ◌≡◌, refl, ap, Bool, true, false, Bool-cases, Option, none, some, inl, inr, List,
  [], ◌∷◌, ◌++◌, Bytes, if_holds,
}
use linux_bt_proxy.Prelude.Outcome.{Outcome-cases}
use linux_bt_proxy.Text.{codes}
use linux_bt_proxy.DBus.{DBus, Props}
use linux_bt_proxy.RawAdv.Uuid.{bytes_eq}
use linux_bt_proxy.Api.Runtime.{Protobuf}
use linux_bt_proxy.Ble.{build_advertisement}
use linux_bt_proxy.Ble.Listener.{
  Streams, is_open, get_device_properties, Adapter, Call, try_start_discovery, Signal,
  adapter_changed, adapter_body_error, adapter_none, device_changed, device_error, device_end,
  interfaces_added, interfaces_body_error, interfaces_error, interfaces_end, Log, Listening,
  listening, failed, panicked, publish, publish_some, restart, discovering, adapter_step,
  listen_step, listen, run_bluez_advertisement_listener,
}
use linux_bt_proxy.Ble.Listener.Steps.{one_start, try_start_discovery-calls}

abbrev pub pairs : ℕ → List Call
pairs zero = []
pairs (suc n) = pairs n ++ one_start

module _ (bus : DBus) (rt : Protobuf) where
  abbrev pub IsStarted : Listening bus rt → Type 0
  IsStarted (listening log) = (n : ℕ) × (log.calls ≡ pairs (suc n))
  IsStarted (failed log) = Unit
  IsStarted panicked = Unit

  publish-IsStarted :
      (log : Log bus rt) (props : Props bus)
      → IsStarted (listening log)
      → IsStarted (publish bus rt log props)
  unfolding publish
  publish-IsStarted log props h = elim (Outcome-cases (build_advertisement bus rt props)) [
    | inl e ↦ rw (publish, e) tt
    | inr (none, e) ↦ rw (publish, e) h
    | inr (some a, e) ↦ rw (publish, e) h
  ]

  publish_some-IsStarted :
      (log : Log bus rt) (props : Option (Props bus))
      → IsStarted (listening log)
      → IsStarted (publish_some bus rt log props)
  unfolding publish_some
  publish_some-IsStarted log none h = h
  publish_some-IsStarted log (some props) h = publish-IsStarted log props h

  restart-pairs :
      (log : Log bus rt) (adapter : Adapter) (n : ℕ)
      → log.calls ≡ pairs n
      → IsStarted (restart bus rt log adapter)
  unfolding restart
  restart-pairs log adapter n h = elim (Bool-cases ((try_start_discovery adapter).0)) [
    | inr no_start ↦ rw (restart, no_start) tt
    | inl ok ↦
        rw (restart, ok, try_start_discovery-calls adapter ok)
          (n, ap (λ (t : List Call). t ++ one_start) h)
  ]

  adapter_step-IsStarted :
      (log : Log bus rt) (interface : Bytes) (changed : Props bus) (adapter : Adapter)
      → IsStarted (listening log)
      → IsStarted (adapter_step bus rt log interface changed adapter)
  unfolding adapter_step
  adapter_step-IsStarted log interface changed adapter (n, h) =
      if_holds IsStarted (bytes_eq interface (codes "org.bluez.Adapter1")) _ _
        (turned (discovering bus rt changed)) (n, h)
    where
      turned :
          (is_discovering : Option Bool)
          → IsStarted (elim is_discovering [
            | none ↦ listening log
            | some true ↦ listening log
            | some false ↦ restart bus rt log adapter
          ])
      turned none = (n, h)
      turned (some true) = (n, h)
      turned (some false) = restart-pairs log adapter (suc n) h

  listen_step-IsStarted :
      (log : Log bus rt) (signal : Signal bus rt)
      → IsStarted (listening log)
      → IsStarted (listen_step bus rt log signal)
  unfolding listen_step
  listen_step-IsStarted log (adapter_changed interface changed adapter) h =
      adapter_step-IsStarted log interface changed adapter h
  listen_step-IsStarted log adapter_body_error h = tt
  listen_step-IsStarted log adapter_none h = h
  listen_step-IsStarted log (device_changed none) h = h
  listen_step-IsStarted log (device_changed (some device)) h =
      publish_some-IsStarted log (get_device_properties device) h
  listen_step-IsStarted log device_error h = tt
  listen_step-IsStarted log device_end h = h
  listen_step-IsStarted log (interfaces_added props) h = publish_some-IsStarted log props h
  listen_step-IsStarted log interfaces_body_error h = tt
  listen_step-IsStarted log interfaces_error h = tt
  listen_step-IsStarted log interfaces_end h = h

  listen-IsStarted :
      (state : Listening bus rt) (signals : List (Signal bus rt))
      → IsStarted state
      → IsStarted (listen bus rt state signals)
  unfolding listen
  listen-IsStarted state [] h = h
  listen-IsStarted (listening log) (signal ∷ signals) h =
      listen-IsStarted (listen_step bus rt log signal) signals (listen_step-IsStarted log signal h)
  listen-IsStarted (failed log) (signal ∷ signals) h = tt
  listen-IsStarted panicked (signal ∷ signals) h = tt

  -- As long as the listener goes on, discovery has been started: the calls that it has made are pairs
  -- of the filter and the start, one at least, and the filter asks for repeated advertisements.
  pub run-IsStarted :
      (streams : Streams) (adapter : Adapter) (signals : List (Signal bus rt))
      → IsStarted (run_bluez_advertisement_listener bus rt streams adapter signals)
  unfolding run_bluez_advertisement_listener
  run-IsStarted streams adapter signals =
      if_holds IsStarted (is_open streams) _ _
        (listen-IsStarted _ signals
          (restart-pairs (record { advertised = []; calls = [] }) adapter 0 refl))
        tt
