-- ===== src/Start/Service.antt =====
-- src/main.rs: what the program tells systemd once it serves, its watchdog, and how it ends.
use linux_bt_proxy.Prelude.{
  ℕ, zero, suc, map, ◌+◌, ◌*◌, ◌/◌, ◌≤◌, ◌<◌, ◌≡◌, ap, ◌∙◌, true, false, inl, inr, Option, none,
  some, List, [], ◌∷◌, ◌++◌, Bytes, arith,
}
use native.Mathlib.Nat.{suc-mul, lt-div-mul-add, div-mul-le_self}
use linux_bt_proxy.Text.{codes}
use linux_bt_proxy.Context.{ProxyContext}
use linux_bt_proxy.Net.{Net}
use linux_bt_proxy.Proto.Frame.{BytesMut}
use linux_bt_proxy.Api.Runtime.{Protobuf}
use linux_bt_proxy.Server.Accept.{
  Arrival, accept_error, Accepting, accepting, stopped, accept_step, run_tcp_server,
}
use linux_bt_proxy.Server.Accept.Alone.{serve-append, serve-stopped, Accepting-cases}
use linux_bt_proxy.Ble.Supervisor.{Run, run_supervised, schedule}
use linux_bt_proxy.Start.{Environment, Start, exit, panic, serves}

-- `sd_notify::NotifyState`; a failure to notify is not looked at.
pub data Notify : Type 0 where
  ready : Notify
  status : Bytes → Notify

-- `tokio::time::interval`: the nanoseconds after its creation at which its ticks are due, or a panic.
-- Documented: a period of zero panics; the first tick is due at once, and each other a period after the one
-- before it.
pub record Interval : Type 0 where
  pub interval : ℕ → Option (ℕ → ℕ)
  pub interval-zero : interval 0 ≡ none
  pub interval-period :
      (period : ℕ)
      → 0 < period
      → (ticks : ℕ → ℕ) × (interval period ≡ some ticks) × ((k : ℕ) → ticks k ≡ k * period)

-- The task that pings the watchdog at each tick.
pub data Watchdog : Type 0 where
  unwatched : Watchdog
  pings : (ℕ → ℕ) → Watchdog
  panicked : Watchdog

-- What runs beside the server, and what systemd has been told when it starts.
pub record Service : Type 0 where
  pub ctx : ProxyContext
  pub notified : List Notify
  pub watchdog : Watchdog

pub data Running : Type 0 where
  ended : Running
  crashed : Running
  runs : Service → Running

-- A server that has stopped with an error ends the program.
unfoldable pub end_main : {net : Net} → Running → Accepting net → Running
end_main ended server = ended
end_main crashed server = crashed
end_main (runs service) (accepting tasks) = runs service
end_main (runs service) stopped = ended

module _ (lib : Interval) where
  -- `watchdog_enabled()` gives the timeout, in nanoseconds, if systemd has set one.
  unfoldable pub watch : Option ℕ → Watchdog
  watch none = unwatched
  watch (some timeout) = elim (lib.interval (timeout / 2)) [
    | none ↦ panicked
    | some ticks ↦ pings ticks
  ]

  -- The supervisor was spawned before: it may have told of runs of the listener that have ended by then,
  -- the second argument.
  unfoldable pub run_service : Option ℕ → List Run → Start → Running
  unfolding watch run_supervised
  run_service timeout down exit = ended
  run_service timeout down panic = crashed
  run_service timeout down (serves ctx) = runs (record {
    ctx = ctx;
    notified =
        map (λ r. status r.status) (run_supervised down)
        ++ ready ∷ status (codes "Serving ESPHome API") ∷ [];
    watchdog = watch timeout;
  })

  -- Within any time as long as the timeout there is a ping.
  abbrev pub InTime : ℕ → Watchdog → Type 0
  InTime timeout unwatched = false ≡ true
  InTime timeout panicked = false ≡ true
  InTime timeout (pings ticks) =
      (ticks 0 ≡ 0) × ((t : ℕ) → (k : ℕ) × (t < ticks k) × (ticks k ≤ t + timeout))

  between :
      (t period : ℕ)
      → 0 < period
      → (t < suc (t / period) * period) × (suc (t / period) * period ≤ t + period)
  between t period h = (
    omega (
      arith,
      suc-mul (t / period) period,
      let e : t < t / period * period + period = lt-div-mul-add h in e,
    ),
    omega (arith, suc-mul (t / period) period, div-mul-le_self t period),
  )

  -- If the systemd watchdog is on, with a timeout of two nanoseconds at least, its first ping comes at
  -- once, and from any time on the next one comes within the timeout.
  pub watch-InTime : (timeout : ℕ) → 2 ≤ timeout → InTime timeout (watch (some timeout))
  unfolding watch
  watch-InTime timeout h =
      let (ticks, e, at_k) = lib.interval-period (timeout / 2) (omega arith) in
      rw (InTime, e)
        (
          omega (arith, at_k 0),
          λ t.
              let (above, below) = between t (timeout / 2) (omega arith) in
              (
                suc (t / (timeout / 2)),
                omega (arith, above, at_k (suc (t / (timeout / 2)))),
                omega (arith, below, at_k (suc (t / (timeout / 2)))),
              ),
        )

  -- Without a timeout there is no watchdog; one below two nanoseconds has its task panic.
  abbrev pub IsWatched : Option ℕ → Watchdog → Type 0
  IsWatched none w = w ≡ unwatched
  IsWatched (some zero) w = w ≡ panicked
  IsWatched (some (suc zero)) w = w ≡ panicked
  IsWatched (some (suc (suc n))) w = InTime (suc (suc n)) w

module _ (env : Environment) where
  -- The server is only reached with all that it needs.
  IsUp : Start → Type 0
  IsUp exit = Unit
  IsUp panic = Unit
  IsUp (serves ctx) = (env.bus ≡ true) × (env.mdns ≡ true) × (env.socket ≡ true)

  -- What systemd has been told when the program starts to serve.
  abbrev pub told : List Run → List Notify
  told down =
      map (λ r. status r.status) (schedule 0 down)
      ++ ready ∷ status (codes "Serving ESPHome API") ∷ []

-- An error of `accept()` ends the program, whatever came before it, with all the clients that it serves.
pub end_main-accept_error :
    (lib : BytesMut) (net : Net) (rt : Protobuf) (ctx : ProxyContext) (service : Service)
    (before after : List (Arrival net rt))
    → end_main
        (runs service)
        (run_tcp_server lib net rt ctx (accepting []) (before ++ accept_error ∷ after))
      ≡ ended
unfolding end_main run_tcp_server accept_step
end_main-accept_error lib net rt ctx service before after = ap (end_main (runs service)) (
    serve-append lib net rt ctx (accepting []) before (accept_error ∷ after)
    ∙ elim (Accepting-cases lib net rt ctx (run_tcp_server lib net rt ctx (accepting []) before)) [
      | inl stops ↦
          ap (λ state. run_tcp_server lib net rt ctx state (accept_error ∷ after)) stops
          ∙ serve-stopped lib net rt ctx (accept_error ∷ after)
      | inr (tasks, goes) ↦
          ap (λ state. run_tcp_server lib net rt ctx state (accept_error ∷ after)) goes
          ∙ serve-stopped lib net rt ctx after
    ])
