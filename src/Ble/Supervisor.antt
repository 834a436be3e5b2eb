-- ===== src/Ble/Supervisor.antt =====
-- src/ble.rs: `run_supervised`, which restarts the listener whenever it returns.
use linux_bt_proxy.Prelude.{
  ℕ, suc, ◌*◌, ◌/◌, ◌^◌, ◌≤◌, ◌≡◌, refl, ap, Bool, List, [], ◌∷◌, ◌++◌, Bytes, All, min, leb,
  if◌then◌else◌, inl, inr, Bool-cases, arith,
}
use linux_bt_proxy.Prelude.Bits.{pow_pos}
use linux_bt_proxy.Text.{codes, decimal}
use native.Mathlib.Nat.{pow-suc}

-- A `Duration` in nanoseconds.
abbrev pub second : ℕ
second = 10 ^ 9

abbrev pub initial_backoff : ℕ
initial_backoff = 1 * second

abbrev pub max_backoff : ℕ
max_backoff = 30 * second

abbrev pub healthy_run_threshold : ℕ
healthy_run_threshold = 60 * second

-- How a run of the listener went: whether it returned `Ok`, which only the log tells apart, and how long
-- it lasted; or a panic, which ends the supervisor's task with it.
pub data Run : Type 0 where
  returned : Bool → ℕ → Run
  panicked : Run

-- What systemd is told, and how long the loop then sleeps.
pub record Retry : Type 0 where
  pub status : Bytes
  pub slept : ℕ

-- How long the loop sleeps after a run of the listener, and the backoff of the next round.
unfoldable pub sleep_after : ℕ → ℕ → ℕ
sleep_after backoff ran_for = if leb healthy_run_threshold ran_for then initial_backoff else backoff

unfoldable pub next_backoff : ℕ → ℕ
next_backoff slept = min (slept * 2) max_backoff

-- `format!("BLE listener down, retrying in {}s", backoff.as_secs())`
unfoldable pub down_status : ℕ → Bytes
unfolding decimal
down_status backoff =
    codes "BLE listener down, retrying in " ++ decimal (backoff / second) ++ codes "s"

-- The rounds of the loop, for the runs of the listener.
unfoldable pub supervise : ℕ → List Run → List Retry
unfolding sleep_after next_backoff down_status
supervise backoff [] = []
supervise backoff (panicked ∷ runs) = []
supervise backoff (returned ok ran_for ∷ runs) =
    let slept = sleep_after backoff ran_for in
    record { status = down_status slept; slept = slept } ∷ supervise (next_backoff slept) runs

unfoldable pub run_supervised : List Run → List Retry
unfolding supervise
run_supervised runs = supervise initial_backoff runs

-- The seconds to sleep after the run that is `place` runs behind the start of its row.
abbrev pub delay : ℕ → ℕ
delay place = min (2 ^ place) 30

-- The place of a run in its row: a run of a minute or more starts a new one.
abbrev pub row : ℕ → ℕ → ℕ
row place ran_for = if leb healthy_run_threshold ran_for then 0 else place

-- The retry that takes so many seconds.
abbrev pub retry_in : ℕ → Retry
retry_in seconds = record {
  status = codes "BLE listener down, retrying in " ++ decimal seconds ++ codes "s";
  slept = seconds * second;
}

pub schedule : ℕ → List Run → List Retry
schedule place [] = []
schedule place (panicked ∷ runs) = []
schedule place (returned ok ran_for ∷ runs) =
    let here = row place ran_for in retry_in (delay here) ∷ schedule (suc here) runs

next_backoff-delay : (place : ℕ) → next_backoff (delay place * second) ≡ delay (suc place) * second
unfolding next_backoff
next_backoff-delay place = omega (arith, pow-suc 2 place, pow_pos place)

sleep_after-delay :
    (place ran_for : ℕ)
    → sleep_after (delay place * second) ran_for ≡ delay (row place ran_for) * second
unfolding sleep_after
sleep_after-delay place ran_for = elim (Bool-cases (leb healthy_run_threshold ran_for)) [
  | inl healthy ↦ rw healthy refl
  | inr short ↦ rw short refl
]

-- A whole number of seconds is what the status says.
retry_whole :
    (seconds : ℕ)
    → (let r : Retry = record {
      status = down_status (seconds * second);
      slept = seconds * second;
    } in
        r ≡ retry_in seconds)
unfolding down_status
retry_whole seconds =
    ap
      (λ n.
        let r : Retry = record {
          status = codes "BLE listener down, retrying in " ++ decimal n ++ codes "s";
          slept = seconds * second;
        } in
        r)
      (let e : seconds * second / second ≡ seconds = omega arith in e)

supervise-schedule :
    (place : ℕ) (runs : List Run) → supervise (delay place * second) runs ≡ schedule place runs
unfolding supervise schedule
supervise-schedule place [] = refl
supervise-schedule place (panicked ∷ runs) = refl
supervise-schedule place (returned ok ran_for ∷ runs) =
    rw
      (
        sleep_after-delay place ran_for,
        next_backoff-delay (row place ran_for),
        retry_whole (delay (row place ran_for)),
      )
      (ap (λ rest. retry_in (delay (row place ran_for)) ∷ rest)
        (supervise-schedule (suc (row place ran_for)) runs))

-- The listener is restarted after every run that returned, however it did, until one panics. The sleep
-- before is two to the power of `k` seconds, and 30 seconds at most, where `k` says how many runs have come
-- since the last one of a minute or more, or since the first if there was none such: so one second after
-- that one, and two after the next. The status names just these seconds.
pub run_supervised-schedule : (runs : List Run) → run_supervised runs ≡ schedule 0 runs
unfolding run_supervised
run_supervised-schedule runs = supervise-schedule 0 runs

-- So every sleep lasts between one and thirty seconds.
pub schedule-bounds :
    (place : ℕ) (runs : List Run)
    → All (λ r. (initial_backoff ≤ r.slept) × (r.slept ≤ max_backoff)) (schedule place runs)
unfolding schedule
schedule-bounds place [] = tt
schedule-bounds place (panicked ∷ runs) = tt
schedule-bounds place (returned ok ran_for ∷ runs) = (
  (omega (arith, pow_pos (row place ran_for)), omega arith),
  schedule-bounds (suc (row place ran_for)) runs,
)
