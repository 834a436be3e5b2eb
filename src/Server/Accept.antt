-- ===== src/Server/Accept.antt =====
-- `run_tcp_server` (src/server.rs): the connections that are accepted, each served by a task of its own,
-- and the tasks' rounds in any order.
pub mod Alone
use linux_bt_proxy.Prelude.{
  ℕ, zero, suc, ◌+◌, ◌≡◌, ◌≢◌, refl, sym, ap, ◌∙◌, Option, none, some, List, [], ◌∷◌, ◌++◌,
  append_assoc, length, length-append, arith, ◌==◌, if◌then◌else◌,
}
use linux_bt_proxy.Context.{ProxyContext}
use linux_bt_proxy.Proto.Frame.{BytesMut}
use linux_bt_proxy.Net.{Net}
use linux_bt_proxy.Api.Runtime.{Protobuf}
use linux_bt_proxy.Server.{
  Event, Served, serving, closed, failed, panicked, stuck, run, handle_client,
}

-- What comes next: a connection, an error of `accept()`, or an event for the task of a client, by the
-- client's number in the order of acceptance.
pub data Arrival (net : Net) (rt : Protobuf) : Type 0 where
  accepted : net.Stream → Arrival net rt
  accept_error : Arrival net rt
  at_client : ℕ → Event rt → Arrival net rt

-- The tasks, or the loop left by `?`, after which src/main.rs exits.
pub data Accepting (net : Net) : Type 0 where
  accepting : List (Served net) → Accepting net
  stopped : Accepting net

-- The task of one number.
abbrev pub at {ℓ} : {A : Type ℓ} → (A → A) → ℕ → List A → List A
at f k [] = []
at f zero (x ∷ xs) = f x ∷ xs
at f (suc k) (x ∷ xs) = x ∷ at f k xs

abbrev pub get_elem? {ℓ} : {A : Type ℓ} → List A → ℕ → Option A
get_elem? [] k = none
get_elem? (x ∷ xs) zero = some x
get_elem? (x ∷ xs) (suc k) = get_elem? xs k

module _ (lib : BytesMut) (net : Net) (rt : Protobuf) (ctx : ProxyContext) where
  unfoldable pub accept_step : Accepting net → Arrival net rt → Accepting net
  unfolding handle_client run
  accept_step stopped arrival = stopped
  accept_step (accepting tasks) accept_error = stopped
  accept_step (accepting tasks) (accepted s) =
      accepting (tasks ++ handle_client lib net rt ctx s [] ∷ [])
  accept_step (accepting tasks) (at_client k event) =
      accepting (at (λ task. run lib net rt ctx task (event ∷ [])) k tasks)

  unfoldable pub run_tcp_server : Accepting net → List (Arrival net rt) → Accepting net
  unfolding accept_step
  run_tcp_server state [] = state
  run_tcp_server state (arrival ∷ arrivals) = run_tcp_server (accept_step state arrival) arrivals

-- The events of one client, and how many connections there were.
abbrev pub events_of : {net : Net} {rt : Protobuf} → ℕ → List (Arrival net rt) → List (Event rt)
events_of k [] = []
events_of k (accepted s ∷ arrivals) = events_of k arrivals
events_of k (accept_error ∷ arrivals) = events_of k arrivals
events_of k (at_client j event ∷ arrivals) =
    let later = events_of k arrivals in if j == k then event ∷ later else later

abbrev pub connections : {net : Net} {rt : Protobuf} → List (Arrival net rt) → ℕ
connections [] = 0
connections (accepted s ∷ arrivals) = 1 + connections arrivals
connections (accept_error ∷ arrivals) = connections arrivals
connections (at_client j event ∷ arrivals) = connections arrivals
