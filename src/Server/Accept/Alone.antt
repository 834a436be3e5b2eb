-- ===== src/Server/Accept/Alone.antt =====
-- The clients of `run_tcp_server` (src/server.rs) beside each other.
use linux_bt_proxy.Prelude.{
  ℕ, zero, suc, ◌+◌, ◌≡◌, ◌≢◌, refl, sym, ap, ◌∙◌, Bool, ◌⊎◌, and_then, ==_iff, some, List, [], ◌∷◌,
  ◌++◌, length, length-append, arith, Bool-cases, inl, inr, ◌==◌, true, false,
}
use linux_bt_proxy.Context.{ProxyContext}
use linux_bt_proxy.Proto.Frame.{BytesMut}
use linux_bt_proxy.Net.{Net}
use linux_bt_proxy.Api.Runtime.{Protobuf}
use linux_bt_proxy.Server.{
  Event, Served, serving, closed, failed, panicked, stuck, run, handle_client,
}
use linux_bt_proxy.Server.Accept.{
  Arrival, accepted, accept_error, at_client, Accepting, accepting, stopped, at, get_elem?,
  accept_step, run_tcp_server, events_of, connections,
}

pub get_elem-front :
    {A : Type 0} (xs ys : List A) (k : ℕ) {x : A}
    → get_elem? xs k ≡ some x
    → get_elem? (xs ++ ys) k ≡ some x
get_elem-front [] ys k e = cc
get_elem-front (x ∷ xs) ys zero e = e
get_elem-front (x ∷ xs) ys (suc k) e = get_elem-front xs ys k e

pub get_elem-new :
    {A : Type 0} (xs : List A) (x : A) → get_elem? (xs ++ x ∷ []) (length xs) ≡ some x
get_elem-new [] x = refl
get_elem-new (y ∷ xs) x = get_elem-new xs x

pub get_elem-hit :
    {A : Type 0} (f : A → A) (k : ℕ) (xs : List A) {x : A}
    → get_elem? xs k ≡ some x
    → get_elem? (at f k xs) k ≡ some (f x)
get_elem-hit f k [] e = cc
get_elem-hit f zero (y ∷ xs) e = ap (λ o. and_then o (λ x. some (f x))) e
get_elem-hit f (suc k) (y ∷ xs) e = get_elem-hit f k xs e

pub get_elem-miss :
    {A : Type 0} (f : A → A) (j k : ℕ) (xs : List A)
    → j ≢ k
    → get_elem? (at f j xs) k ≡ get_elem? xs k
get_elem-miss f j k [] h = refl
get_elem-miss f zero zero (y ∷ xs) h = absurd (h refl)
get_elem-miss f zero (suc k) (y ∷ xs) h = refl
get_elem-miss f (suc j) zero (y ∷ xs) h = refl
get_elem-miss f (suc j) (suc k) (y ∷ xs) h = get_elem-miss f j k xs (λ e. h (ap suc e))

pub length-at : {A : Type 0} (f : A → A) (j : ℕ) (xs : List A) → length (at f j xs) ≡ length xs
length-at f j [] = refl
length-at f zero (x ∷ xs) = refl
length-at f (suc j) (x ∷ xs) = ap suc (length-at f j xs)

module _ (lib : BytesMut) (net : Net) (rt : Protobuf) (ctx : ProxyContext) where
  abbrev serve : Accepting net → List (Arrival net rt) → Accepting net
  serve = run_tcp_server lib net rt ctx

  pub serve-stopped : (arrivals : List (Arrival net rt)) → serve stopped arrivals ≡ stopped
  unfolding run_tcp_server accept_step
  serve-stopped [] = refl
  serve-stopped (arrival ∷ arrivals) = serve-stopped arrivals

  -- A task goes on from where it is.
  run-next :
      (task : Served net) (event : Event rt) (events : List (Event rt))
      → run lib net rt ctx (run lib net rt ctx task (event ∷ [])) events
        ≡ run lib net rt ctx task (event ∷ events)
  unfolding run
  run-next (serving c) event events = refl
  run-next (closed s) event [] = refl
  run-next (closed s) event (e ∷ events) = refl
  run-next (failed s) event [] = refl
  run-next (failed s) event (e ∷ events) = refl
  run-next panicked event [] = refl
  run-next panicked event (e ∷ events) = refl
  run-next stuck event [] = refl
  run-next stuck event (e ∷ events) = refl

  tasks_of : Accepting net → List (Served net)
  tasks_of (accepting tasks) = tasks
  tasks_of stopped = []

  is_accepting : Accepting net → Bool
  is_accepting (accepting tasks) = true
  is_accepting stopped = false

  no_error :
      (arrivals : List (Arrival net rt)) {tasks : List (Served net)}
      → serve stopped arrivals ≢ accepting tasks
  unfolding is_accepting
  no_error arrivals e =
      let q : false ≡ true = ap is_accepting (sym (serve-stopped arrivals) ∙ e) in cc

  -- What a task does is what its own events make of it.
  serve-task :
      (arrivals : List (Arrival net rt)) (k : ℕ) (tasks tasks' : List (Served net))
      {task : Served net}
      → get_elem? tasks k ≡ some task
      → serve (accepting tasks) arrivals ≡ accepting tasks'
      → get_elem? tasks' k ≡ some (run lib net rt ctx task (events_of k arrivals))
  unfolding run_tcp_server accept_step run tasks_of
  serve-task [] k tasks tasks' e f = ap (λ ts. get_elem? (tasks_of ts) k) (sym f) ∙ e
  serve-task (accepted s ∷ arrivals) k tasks tasks' e f =
      serve-task arrivals k (tasks ++ handle_client lib net rt ctx s [] ∷ []) tasks'
        (get_elem-front tasks _ k e) f
  serve-task (accept_error ∷ arrivals) k tasks tasks' e f = absurd (no_error arrivals f)
  serve-task (at_client j event ∷ arrivals) k tasks tasks' {task} e f =
      let next : Served net → Served net = λ task. run lib net rt ctx task (event ∷ []) in
      elim (Bool-cases (j == k)) [
        | inl same ↦
            let q : j ≡ k = (==_iff j k).0 same in
            rw same (
              serve-task arrivals k (at next j tasks) tasks'
                (ap (λ i. get_elem? (at next i tasks) k) q ∙ get_elem-hit next k tasks e) f
              ∙ ap some (run-next task event (events_of k arrivals)))
        | inr other ↦ rw other (
            serve-task arrivals k (at next j tasks) tasks'
              (get_elem-miss next j k tasks
                  (λ q. let r : true ≡ false = (sym ((==_iff j k).1 q) ∙ other) in cc)
                ∙ e)
              f)
      ]

  length-tasks :
      (arrivals : List (Arrival net rt)) (tasks tasks' : List (Served net))
      → serve (accepting tasks) arrivals ≡ accepting tasks'
      → length tasks' ≡ length tasks + connections arrivals
  unfolding run_tcp_server accept_step tasks_of
  length-tasks [] tasks tasks' f = omega (arith, ap (λ ts. length (tasks_of ts)) f)
  length-tasks (accepted s ∷ arrivals) tasks tasks' f = omega (
    arith,
    length-tasks arrivals (tasks ++ handle_client lib net rt ctx s [] ∷ []) tasks' f,
    length-append tasks (handle_client lib net rt ctx s [] ∷ []),
  )
  length-tasks (accept_error ∷ arrivals) tasks tasks' f = absurd (no_error arrivals f)
  length-tasks (at_client j event ∷ arrivals) tasks tasks' f =
      length-tasks arrivals (at (λ task. run lib net rt ctx task (event ∷ [])) j tasks) tasks' f
      ∙ ap (λ n. n + connections arrivals) (length-at _ j tasks)

  pub serve-append :
      (state : Accepting net) (xs ys : List (Arrival net rt))
      → serve state (xs ++ ys) ≡ serve (serve state xs) ys
  unfolding run_tcp_server
  serve-append state [] ys = refl
  serve-append state (x ∷ xs) ys = serve-append (accept_step lib net rt ctx state x) xs ys

  pub Accepting-cases :
      (state : Accepting net)
      → (state ≡ stopped) ⊎ ((tasks : List (Served net)) × (state ≡ accepting tasks))
  Accepting-cases stopped = inl refl
  Accepting-cases (accepting tasks) = inr (tasks, refl)

  -- While connections are accepted, the task of each is where `handle_client` would be with the events of
  -- its own client since then, whatever the others do and however their rounds come between.
  pub run_tcp_server-alone :
      (before after : List (Arrival net rt)) (s : net.Stream) (tasks : List (Served net))
      → run_tcp_server lib net rt ctx (accepting []) (before ++ accepted s ∷ after)
        ≡ accepting tasks
      → get_elem? tasks (connections before)
        ≡ some (handle_client lib net rt ctx s (events_of (connections before) after))
  unfolding run_tcp_server accept_step handle_client run
  run_tcp_server-alone before after s tasks e =
      let split = serve-append (accepting []) before (accepted s ∷ after) in
      elim (Accepting-cases (serve (accepting []) before)) [
        | inl stops ↦ absurd (
            no_error after
              (ap (λ state. serve state (accepted s ∷ after)) (sym stops) ∙ sym split ∙ e))
        | inr (tasks0, goes) ↦
            let task = handle_client lib net rt ctx s [] in
            let q : length tasks0 ≡ connections before =
              omega (arith, length-tasks before [] tasks0 goes) in
            serve-task after (connections before) (tasks0 ++ task ∷ []) tasks
              (ap (λ k. get_elem? (tasks0 ++ task ∷ []) k) (sym q) ∙ get_elem-new tasks0 task)
              (ap (λ state. serve state (accepted s ∷ after)) (sym goes) ∙ sym split ∙ e)
      ]
