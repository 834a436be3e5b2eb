-- ===== src/System/Taken.antt =====
-- What a client takes of the channel while the program runs (src/main.rs, src/server.rs).
use linux_bt_proxy.Prelude.{
  ℕ, suc, ◌+◌, ◌≡◌, ◌⊎◌, refl, sym, ap, ◌∙◌, true, false, Bool-cases, ==_iff, inl, inr, Option,
  none, some, Option-cases, List, [], ◌∷◌, ◌++◌, ◌==◌,
}
use mathlib.Core.Path.{subst}
use linux_bt_proxy.Context.{ProxyContext}
use linux_bt_proxy.Proto.Frame.{BytesMut}
use linux_bt_proxy.Net.{Net}
use linux_bt_proxy.Broadcast.{Broadcast, Recv, value, lags, no_sender, waits}
use linux_bt_proxy.Api.Runtime.{Protobuf, of_option}
use linux_bt_proxy.Ble.{BleAdvertisement}
use linux_bt_proxy.Server.{Event, read_bytes, read_error, advert, lagged, channel_closed}
use linux_bt_proxy.Server.Accept.{Arrival, accepted, accept_error, at_client, get_elem?, events_of}
use linux_bt_proxy.Server.Accept.Alone.{get_elem-front, get_elem-hit, get_elem-miss}
use linux_bt_proxy.System.{
  Happening, advertises, connects, accept_fails, reads, read_fails, receives, System, taken,
  at_task, arrival_of, receivers_after,
}

-- From one position in what was sent to another, by the events of a client: each advertisement is the
-- one at the position, and a lag skips as many as it says.
abbrev pub Follows : {rt : Protobuf} → List (BleAdvertisement rt) → ℕ → List (Event rt) → ℕ → Type 0
Follows sent p [] p' = p' ≡ p
Follows sent p (advert a ∷ events) p' = (get_elem? sent p ≡ some a) × Follows sent (suc p) events p'
Follows sent p (lagged n ∷ events) p' = Follows sent (p + n) events p'
Follows sent p (read_bytes bytes ∷ events) p' = Follows sent p events p'
Follows sent p (read_error ∷ events) p' = Follows sent p events p'
Follows sent p (channel_closed ∷ events) p' = Follows sent p events p'

pub Recv-cases :
    {A : Type 0} (r : Recv A)
    → ((a : A) × (r ≡ value a)) ⊎ ((n : ℕ) × (r ≡ lags n)) ⊎ (r ≡ no_sender) ⊎ (r ≡ waits)
Recv-cases (value a) = inl (a, refl)
Recv-cases (lags n) = inr (inl (n, refl))
Recv-cases no_sender = inr (inr (inl refl))
Recv-cases waits = inr (inr (inr refl))

pub events_of-append :
    {net : Net} {rt : Protobuf} (k : ℕ) (xs ys : List (Arrival net rt))
    → events_of k (xs ++ ys) ≡ events_of k xs ++ events_of k ys
events_of-append k [] ys = refl
events_of-append k (accepted s ∷ xs) ys = events_of-append k xs ys
events_of-append k (accept_error ∷ xs) ys = events_of-append k xs ys
events_of-append k (at_client j event ∷ xs) ys = elim (Bool-cases (j == k)) [
  | inl same ↦ rw same (ap (λ l. event ∷ l) (events_of-append k xs ys))
  | inr other ↦ rw other (events_of-append k xs ys)
]

-- What comes for another client, and for the client itself.
at_task-other :
    (net : Net) {rt : Protobuf} (j k : ℕ) (o : Option (Event rt))
    → (j == k) ≡ false
    → (let arrivals : List (Arrival net rt) = at_task j o in events_of k arrivals) ≡ []
at_task-other net j k none e = refl
at_task-other net j k (some event) e = rw e refl

at_task-own :
    (net : Net) {rt : Protobuf} (k : ℕ) (o : Option (Event rt))
    → (let arrivals : List (Arrival net rt) = at_task k o in events_of k arrivals) ≡ of_option o
at_task-own net k none = refl
at_task-own net k (some event) = rw ((==_iff k k).1 refl) refl

module _ (lib : BytesMut) (net : Net) (rt : Protobuf) (ctx : ProxyContext)
    (broadcast : Broadcast (BleAdvertisement rt)) where
  open broadcast use {Channel, Receiver, recv, sent, position}

  abbrev pub Running : Type 0
  Running = System lib net rt ctx broadcast

  -- The receiver of a client behind what comes next, and the events of that: they follow what is
  -- sent up to there.
  abbrev pub Stepped : Running → Happening net rt → ℕ → Receiver → Type 0
  Stepped sys happening k r =
      (r' : Receiver) × (get_elem? (receivers_after lib net rt ctx broadcast sys happening) k
        ≡ some r')
      × ((more : List (BleAdvertisement rt)) (events : List (Event rt)) (p' : ℕ)
          → Follows (sent sys.chan ++ more) (position r') events p'
          → Follows (sent sys.chan ++ more) (position r)
              (events_of k (arrival_of lib net rt ctx broadcast sys happening) ++ events) p')

  -- A read of any client takes nothing of the channel.
  reads-Stepped :
      (chan_sent : List (BleAdvertisement rt)) (p : ℕ) (j k : ℕ) (event : Event rt)
      (events : List (Event rt)) (p' : ℕ)
      → ((es : List (Event rt)) → Follows chan_sent p (event ∷ es) p' ≡ Follows chan_sent p es p')
      → Follows chan_sent p events p'
      → (let arrivals : List (Arrival net rt) = at_client j event ∷ [] in
          Follows chan_sent p (events_of k arrivals ++ events) p')
  reads-Stepped chan_sent p j k event events p' same h = elim (Bool-cases (j == k)) [
    | inl own ↦ rw own (subst (λ T. T) (sym (same events)) h)
    | inr other ↦ rw other h
  ]

  -- What the channel gives to a receiver.
  recv-Follows :
      (c : Channel) (r : Receiver) (given : Recv (BleAdvertisement rt) × Receiver)
      → recv c r ≡ given
      → (more : List (BleAdvertisement rt)) (events : List (Event rt)) (p' : ℕ)
      → Follows (sent c ++ more) (position (given.1)) events p'
      → Follows (sent c ++ more) (position r) (of_option (taken (given.0)) ++ events) p'
  unfolding taken
  recv-Follows c r (value a, r') e more events p' h =
      let (here, next) = broadcast.recv-value c r r' a e in
      (
        get_elem-front (sent c) more (position r) here,
        subst (λ n. Follows (sent c ++ more) n events p') next h,
      )
  recv-Follows c r (lags n, r') e more events p' h =
      subst (λ n. Follows (sent c ++ more) n events p') ((broadcast.recv-lags c r r' n e).1) h
  recv-Follows c r (no_sender, r') e more events p' h =
      subst (λ n. Follows (sent c ++ more) n events p') (broadcast.recv-no_sender c r r' e) h
  recv-Follows c r (waits, r') e more events p' h =
      subst (λ n. Follows (sent c ++ more) n events p') ((broadcast.recv-waits c r r' e).1) h

  unfoldable pub events_at : Running → ℕ → ℕ → List (Event rt)
  events_at sys j k = events_of k (arrival_of lib net rt ctx broadcast sys (receives j))

  pub events_at-own :
      (sys : Running) (k : ℕ) (r : Receiver)
      → get_elem? sys.receivers k ≡ some r
      → events_at sys k k ≡ of_option (taken ((recv sys.chan r).0))
  unfolding events_at arrival_of
  events_at-own sys k r e =
      rw (events_at, arrival_of, e) (at_task-own net k (taken ((recv sys.chan r).0)))

  pub events_at-other : (sys : Running) (j k : ℕ) → (j == k) ≡ false → events_at sys j k ≡ []
  unfolding events_at arrival_of
  events_at-other sys j k other = elim (Option-cases (get_elem? sys.receivers j)) [
    | inl gone ↦ rw (events_at, arrival_of, gone) refl
    | inr (r, there) ↦
        rw (events_at, arrival_of, there)
          (at_task-other net j k (taken ((recv sys.chan r).0)) other)
  ]

  -- The client's own receiver, and that of another.
  receives-Stepped :
      (sys : Running) (k : ℕ) (r : Receiver)
      → get_elem? sys.receivers k ≡ some r
      → Stepped sys (receives k) k r
  unfolding receivers_after events_at
  receives-Stepped sys k r e = (
    (recv sys.chan r).1,
    get_elem-hit (λ r. (recv sys.chan r).1) k sys.receivers e,
    λ more events p' h.
        subst (λ es. Follows (sent sys.chan ++ more) (position r) (es ++ events) p')
          (sym (events_at-own sys k r e))
          (recv-Follows sys.chan r (recv sys.chan r) refl more events p' h),
  )

  other-Stepped :
      (sys : Running) (j k : ℕ) (r : Receiver)
      → (j == k) ≡ false
      → get_elem? sys.receivers k ≡ some r
      → Stepped sys (receives j) k r
  unfolding receivers_after events_at
  other-Stepped sys j k r other e = (
    r,
    get_elem-miss (λ r. (recv sys.chan r).1) j k sys.receivers
          (λ q. let same : true ≡ false = sym ((==_iff j k).1 q) ∙ other in cc)
        ∙ e,
    λ more events p' h.
        subst (λ es. Follows (sent sys.chan ++ more) (position r) (es ++ events) p')
          (sym (events_at-other sys j k other)) h,
  )

  pub step-Stepped :
      (sys : Running) (happening : Happening net rt) (k : ℕ) (r : Receiver)
      → get_elem? sys.receivers k ≡ some r
      → Stepped sys happening k r
  unfolding arrival_of receivers_after
  step-Stepped sys (advertises a) k r e = (r, e, λ more events p' h. h)
  step-Stepped sys (connects s) k r e =
      (r, get_elem-front sys.receivers _ k e, λ more events p' h. h)
  step-Stepped sys accept_fails k r e = (r, e, λ more events p' h. h)
  step-Stepped sys (reads j bytes) k r e = (
    r,
    e,
    λ more events p' h.
        reads-Stepped (sent sys.chan ++ more) (position r) j k (read_bytes bytes) events p'
          (λ es. refl) h,
  )
  step-Stepped sys (read_fails j) k r e = (
    r,
    e,
    λ more events p' h.
        reads-Stepped (sent sys.chan ++ more) (position r) j k read_error events p' (λ es. refl) h,
  )
  step-Stepped sys (receives j) k r e = elim (Bool-cases (j == k)) [
    | inl own ↦
        subst (λ i. Stepped sys (receives i) k r) (sym ((==_iff j k).0 own))
          (receives-Stepped sys k r e)
    | inr other ↦ other-Stepped sys j k r other e
  ]
