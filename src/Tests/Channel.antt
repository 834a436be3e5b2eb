-- ===== src/Tests/Channel.antt =====
-- A broadcast channel that keeps all that was sent, and knows how much of it its receivers may still
-- have.
use linux_bt_proxy.Prelude.{
  ℕ, suc, ◌+◌, ◌-◌, ◌<◌, ◌≡◌, refl, Bool-cases, inl, inr, Option, none, some, List, [], ◌∷◌, ◌++◌,
  length, ltb, ◌==◌, if◌then◌else◌, arith,
}
use mathlib.Core.Path.{subst}
use linux_bt_proxy.Broadcast.{Broadcast, Recv, value, lags, no_sender, waits}
use linux_bt_proxy.Server.Accept.{get_elem?}

abbrev pub Kept : Type 0 → Type 0
Kept A = ℕ × List A

-- The value at a position; no receiver is past the end.
abbrev pub next : {A : Type 0} → List A → ℕ → Option A → Recv A × ℕ
next xs p (some a) = (value a, suc p)
next xs p none = if p == length xs then (waits, p) else (no_sender, p)

abbrev pub recv : {A : Type 0} → Kept A → ℕ → Recv A × ℕ
recv (room, xs) p =
    if ltb (p + room) (length xs)
    then (lags (length xs - room - p), length xs - room)
    else next xs p (get_elem? xs p)

-- What each result says.
abbrev pub Says : {A : Type 0} → Kept A → ℕ → Recv A × ℕ → Type 0
Says (room, xs) p (value a, p') = (get_elem? xs p ≡ some a) × (p' ≡ suc p)
Says (room, xs) p (lags n, p') = (p + room < length xs) × (p' ≡ p + n)
Says (room, xs) p (no_sender, p') = p' ≡ p
Says (room, xs) p (waits, p') = (p ≡ length xs) × (p' ≡ p)

next-Says :
    {A : Type 0} (room : ℕ) (xs : List A) (p : ℕ) (o : Option A)
    → get_elem? xs p ≡ o
    → Says (room, xs) p (next xs p o)
next-Says room xs p (some a) e = (e, refl)
next-Says room xs p none e = elim (Bool-cases (p == length xs)) [
  | inl here ↦ rw here (ground arith, refl)
  | inr not_here ↦ rw not_here refl
]

recv-Says : {A : Type 0} (c : Kept A) (p : ℕ) → Says c p (recv c p)
recv-Says (room, xs) p = elim (Bool-cases (ltb (p + room) (length xs))) [
  | inl far ↦ rw far (ground arith, ground arith)
  | inr near ↦ rw near (next-Says room xs p (get_elem? xs p) refl)
]

pub says :
    {A : Type 0} (c : Kept A) (p : ℕ) {given : Recv A × ℕ} → recv c p ≡ given → Says c p given
says c p e = subst (Says c p) e (recv-Says c p)

abbrev pub broadcast : (A : Type 0) → Broadcast A
broadcast A = record {
  Channel = Kept A;
  Receiver = ℕ;
  channel = λ n. ((n, []), 0);
  send = λ a c. (c.0, c.1 ++ a ∷ []);
  resubscribe = λ c r. length (c.1);
  recv = recv;
  sent = λ c. c.1;
  position = λ r. r;
  capacity = λ c. c.0;
  sent-channel = λ n. refl;
  sent-send = λ a c. refl;
  capacity-channel = λ n. omega arith;
  capacity-send = λ a c. refl;
  position-resubscribe = λ c r. refl;
  recv-value = λ c r r' a e. says c r e;
  recv-lags = λ c r r' n e. says c r e;
  recv-no_sender = λ c r r' e. says c r e;
  recv-waits = λ c r r' e. says c r e;
}
