-- ===== src/Broadcast.antt =====
-- What the program uses of `tokio::sync::broadcast`, the channel from the listener to the clients.
use linux_bt_proxy.Prelude.{ℕ, suc, ◌+◌, ◌≤◌, ◌<◌, ◌≡◌, some, List, [], ◌∷◌, ◌++◌, length}
use linux_bt_proxy.Server.Accept.{get_elem?}

-- What `recv()` gives: a value, `Lagged(n)`, `Closed`, or nothing yet.
pub data Recv (A : Type 0) : Type 0 where
  value : A → Recv A
  lags : ℕ → Recv A
  no_sender : Recv A
  waits : Recv A

-- The documented behaviour, by the values that were sent so far and the number of them that a receiver
-- is past. The channel holds at least as many of the last values as its capacity; a receiver that is
-- further behind is told how many it has missed, and goes on behind them.
pub record Broadcast (A : Type 0) : Type 1 where
  pub Channel : Type 0
  pub Receiver : Type 0
  pub channel : ℕ → Channel × Receiver
  -- `Sender::send` with a receiver that is there.
  pub send : A → Channel → Channel
  pub resubscribe : Channel → Receiver → Receiver
  pub recv : Channel → Receiver → Recv A × Receiver
  pub sent : Channel → List A
  pub position : Receiver → ℕ
  pub capacity : Channel → ℕ
  pub sent-channel : (n : ℕ) → sent ((channel n).0) ≡ []
  pub sent-send : (a : A) (c : Channel) → sent (send a c) ≡ sent c ++ a ∷ []
  pub capacity-channel : (n : ℕ) → n ≤ capacity ((channel n).0)
  pub capacity-send : (a : A) (c : Channel) → capacity (send a c) ≡ capacity c
  pub position-resubscribe :
      (c : Channel) (r : Receiver) → position (resubscribe c r) ≡ length (sent c)
  pub recv-value :
      (c : Channel) (r r' : Receiver) (a : A)
      → recv c r ≡ (value a, r')
      → (get_elem? (sent c) (position r) ≡ some a) × (position r' ≡ suc (position r))
  pub recv-lags :
      (c : Channel) (r r' : Receiver) (n : ℕ)
      → recv c r ≡ (lags n, r')
      → (position r + capacity c < length (sent c)) × (position r' ≡ position r + n)
  pub recv-no_sender :
      (c : Channel) (r r' : Receiver) → recv c r ≡ (no_sender, r') → position r' ≡ position r
  pub recv-waits :
      (c : Channel) (r r' : Receiver)
      → recv c r ≡ (waits, r')
      → (position r ≡ length (sent c)) × (position r' ≡ position r)
