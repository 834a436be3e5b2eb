-- ===== src/Net.antt =====
-- What the program uses of `tokio`'s `TcpStream`, of the `log` crate's levels, and of the `protobuf`
-- crate's writer, and the results of the code that works on the stream.
use linux_bt_proxy.Prelude.{
  ◌^◌, ◌<◌, ◌≡◌, refl, ◌⊎◌, inl, inr, Bool, true, false, Option, none, some, ◌++◌, Bytes, length,
  if◌then◌else◌,
}

pub data Level : Type 0 where
  warn : Level
  info : Level
  debug : Level

-- `true` is `Ok`. `sent` is what the peer has been sent so far: a `write_all` that returns `Ok` has
-- written all of its bytes behind the others, and a shutdown writes none.
pub record Net : Type 1 where
  pub Stream : Type 0
  -- `log_enabled!`; the arguments of a message are evaluated only then.
  pub enabled : Level → Bool
  pub peer_addr : Stream → Bool
  pub write_all : Bytes → Stream → Bool × Stream
  pub shutdown : Stream → Bool × Stream
  -- `Message::write_to_writer` to a vector that holds the first bytes, for a message that the
  -- generated code writes as the second.
  pub write_to_vec : Bytes → Bytes → Option Bytes
  pub sent : Stream → Bytes
  pub sent-write_all :
      (bytes : Bytes) (s s' : Stream) → write_all bytes s ≡ (true, s') → sent s' ≡ sent s ++ bytes
  pub sent-shutdown : (s : Stream) → sent ((shutdown s).1) ≡ sent s
  pub write_to_vec-append :
      (out bytes : Bytes) → length bytes < 2 ^ 31 → write_to_vec out bytes ≡ some (out ++ bytes)

-- The result of code that works on the stream, and the stream it leaves.
pub data Answer (S A : Type 0) : Type 0 where
  done : A → S → Answer S A
  error : S → Answer S A

infixl 5 ◌>>=◌
abbrev pub ◌>>=◌ : {S A B : Type 0} → Answer S A → (A × S → Answer S B) → Answer S B
done a s >>= f = f (a, s)
error s >>= f = error s

pub >>=_assoc :
    {S A B C : Type 0} (m : Answer S A) (f : A × S → Answer S B) (g : B × S → Answer S C)
    → (m >>= λ r. f r >>= g) ≡ (m >>= f >>= g)
>>=_assoc (done a s) f g = refl
>>=_assoc (error s) f g = refl

pub Answer-cases :
    {S A : Type 0} (m : Answer S A)
    → ((s : S) × (m ≡ error s)) ⊎ ((a : A) × (s : S) × (m ≡ done a s))
Answer-cases (error s) = inl (s, refl)
Answer-cases (done a s) = inr (a, s, refl)

-- `?` on a result that leaves the stream alone.
abbrev pub or_error : {S A : Type 0} → S → Option A → Answer S A
or_error s none = error s
or_error s (some a) = done a s

abbrev pub checked : {S : Type 0} → Bool × S → Answer S Unit
checked (true, s) = done tt s
checked (false, s) = error s

-- The stream that is left.
abbrev pub stream_of : {S A : Type 0} → Answer S A → S
stream_of (done a s) = s
stream_of (error s) = s

module _ (net : Net) where
  open net use {Stream, enabled, peer_addr, write_all}

  -- `info!("… {}", stream.peer_addr()?.ip())` and its like
  unfoldable pub log_peer : Level → Stream → Answer Stream Unit
  log_peer level s =
      if enabled level then (if peer_addr s then done tt s else error s) else done tt s

  -- `stream.write_all(&bytes?).await?`
  unfoldable pub write_response : Option Bytes → Stream → Answer Stream Unit
  write_response none s = error s
  write_response (some bytes) s = checked (write_all bytes s)
