-- ===== src/Server/Total.antt =====
-- The inner loop of `handle_client` (src/server.rs): the rounds that its model is given are enough.
use linux_bt_proxy.Prelude.{
  ℕ, zero, suc, ◌^◌, ◌<◌, ◌≡◌, ◌≢◌, ◌⊎◌, refl, sym, take, take-drop, none, some, [], ◌∷◌, ◌++◌,
  Bytes, IsByte, IsBytes, All-drop, length, length-drop, inl, inr, arith,
}
use linux_bt_proxy.Prelude.Outcome.{Outcome, returns, panics}
use linux_bt_proxy.Context.{ProxyContext}
use linux_bt_proxy.Proto.Frame.{BytesMut, Next, next_message}
use linux_bt_proxy.Proto.Frame.Progress.{Leaves, next_message-Leaves}
use linux_bt_proxy.Net.{Net, Answer-cases}
use linux_bt_proxy.Api.Runtime.{Protobuf}
use linux_bt_proxy.Server.{read_bytes, Client, stuck, dispatch, drain, step}

-- A buffer that the loop can be in: bytes, fewer than a `usize` counts.
abbrev pub IsBuffer : Bytes → Type 0
IsBuffer buf = IsBytes buf × (length buf < 2 ^ 63)

-- `back` is what is left of `whole` when some bytes are taken off its front.
abbrev pub IsBack : Bytes → Bytes → Type 0
IsBack back whole = (front : Bytes) × (whole ≡ front ++ back)

pub Leaves-cases :
    (buf : Bytes) (o : Outcome Next)
    → IsBuffer buf
    → Leaves buf o
    → (o ≡ panics)
      ⊎ (o ≡ returns (none, buf))
      ⊎ ((msg_type : ℕ) × (payload : Bytes) × (rest : Bytes) × (o
            ≡ returns (some (msg_type, payload), rest))
          × IsBuffer rest
          × (length rest < length buf)
          × IsBack rest buf)
Leaves-cases buf panics b l = inl refl
Leaves-cases buf (returns (none, rest)) b l = inr (inl (rw l refl))
Leaves-cases buf (returns (some (msg_type, payload), rest)) (bytes, fits) (k, pos, le, e) = inr (
    inr (
      msg_type,
      payload,
      rest,
      refl,
      rw e (All-drop IsByte k buf bytes, omega (arith, length-drop k buf)),
      rw e (omega (arith, length-drop k buf)),
      (take k buf, rw e (sym (take-drop k buf))),
    ))

module _ (lib : BytesMut) (net : Net) (rt : Protobuf) (ctx : ProxyContext) where
  open net use {Stream}

  -- The inner loop ends on any buffer: with more rounds than the buffer has bytes it is never short
  -- of rounds, and more of them make no difference.
  pub drain-rounds :
      (rounds more : ℕ) (c : Client net)
      → IsBuffer c.buf
      → length c.buf < rounds
      → length c.buf < more
      → (drain lib net rt ctx rounds c ≡ drain lib net rt ctx more c)
        × (drain lib net rt ctx rounds c ≢ stuck)
  unfolding drain
  drain-rounds zero more c b lo hi = absurd (omega arith)
  drain-rounds (suc rounds) zero c b lo hi = absurd (omega arith)
  drain-rounds (suc rounds) (suc more) c b lo hi =
      elim (Leaves-cases c.buf (next_message lib c.buf) b
        (next_message-Leaves lib c.buf (b.0) (b.1))) [
          | inl e ↦ rw (drain, e) (refl, λ p. cc)
          | inr (inl e) ↦ rw (drain, e) (refl, λ p. cc)
          | inr (inr (msg_type, payload, rest, e, b', less, back)) ↦
              elim (Answer-cases
                (dispatch lib net rt ctx c.subscription_flags c.stream msg_type payload)) [
                  | inl (s, d) ↦ rw (drain, e, d) (refl, λ p. cc)
                  | inr (flags, s, d) ↦
                      rw (drain, e, d)
                        (drain-rounds rounds more
                          (record { buf = rest; subscription_flags = flags; stream = s }) b'
                          (omega arith) (omega arith))
                ]
        ]

  -- A round of the loop over events always comes to an end: on whatever bytes the peer has sent.
  pub step-ne-stuck :
      (c : Client net) (bytes : Bytes)
      → IsBuffer (c.buf ++ bytes)
      → step lib net rt ctx c (read_bytes bytes) ≢ stuck
  unfolding step
  step-ne-stuck c [] b = λ p. cc
  step-ne-stuck c (byte ∷ bytes) b =
      let all = length (c.buf ++ byte ∷ bytes) in
      (drain-rounds (suc all) (suc all) (record c { buf = c.buf ++ byte ∷ bytes }) b (omega arith)
        (omega arith)).1
