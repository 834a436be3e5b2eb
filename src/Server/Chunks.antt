-- ===== src/Server/Chunks.antt =====
-- `handle_client` (src/server.rs) on bytes that arrive in several reads.
use linux_bt_proxy.Prelude.{
  ℕ, suc, ◌≡◌, refl, sym, ap, ◌∙◌, none, List, [], ◌∷◌, ◌++◌, append_assoc, Bytes, IsByte, IsBytes,
  All, All-append, length, length-append, arith,
}
use linux_bt_proxy.Prelude.Outcome.{returns}
use linux_bt_proxy.Context.{ProxyContext}
use linux_bt_proxy.Proto.Frame.{BytesMut, next_message}
use linux_bt_proxy.Net.{Net, Answer, done, error}
use linux_bt_proxy.Api.Runtime.{Protobuf}
use linux_bt_proxy.Handlers.{SubscriptionFlags}
use linux_bt_proxy.Server.{Client, Event, read_bytes, serving, failed, drain, step, run}
use linux_bt_proxy.Server.Total.{IsBuffer}
use linux_bt_proxy.Server.Drain.{
  Parcel, IsParcel, frames, frames-IsBytes, dispatch_all, with_buffer, drain_on, drain-front,
  drain_on-waits,
}

module _ (lib : BytesMut) (net : Net) (rt : Protobuf) (ctx : ProxyContext) where
  open net use {Stream}

  run-failed :
      (s : Stream) (events : List (Event rt)) → run lib net rt ctx (failed s) events ≡ failed s
  unfolding run
  run-failed s [] = refl
  run-failed s (event ∷ events) = refl

  -- The read that comes next, after the messages that were dispatched.
  run-next_read :
      (tail : Bytes) (y : ℕ) (second : Bytes) (events : List (Event rt))
      (answer : Answer Stream SubscriptionFlags)
      → run lib net rt ctx
          (with_buffer lib net rt ctx tail answer)
          (read_bytes (y ∷ second) ∷ events)
        ≡ run lib net rt ctx (drain_on lib net rt ctx (tail ++ y ∷ second) answer) events
  unfolding run step
  run-next_read tail y second events (done flags s) = refl
  run-next_read tail y second events (error s) = sym (run-failed s events)

  pub step-front :
      (c : Client net) (parcels : List Parcel) (rest : Bytes) (x : ℕ) (bytes : Bytes)
      → All IsParcel parcels
      → IsBytes rest
      → IsBuffer (frames parcels ++ rest)
      → c.buf ++ x ∷ bytes ≡ frames parcels ++ rest
      → step lib net rt ctx c (read_bytes (x ∷ bytes))
        ≡ drain_on lib net rt ctx rest
            (dispatch_all lib net rt ctx c.subscription_flags c.stream parcels)
  unfolding step
  step-front c parcels rest x bytes h rest_bytes b e =
      ap (λ buf. drain lib net rt ctx (suc (length buf)) (record c { buf = buf })) e
      ∙ drain-front lib net rt ctx parcels rest (suc (length (frames parcels ++ rest)))
          c.subscription_flags c.stream h b rest_bytes (omega arith)

  -- A read that ends where `next_message` waits for more, inside a frame or between two, and then
  -- the next read: the client is served as it is by one read of all the bytes. The buffer holds
  -- bytes, fewer than 2 ^ 63, and the frames in it have `u32` types.
  pub run-two_reads :
      (c : Client net) (parcels : List Parcel) (tail : Bytes) (x y : ℕ) (first second : Bytes)
      (events : List (Event rt))
      → All IsParcel parcels
      → IsBuffer (frames parcels ++ (tail ++ y ∷ second))
      → IsBytes tail
      → IsBytes (y ∷ second)
      → c.buf ++ x ∷ first ≡ frames parcels ++ tail
      → next_message lib tail ≡ returns (none, tail)
      → run lib net rt ctx (serving c) (read_bytes (x ∷ first) ∷ read_bytes (y ∷ second) ∷ events)
        ≡ run lib net rt ctx (serving c) (read_bytes (x ∷ (first ++ y ∷ second)) ∷ events)
  unfolding run
  run-two_reads c parcels tail x y first second events h b tail_bytes bytes e last =
      ap (λ served. run lib net rt ctx served (read_bytes (y ∷ second) ∷ events))
        (step-front c parcels tail x first h tail_bytes fits e
          ∙ drain_on-waits lib net rt ctx tail answer last)
      ∙ run-next_read tail y second events answer
      ∙ ap (λ served. run lib net rt ctx served events)
          (sym (
            step-front c parcels (tail ++ y ∷ second) x (first ++ y ∷ second) h
              (All-append IsByte tail (y ∷ second) tail_bytes bytes) b joined))
    where
      answer : Answer Stream SubscriptionFlags
      answer = dispatch_all lib net rt ctx c.subscription_flags c.stream parcels

      joined : c.buf ++ x ∷ (first ++ y ∷ second) ≡ frames parcels ++ (tail ++ y ∷ second)
      joined =
          sym (append_assoc c.buf (x ∷ first) (y ∷ second))
          ∙ ap (λ l. l ++ y ∷ second) e
          ∙ append_assoc (frames parcels) tail (y ∷ second)

      fits : IsBuffer (frames parcels ++ tail)
      fits = (
        All-append IsByte (frames parcels) tail (frames-IsBytes parcels h) tail_bytes,
        omega (
          arith,
          b.1,
          length-append (frames parcels) tail,
          length-append (frames parcels) (tail ++ y ∷ second),
          length-append tail (y ∷ second),
        ),
      )
