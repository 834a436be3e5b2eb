-- ===== src/Server/Session.antt =====
-- A client of `handle_client` (src/server.rs) whose connection is sound: what it has been sent.
use linux_bt_proxy.Prelude.{
  ℕ, ◌^◌, ◌<◌, ◌≡◌, refl, sym, ap, ◌∙◌, Option, none, some, List, [], ◌∷◌, ◌++◌, map, append-nil,
  append_assoc, Bytes, IsBytes, All, arith, Bool, true, false, not, ◌||◌,
}
use linux_bt_proxy.Prelude.Outcome.{returns}
use linux_bt_proxy.Context.{ProxyContext}
use linux_bt_proxy.Proto.Frame.{BytesMut, next_message}
use linux_bt_proxy.Net.{Net, Level, info, debug, done, ◌>>=◌, checked}
use linux_bt_proxy.Api.Runtime.{Protobuf}
use linux_bt_proxy.Ble.{BleAdvertisement, unwrap_or}
use linux_bt_proxy.Handlers.{SubscriptionFlags}
use linux_bt_proxy.Handlers.Reply.{reply, sent-reply}
use linux_bt_proxy.Server.{
  read_bytes, advert, Client, serving, keeping, dispatch, answered, step, run,
}
use linux_bt_proxy.Server.Advert.{chosen_frame, forward_frame, IsForwardable, forward-chosen_frame}
use linux_bt_proxy.Server.Dispatch.{Query, code, is_request, answer, HasSendable, dispatch-query}
use linux_bt_proxy.Server.Total.{IsBuffer}
use linux_bt_proxy.Server.Drain.{
  Parcel, IsParcel, frames, dispatch_all, with_buffer, drain_on-waits,
}
use linux_bt_proxy.Server.Chunks.{step-front}

-- The address of the peer is known, and every write succeeds.
pub record IsSound (net : Net) : Type 0 where
  pub known : (s : net.Stream) → net.peer_addr s ≡ true
  pub writes : (bytes : Bytes) (s : net.Stream) → (net.write_all bytes s).0 ≡ true

-- A request of a client: what it asks for, and the payload that it sends.
abbrev pub Asked : Type 0
Asked = Query × Bytes

abbrev pub parcel_of : Asked → Parcel
parcel_of (q, payload) = (code q, payload)

code_fits : (q : Query) → code q < 2 ^ 32
code_fits q = ground arith

or_true : (b : Bool) → (b || true) ≡ true
or_true true = refl
or_true false = refl

checked-true : {S : Type 0} (r : Bool × S) → r.0 ≡ true → checked r ≡ done tt (r.1)
checked-true (true, s) e = refl
checked-true (false, s) e = cc

module _ (net : Net) (rt : Protobuf) (ctx : ProxyContext) (sound : IsSound net) where
  open net use {Stream, sent, enabled, peer_addr, write_all}

  pub reply-done :
      (level : Level) (bytes : Bytes) (s : Stream)
      → (s' : Stream) × (reply net level true bytes s ≡ done tt s') × (sent s' ≡ sent s ++ bytes)
  reply-done level bytes s =
      let written : reply net level true bytes s ≡ done tt ((write_all bytes s).1) =
        rw (sound.known s, or_true (not (enabled level)))
          (checked-true (write_all bytes s) (sound.writes bytes s)) in
      (
        (write_all bytes s).1,
        written,
        sent-reply net level true bytes s ((write_all bytes s).1) written,
      )

  -- A request that is accepted, and whose answer protobuf writes.
  abbrev pub IsAnswerable : Asked → Type 0
  IsAnswerable (q, payload) =
      IsBytes payload × (is_request net rt ctx q payload ≡ true) × HasSendable net rt ctx q

  All-IsParcel : (asked : List Asked) → All IsAnswerable asked → All IsParcel (map parcel_of asked)
  All-IsParcel [] h = tt
  All-IsParcel ((q, payload) ∷ asked) (h, hs) = ((code_fits q, h.0), All-IsParcel asked hs)

  abbrev pub answers : List Asked → Bytes
  answers [] = []
  answers ((q, payload) ∷ asked) = answer net rt ctx q ++ answers asked

  dispatch_all-answers :
      (lib : BytesMut) (flags : SubscriptionFlags) (s : Stream) (asked : List Asked)
      → All IsAnswerable asked
      → (s' : Stream) × (dispatch_all lib net rt ctx flags s (map parcel_of asked) ≡ done flags s')
        × (sent s' ≡ sent s ++ answers asked)
  dispatch_all-answers lib flags s [] h = (s, refl, sym (append-nil (sent s)))
  dispatch_all-answers lib flags s ((q, payload) ∷ asked) ((bytes, is_q, sendable), hs) =
      let (s1, replied, sent1) = reply-done info (answer net rt ctx q) s in
      let dispatched : dispatch lib net rt ctx flags s (code q) payload ≡ done flags s1 =
        dispatch-query net rt ctx lib q flags s payload sendable
        ∙ rw is_q (ap (keeping flags) replied) in
      let (s', rest, sent') = dispatch_all-answers lib flags s1 asked hs in
      (
        s',
        rw (dispatched, ◌>>=◌) rest,
        sent'
            ∙ ap (λ (t : Bytes). t ++ answers asked) sent1
            ∙ append_assoc (sent s) (answer net rt ctx q) (answers asked),
      )

  module _ (lib : BytesMut) where
    -- On a sound connection, a read of at least a byte that completes some requests, which are accepted
    -- and whose responses protobuf writes, has each of them answered, in their order and by nothing
    -- else, and leaves the flags; what follows the requests stays in the buffer, if it holds no
    -- message yet. The buffer holds bytes, fewer than 2 ^ 63.
    pub step-answers :
        (c : Client net) (asked : List Asked) (tail : Bytes) (x : ℕ) (bytes : Bytes)
        → All IsAnswerable asked
        → IsBuffer (frames (map parcel_of asked) ++ tail)
        → IsBytes tail
        → c.buf ++ x ∷ bytes ≡ frames (map parcel_of asked) ++ tail
        → next_message lib tail ≡ returns (none, tail)
        → (s' : Stream) × (step lib net rt ctx c (read_bytes (x ∷ bytes))
            ≡ serving (record c { buf = tail; stream = s' }))
          × (sent s' ≡ sent c.stream ++ answers asked)
    step-answers c asked tail x bytes h b tail_bytes e last =
        let (s', answered_all, sent') =
          dispatch_all-answers lib c.subscription_flags c.stream asked h in
        (
          s',
          step-front lib net rt ctx c (map parcel_of asked) tail x bytes (All-IsParcel asked h)
                tail_bytes b e
              ∙ drain_on-waits lib net rt ctx tail _ last
              ∙ ap (with_buffer lib net rt ctx tail) answered_all,
          sent',
        )

    -- The frames that a course of advertisements makes for a subscription.
    abbrev pub chosen_frames : SubscriptionFlags → List (BleAdvertisement rt) → Bytes
    chosen_frames flags [] = []
    chosen_frames flags (a ∷ adverts) =
        unwrap_or [] (chosen_frame rt flags a) ++ chosen_frames flags adverts

    forward-done :
        (c : Client net) (frame : Option Bytes)
        → (s' : Stream) × (forward_frame rt lib net ctx c frame
            ≡ serving (record c { stream = s' }))
          × (sent s' ≡ sent c.stream ++ unwrap_or [] frame)
    forward-done c none = (c.stream, refl, sym (append-nil (sent c.stream)))
    forward-done c (some bytes) =
        let (s', replied, sent') = reply-done debug bytes c.stream in
        (s', ap (answered lib net rt ctx c) replied, sent')

    -- On a sound connection every advertisement of the channel reaches the client, once, in order and
    -- in the form that it has subscribed to; a client that has subscribed to none is sent none.
    pub run-adverts :
        (c : Client net) (adverts : List (BleAdvertisement rt))
        → All (IsForwardable rt) adverts
        → (s' : Stream) × (run lib net rt ctx (serving c) (map advert adverts)
            ≡ serving (record c { stream = s' }))
          × (sent s' ≡ sent c.stream ++ chosen_frames c.subscription_flags adverts)
    unfolding run step
    run-adverts c [] h = (c.stream, refl, sym (append-nil (sent c.stream)))
    run-adverts c (a ∷ adverts) (h, hs) =
        let (s1, forwarded, sent1) = forward-done c (chosen_frame rt c.subscription_flags a) in
        let stepped : step lib net rt ctx c (advert a) ≡ serving (record c { stream = s1 }) =
          forward-chosen_frame rt lib net ctx c a h ∙ forwarded in
        let (s', rest, sent') = run-adverts (record c { stream = s1 }) adverts hs in
        (
          s',
          ap (λ served. run lib net rt ctx served (map advert adverts)) stepped ∙ rest,
          sent'
              ∙ ap (λ (t : Bytes). t ++ chosen_frames c.subscription_flags adverts) sent1
              ∙ append_assoc (sent c.stream) (unwrap_or [] (chosen_frame rt c.subscription_flags a))
                  (chosen_frames c.subscription_flags adverts),
        )
