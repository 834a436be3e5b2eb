-- ===== src/Server/Conversation/Run.antt =====
-- `handle_client` (src/server.rs) holds a conversation as it is meant to.
use linux_bt_proxy.Prelude.{
  ◌^◌, ◌<◌, ◌≡◌, refl, sym, ap, ◌∙◌, Bool, true, false, List, [], ◌∷◌, ◌++◌, map, append-nil, Bytes,
  All, All-append, length, arith,
}
use mathlib.Core.Path.{subst}
use linux_bt_proxy.Server.Total.{IsBuffer}
use linux_bt_proxy.Context.{ProxyContext}
use linux_bt_proxy.Proto.Frame.{BytesMut, next_message}
use linux_bt_proxy.Net.{Net}
use linux_bt_proxy.Api.Runtime.{Protobuf}
use linux_bt_proxy.Api.Runtime.ReadsBack.{ReadsBack}
use linux_bt_proxy.Api.Message.{get_message_id}
use linux_bt_proxy.Ble.{BleAdvertisement}
use linux_bt_proxy.Handlers.{SubscriptionFlags, no_flags}
use linux_bt_proxy.Server.{Client, Served, serving, step, run, handle_client}
use linux_bt_proxy.Server.Session.{IsSound, chosen_frames, run-adverts}
use linux_bt_proxy.Server.Drain.{IsParcel, frames, frames-IsBytes, with_buffer, drain_on-waits}
use linux_bt_proxy.Server.Chunks.{step-front}
use linux_bt_proxy.Server.Delivered.{Delivered, raw_advert, parsed_advert, wanted, received}
use linux_bt_proxy.Server.Delivered.Back.{IsDeliverable, received-frames}
use linux_bt_proxy.Server.Conversation.{
  Request, Turn, hello, connect, ping, device_info, list_entities, connections_free, subscribe,
  unsubscribe, reads, hears, asked, event_of, behind_all, behind_turn, behind_turns, response,
  responses, delivered, all_delivered, IsAsked, IsServable,
}
use linux_bt_proxy.Server.Conversation.Asked.{bytes_of, sent_more, dispatch_all-asked}

module _ {rt : Protobuf} (back : ReadsBack rt) where
  asked-code : (r : Request rt) → (asked r).0 < 2 ^ 32
  asked-code r = elim r as (λ k. (asked k).0 < 2 ^ 32) [
    | hello m ↦ omega arith
    | connect m ↦ omega arith
    | ping m ↦ omega arith
    | device_info m ↦ omega arith
    | list_entities m ↦ omega arith
    | connections_free m ↦ omega arith
    | subscribe m ↦ omega arith
    | unsubscribe payload ↦ omega arith
  ]

  wanted-IsDeliverable :
      (raw regular : Bool) (a : BleAdvertisement rt)
      → IsDeliverable back (raw_advert a.raw)
      → IsDeliverable back (parsed_advert a.legacy)
      → All (IsDeliverable back) (wanted (record { regular = regular; raw = raw }) a)
  wanted-IsDeliverable true regular a h k = (h, tt)
  wanted-IsDeliverable false true a h k = (k, tt)
  wanted-IsDeliverable false false a h k = tt

  module _ (net : Net) (ctx : ProxyContext) where
    All-IsParcel :
        (rs : List (Request rt)) → All (IsAsked net ctx back) rs → All IsParcel (map asked rs)
    All-IsParcel [] h = tt
    All-IsParcel (r ∷ rs) ((_, bytes, _), hs) = ((asked-code r, bytes), All-IsParcel rs hs)

    responses-IsDeliverable :
        (rs : List (Request rt))
        → All (IsAsked net ctx back) rs
        → All (IsDeliverable back) (responses net ctx rs)
    responses-IsDeliverable [] h = tt
    responses-IsDeliverable (r ∷ rs) ((_, _, h), hs) =
        All-append (IsDeliverable back) (response net ctx r) (responses net ctx rs) h
          (responses-IsDeliverable rs hs)

    delivered-IsDeliverable :
        (flags : SubscriptionFlags) (turn : Turn rt)
        → IsServable net ctx back turn
        → All (IsDeliverable back) (delivered net ctx flags turn)
    delivered-IsDeliverable flags (reads r rs) (h, _) = responses-IsDeliverable (r ∷ rs) h
    delivered-IsDeliverable flags (hears a) (h, k) =
        wanted-IsDeliverable flags.raw flags.regular a h k

    all_delivered-IsDeliverable :
        (flags : SubscriptionFlags) (turns : List (Turn rt))
        → All (IsServable net ctx back) turns
        → All (IsDeliverable back) (all_delivered net ctx flags turns)
    all_delivered-IsDeliverable flags [] h = tt
    all_delivered-IsDeliverable flags (turn ∷ turns) (h, hs) =
        All-append (IsDeliverable back) (delivered net ctx flags turn)
          (all_delivered net ctx (behind_turn flags turn) turns)
          (delivered-IsDeliverable flags turn h)
          (all_delivered-IsDeliverable (behind_turn flags turn) turns hs)

    module _ (lib : BytesMut) (sound : IsSound net) where
      open net use {Stream, sent}

      abbrev at_rest : SubscriptionFlags → Stream → Client net
      at_rest flags s = record { buf = []; subscription_flags = flags; stream = s }

      -- The subscription that follows, and what has been sent.
      abbrev Serves : Served net → SubscriptionFlags → Stream → List (Delivered rt) → Type 0
      Serves served flags s ds =
          (s' : Stream) × (served ≡ serving (at_rest flags s')) × (sent s' ≡ sent s ++ bytes_of ds)

      step-reads :
          (flags : SubscriptionFlags) (s : Stream) (r : Request rt) (rs : List (Request rt))
          → IsServable net ctx back (reads r rs)
          → Serves
              (step lib net rt ctx (at_rest flags s) (event_of (reads r rs)))
              (behind_all flags (r ∷ rs))
              s
              (responses net ctx (r ∷ rs))
      unfolding next_message
      step-reads flags s r rs (h, short) =
          let parcels = map asked (r ∷ rs) in
          let are = All-IsParcel (r ∷ rs) h in
          let (s', done_all, sent') =
            dispatch_all-asked lib net back ctx sound (r ∷ rs) flags s h in
          (
            s',
            step-front lib net rt ctx (at_rest flags s) parcels [] 0 _ are tt
                  (subst IsBuffer (sym (append-nil (frames parcels)))
                    (frames-IsBytes parcels are, short))
                  (sym (append-nil (frames parcels)))
                ∙ drain_on-waits lib net rt ctx [] _ refl
                ∙ ap (with_buffer lib net rt ctx []) done_all,
            sent',
          )

      chosen-wanted :
          (raw regular : Bool) (a : BleAdvertisement rt)
          → (let flags : SubscriptionFlags = record { regular = regular; raw = raw } in
              chosen_frames net rt ctx sound lib flags (a ∷ []) ≡ bytes_of (wanted flags a))
      unfolding get_message_id
      chosen-wanted true regular a = refl
      chosen-wanted false true a = refl
      chosen-wanted false false a = refl

      step-turn :
          (flags : SubscriptionFlags) (s : Stream) (turn : Turn rt)
          → IsServable net ctx back turn
          → Serves
              (step lib net rt ctx (at_rest flags s) (event_of turn))
              (behind_turn flags turn)
              s
              (delivered net ctx flags turn)
      unfolding run
      step-turn flags s (reads r rs) h = step-reads flags s r rs h
      step-turn flags s (hears a) ((_, raw, _), (_, parsed, _)) =
          let (s', ran, sent') =
            run-adverts net rt ctx sound lib (at_rest flags s) (a ∷ []) ((raw, parsed), tt) in
          (
            s',
            ran,
            sent' ∙ ap (λ (b : Bytes). sent s ++ b) (chosen-wanted flags.raw flags.regular a),
          )

      run-turns :
          (flags : SubscriptionFlags) (s : Stream) (turns : List (Turn rt))
          → All (IsServable net ctx back) turns
          → Serves
              (run lib net rt ctx (serving (at_rest flags s)) (map event_of turns))
              (behind_turns flags turns)
              s
              (all_delivered net ctx flags turns)
      unfolding run
      run-turns flags s [] h = (s, refl, sym (append-nil (sent s)))
      run-turns flags s (turn ∷ turns) (h, hs) =
          let (s1, stepped, sent1) = step-turn flags s turn h in
          let (s', rest, sent') = run-turns (behind_turn flags turn) s1 turns hs in
          (
            s',
            ap (λ served. run lib net rt ctx served (map event_of turns)) stepped ∙ rest,
            sent_more lib net back ctx sound s s1 s' (delivered net ctx flags turn)
                (all_delivered net ctx (behind_turn flags turn) turns) sent1 sent',
          )

      -- On a sound connection, a new client that writes requests, some whole ones in each read, with
      -- advertisements of the channel between the reads, is served to the end: it has the subscription
      -- that it asked for last, nothing of the requests is left in the buffer, and it reads from what it
      -- is sent the response to each request and each advertisement in the form that it was then
      -- subscribed to, all in their order and nothing else. The requests and what is delivered are
      -- written by protobuf as bytes and are read back, and a read is shorter than 2 ^ 63 bytes.
      pub handle_client-converses :
          (s : Stream) (turns : List (Turn rt))
          → All (IsServable net ctx back) turns
          → (s' : Stream) × (bytes : Bytes) × (handle_client lib net rt ctx s (map event_of turns)
              ≡ serving (record {
                buf = [];
                subscription_flags = behind_turns no_flags turns;
                stream = s';
              }))
            × (sent s' ≡ sent s ++ bytes)
            × (let ds = all_delivered net ctx no_flags turns in
                received lib rt (length ds) bytes ≡ ds)
      unfolding handle_client
      handle_client-converses s turns h =
          let (s', ran, sent') = run-turns no_flags s turns h in
          (
            s',
            _,
            ran,
            sent',
            received-frames back lib (all_delivered net ctx no_flags turns)
                (all_delivered-IsDeliverable no_flags turns h),
          )
