-- ===== src/Server/Conversation/Asked.antt =====
-- `handle_client` (src/server.rs) does with each request what it is meant to.
use linux_bt_proxy.Prelude.{
  ◌≡◌, refl, sym, ap, ◌∙◌, true, inl, inr, Bool-cases, List, [], ◌∷◌, ◌++◌, map, append_assoc,
  append-nil, Bytes, All,
}
use linux_bt_proxy.Context.{ProxyContext}
use linux_bt_proxy.Proto.Frame.{BytesMut, frame}
use linux_bt_proxy.Net.{Net, Answer, Level, info, done, ◌>>=◌, log_peer}
use linux_bt_proxy.Api.Runtime.{Protobuf}
use linux_bt_proxy.Api.Runtime.Merge.{merged}
use linux_bt_proxy.Api.Runtime.ReadsBack.{ReadsBack}
use linux_bt_proxy.Api.Message.{get_message_id}
use linux_bt_proxy.Api.HelloRequest.RoundTrip as Hello
use linux_bt_proxy.Api.ConnectRequest.RoundTrip as Connect
use linux_bt_proxy.Api.PingRequest.RoundTrip as Ping
use linux_bt_proxy.Api.DeviceInfoRequest.RoundTrip as Info
use linux_bt_proxy.Api.ListEntitiesRequest.RoundTrip as Listing
use linux_bt_proxy.Api.SubscribeBluetoothConnectionsFreeRequest.RoundTrip as Free
use linux_bt_proxy.Api.SubscribeBluetoothLeAdvertisementsRequest
use linux_bt_proxy.Api.SubscribeBluetoothLeAdvertisementsRequest.RoundTrip as Subscribe
use linux_bt_proxy.Api.ConnectResponse
use linux_bt_proxy.Api.PingResponse
use linux_bt_proxy.Api.ListEntitiesDoneResponse
use linux_bt_proxy.Handlers
use linux_bt_proxy.Handlers.{
  SubscriptionFlags, no_flags, from_flags, parsed, subscribe_bluetooth_le_advertisements_request,
}
use linux_bt_proxy.Handlers.Reply.{accepted}
use linux_bt_proxy.Server.{keeping, dispatch}
use linux_bt_proxy.Server.Dispatch
use linux_bt_proxy.Server.Dispatch.{Query, code, is_request, answer, HasSendable, dispatch-query}
use linux_bt_proxy.Server.Session.{IsSound, reply-done}
use linux_bt_proxy.Server.Drain.{frames, dispatch_all}
use linux_bt_proxy.Server.Delivered.{Delivered, parcel_of}
use linux_bt_proxy.Server.Conversation.{
  Request, hello, connect, ping, device_info, list_entities, connections_free, subscribe,
  unsubscribe, asked, behind, behind_all, response, responses, IsAsked,
}

-- The bytes that deliver.
abbrev pub bytes_of : {rt : Protobuf} → List (Delivered rt) → Bytes
bytes_of ds = frames (map parcel_of ds)

bytes_of-append :
    {rt : Protobuf} (ds es : List (Delivered rt)) → bytes_of (ds ++ es) ≡ bytes_of ds ++ bytes_of es
bytes_of-append [] es = refl
bytes_of-append (d ∷ ds) es =
    ap (λ (b : Bytes). frame ((parcel_of d).0) ((parcel_of d).1) ++ b) (bytes_of-append ds es)
    ∙ sym (append_assoc (frame ((parcel_of d).0) ((parcel_of d).1)) (bytes_of ds) (bytes_of es))

module _ (lib : BytesMut) (net : Net) {rt : Protobuf} (back : ReadsBack rt) (ctx : ProxyContext)
    (sound : IsSound net) where
  open net use {Stream, sent, enabled}

  -- What was sent after two deliveries.
  pub sent_more :
      (s s1 s' : Stream) (ds es : List (Delivered rt))
      → sent s1 ≡ sent s ++ bytes_of ds
      → sent s' ≡ sent s1 ++ bytes_of es
      → sent s' ≡ sent s ++ bytes_of (ds ++ es)
  sent_more s s1 s' ds es p q =
      q
      ∙ ap (λ (b : Bytes). b ++ bytes_of es) p
      ∙ append_assoc (sent s) (bytes_of ds) (bytes_of es)
      ∙ ap (λ (b : Bytes). sent s ++ b) (sym (bytes_of-append ds es))

  log_peer-done : (level : Level) (s : Stream) → log_peer net level s ≡ done tt s
  unfolding log_peer
  log_peer-done level s = elim (Bool-cases (enabled level)) [
    | inl on ↦ rw (on, sound.known s) refl
    | inr off ↦ rw off refl
  ]

  -- The flags that follow, and what has been sent for it.
  abbrev pub Left :
      Stream → Answer Stream SubscriptionFlags → SubscriptionFlags → List (Delivered rt) → Type 0
  Left s answer flags ds =
      (s' : Stream) × (answer ≡ done flags s') × (sent s' ≡ sent s ++ bytes_of ds)

  -- The response to a query.
  abbrev answering : Query → Delivered rt
  answering Dispatch.hello = Delivered.hello_response (Handlers.hello_response net rt)
  answering Dispatch.connect = Delivered.connect_response (ConnectResponse.new rt)
  answering Dispatch.ping = Delivered.ping_response (PingResponse.new rt)
  answering Dispatch.device_info =
      Delivered.device_info_response (Handlers.device_info_response net rt ctx)
  answering Dispatch.list_entities =
      Delivered.list_entities_done_response (ListEntitiesDoneResponse.new rt)
  answering Dispatch.connections_free =
      Delivered.connections_free_response (Handlers.connections_free_response net rt)

  -- A query that is accepted is answered.
  dispatch-answered :
      (q : Query) (payload : Bytes) (flags : SubscriptionFlags) (s : Stream)
      → is_request net rt ctx q payload ≡ true
      → HasSendable net rt ctx q
      → answer net rt ctx q ≡ frame ((parcel_of (answering q)).0) ((parcel_of (answering q)).1)
      → Left s (dispatch lib net rt ctx flags s (code q) payload) flags (answering q ∷ [])
  dispatch-answered q payload flags s is_q sendable e =
      let (s', replied, sent') = reply-done net rt ctx sound info (answer net rt ctx q) s in
      (
        s',
        dispatch-query net rt ctx lib q flags s payload sendable
            ∙ rw is_q (ap (keeping flags) replied),
        sent'
            ∙ ap (λ (b : Bytes). sent s ++ b)
                (e
                  ∙ sym (
                      append-nil
                        (frame ((parcel_of (answering q)).0) ((parcel_of (answering q)).1)))),
      )

  -- A request to subscribe that is read, and one to unsubscribe.
  dispatch-subscribed :
      (payload : Bytes) (flags : SubscriptionFlags) (s : Stream)
      (m : SubscribeBluetoothLeAdvertisementsRequest.SubscribeBluetoothLeAdvertisementsRequest rt)
      → SubscribeBluetoothLeAdvertisementsRequest.parse rt payload ≡ merged m
      → dispatch lib net rt ctx flags s 66 payload ≡ done (from_flags m.flags) s
  unfolding dispatch subscribe_bluetooth_le_advertisements_request
  dispatch-subscribed payload flags s m e = rw (log_peer-done info s, e) refl

  dispatch-unsubscribed :
      (payload : Bytes) (flags : SubscriptionFlags) (s : Stream)
      → dispatch lib net rt ctx flags s 87 payload ≡ done no_flags s
  unfolding dispatch
  dispatch-unsubscribed payload flags s = refl

  -- A request does what it is meant to.
  dispatch-asked :
      (r : Request rt) (flags : SubscriptionFlags) (s : Stream)
      → IsAsked net ctx back r
      → Left s
          (dispatch lib net rt ctx flags s ((asked r).0) ((asked r).1))
          (behind flags r)
          (response net ctx r)
  unfolding get_message_id
  dispatch-asked (hello m) flags s (typed, _, ((_, sendable, _), _)) =
      dispatch-answered Dispatch.hello _ flags s
        (ap accepted (Hello.parse-write_to rt back m typed)) sendable refl
  dispatch-asked (connect m) flags s (typed, _, ((_, sendable, _), _)) =
      dispatch-answered Dispatch.connect _ flags s
        (ap accepted (Connect.parse-write_to rt back m typed)) sendable refl
  dispatch-asked (ping m) flags s (typed, _, ((_, sendable, _), _)) =
      dispatch-answered Dispatch.ping _ flags s (ap accepted (Ping.parse-write_to rt back m typed))
        sendable refl
  dispatch-asked (device_info m) flags s (typed, _, ((_, sendable, _), _)) =
      dispatch-answered Dispatch.device_info _ flags s
        (ap accepted (Info.parse-write_to rt back m typed)) sendable refl
  dispatch-asked (list_entities m) flags s (typed, _, ((_, sendable, _), _)) =
      dispatch-answered Dispatch.list_entities _ flags s
        (ap accepted (Listing.parse-write_to rt back m typed)) sendable refl
  dispatch-asked (connections_free m) flags s (typed, _, ((_, sendable, _), _)) =
      dispatch-answered Dispatch.connections_free _ flags s
        (ap accepted (Free.parse-write_to rt back m typed)) sendable refl
  dispatch-asked (subscribe m) flags s (typed, _, _) = (
    s,
    dispatch-subscribed _ flags s m (Subscribe.parse-write_to rt back m typed),
    sym (append-nil (sent s)),
  )
  dispatch-asked (unsubscribe payload) flags s h =
      (s, dispatch-unsubscribed payload flags s, sym (append-nil (sent s)))

  -- And so do some, in their order.
  pub dispatch_all-asked :
      (rs : List (Request rt)) (flags : SubscriptionFlags) (s : Stream)
      → All (IsAsked net ctx back) rs
      → Left s
          (dispatch_all lib net rt ctx flags s (map asked rs))
          (behind_all flags rs)
          (responses net ctx rs)
  dispatch_all-asked [] flags s h = (s, refl, sym (append-nil (sent s)))
  dispatch_all-asked (r ∷ rs) flags s (h, hs) =
      let (s1, done1, sent1) = dispatch-asked r flags s h in
      let (s', rest, sent') = dispatch_all-asked rs (behind flags r) s1 hs in
      (
        s',
        rw (done1, ◌>>=◌) rest,
        sent_more s s1 s' (response net ctx r) (responses net ctx rs) sent1 sent',
      )
