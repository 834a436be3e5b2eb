-- ===== src/Server/Received.antt =====
-- What a client finds of advertisements in the bytes that it is sent: the frames of `handle_client`
-- (src/server.rs) and the messages in them (src/api/api.rs).
use linux_bt_proxy.Prelude.{
  Bool, ◌≡◌, refl, ap, ◌∙◌, true, false, List, [], ◌∷◌, ◌++◌, map, Bytes, IsBytes, All, All-append,
  length, arith, IsByte,
}
use linux_bt_proxy.Context.{ProxyContext}
use linux_bt_proxy.Proto.Frame.{BytesMut, frame}
use linux_bt_proxy.Net.{Net}
use linux_bt_proxy.Api.Runtime.{Protobuf}
use linux_bt_proxy.Api.Runtime.ReadsBack.{ReadsBack}
use linux_bt_proxy.Api.BluetoothLeAdvertisementResponse
use linux_bt_proxy.Api.BluetoothLeAdvertisementResponse.{BluetoothLeAdvertisementResponse}
use linux_bt_proxy.Api.BluetoothLeAdvertisementResponse.RoundTrip as Parsed
use linux_bt_proxy.Api.BluetoothLeRawAdvertisementsResponse
use linux_bt_proxy.Api.BluetoothLeRawAdvertisementsResponse.RoundTrip
use linux_bt_proxy.Api.Message.{get_message_id}
use linux_bt_proxy.Ble.{BleAdvertisement}
use linux_bt_proxy.Handlers.{SubscriptionFlags}
use linux_bt_proxy.Server.{Client, advert, serving, run}
use linux_bt_proxy.Server.Advert.{raw_message, IsForwardable}
use linux_bt_proxy.Server.Drain.{frame-IsBytes}
use linux_bt_proxy.Server.Delivered.{
  Delivered, raw_advert, parsed_advert, wanted, raws, one, carried, received, received-nothing,
  received-frame,
}
use linux_bt_proxy.Server.Session.{IsSound, run-adverts, chosen_frames}

abbrev pub all_wanted :
    {rt : Protobuf} → SubscriptionFlags → List (BleAdvertisement rt) → List (Delivered rt)
all_wanted flags [] = []
all_wanted flags (a ∷ adverts) = wanted flags a ++ all_wanted flags adverts

module _ (lib : BytesMut) (rt : Protobuf) where
  abbrev raw_payload : BleAdvertisement rt → Bytes
  raw_payload a = BluetoothLeRawAdvertisementsResponse.write_to rt (raw_message rt a)

  abbrev parsed_payload : BleAdvertisement rt → Bytes
  parsed_payload a = BluetoothLeAdvertisementResponse.write_to rt a.legacy

  module _ (back : ReadsBack rt) where
    -- The fields of both forms are in the ranges of their types, and protobuf writes bytes.
    abbrev pub IsReadable : BleAdvertisement rt → Type 0
    IsReadable a =
        RoundTrip.IsTyped rt back (raw_message rt a)
        × IsBytes (raw_payload a)
        × Parsed.IsTyped rt back a.legacy
        × IsBytes (parsed_payload a)

    carried-raw :
        (a : BleAdvertisement rt)
        → IsReadable a
        → carried lib rt 93 (raw_payload a) ≡ raw_advert a.raw ∷ []
    unfolding BluetoothLeRawAdvertisementsResponse.new
    carried-raw a h =
        ap (raws lib rt) (RoundTrip.parse-write_to_batch rt back (raw_message rt a) (h.0))

    carried-parsed :
        (a : BleAdvertisement rt)
        → IsReadable a
        → carried lib rt 67 (parsed_payload a) ≡ parsed_advert a.legacy ∷ []
    carried-parsed a (_, _, typed, _) =
        ap (one lib rt parsed_advert) (Parsed.parse-write_to rt back a.legacy typed)

    module _ (net : Net) (ctx : ProxyContext) (sound : IsSound net) where
      abbrev frames_of : SubscriptionFlags → List (BleAdvertisement rt) → Bytes
      frames_of flags = chosen_frames net rt ctx sound lib flags

      frames_of-IsBytes :
          (regular raw : Bool) (adverts : List (BleAdvertisement rt))
          → All IsReadable adverts
          → IsBytes (frames_of (record { regular = regular; raw = raw }) adverts)
      unfolding get_message_id
      frames_of-IsBytes regular raw [] h = tt
      frames_of-IsBytes regular true (a ∷ adverts) ((typed, bytes, _, _), hs) =
          All-append IsByte (frame 93 (raw_payload a)) _ (frame-IsBytes 93 (raw_payload a) bytes)
            (frames_of-IsBytes regular true adverts hs)
      frames_of-IsBytes true false (a ∷ adverts) ((_, _, typed, bytes), hs) =
          All-append IsByte (frame 67 (parsed_payload a)) _
            (frame-IsBytes 67 (parsed_payload a) bytes) (frames_of-IsBytes true false adverts hs)
      frames_of-IsBytes false false (a ∷ adverts) (_, hs) = frames_of-IsBytes false false adverts hs

      no_frames :
          (adverts : List (BleAdvertisement rt))
          → (frames_of (record { regular = false; raw = false }) adverts ≡ [])
            × (all_wanted (record { regular = false; raw = false }) adverts ≡ [])
      no_frames [] = (refl, refl)
      no_frames (a ∷ adverts) = no_frames adverts

      received-frames :
          (regular raw : Bool) (adverts : List (BleAdvertisement rt))
          → All (IsForwardable rt) adverts
          → All IsReadable adverts
          → (let flags : SubscriptionFlags = record { regular = regular; raw = raw } in
              received lib rt (length adverts) (frames_of flags adverts) ≡ all_wanted flags adverts)
      unfolding get_message_id
      received-frames regular raw [] fs rs = refl
      received-frames regular true (a ∷ adverts) (((fits, small), _), fs) (r, rs) =
          let short : length (raw_payload a) ≡ _ =
            BluetoothLeRawAdvertisementsResponse.length-write_to rt (raw_message rt a) fits in
          received-frame lib rt (length adverts) 93 (raw_payload a) _ (omega arith)
            (omega (arith, short)) r.1 (frames_of-IsBytes regular true adverts rs)
          ∙ ap
              (λ l.
                l
                ++ received lib rt (length adverts)
                    (frames_of (record { regular = regular; raw = true }) adverts))
              (carried-raw a r)
          ∙ ap (λ l. raw_advert a.raw ∷ l) (received-frames regular true adverts fs rs)
      received-frames true false (a ∷ adverts) ((_, (fits, small)), fs) (r, rs) =
          let short : length (parsed_payload a) ≡ _ =
            BluetoothLeAdvertisementResponse.length-write_to rt a.legacy fits in
          received-frame lib rt (length adverts) 67 (parsed_payload a) _ (omega arith)
            (omega (arith, short)) r.3 (frames_of-IsBytes true false adverts rs)
          ∙ ap
              (λ l.
                l
                ++ received lib rt (length adverts)
                    (frames_of (record { regular = true; raw = false }) adverts))
              (carried-parsed a r)
          ∙ ap (λ l. parsed_advert a.legacy ∷ l) (received-frames true false adverts fs rs)
      received-frames false false (a ∷ adverts) fs rs =
          let (no_bytes, none_wanted) = no_frames (a ∷ adverts) in
          rw (no_bytes, none_wanted) (received-nothing lib rt (length (a ∷ adverts)))

      -- On a sound connection, a client finds in what it is sent the advertisements of the channel, in
      -- their order and whole, each once and in the form that it has subscribed to, and none if it has
      -- subscribed to none; if their fields are in the ranges of their types and protobuf writes them,
      -- as bytes.
      pub run-received :
          (c : Client net) (adverts : List (BleAdvertisement rt))
          → All (IsForwardable rt) adverts
          → All IsReadable adverts
          → (s' : net.Stream) × (bytes : Bytes) × (run lib net rt ctx
                (serving c)
                (map advert adverts)
              ≡ serving (record c { stream = s' }))
            × (net.sent s' ≡ net.sent c.stream ++ bytes)
            × (received lib rt (length adverts) bytes ≡ all_wanted c.subscription_flags adverts)
      run-received c adverts forwardable readable =
          let (s', ran, sent') = run-adverts net rt ctx sound lib c adverts forwardable in
          let flags = c.subscription_flags in
          (
            s',
            frames_of flags adverts,
            ran,
            sent',
            received-frames flags.regular flags.raw adverts forwardable readable,
          )
