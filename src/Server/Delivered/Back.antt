-- ===== src/Server/Delivered/Back.antt =====
-- What a client is sent by `handle_client` (src/server.rs) is read whole from its frames.
use linux_bt_proxy.Prelude.{
  ◌^◌, ◌<◌, ◌≡◌, refl, ap, ◌∙◌, List, [], ◌∷◌, ◌++◌, map, IsBytes, All, length, arith,
}
use linux_bt_proxy.Proto.Frame.{BytesMut}
use linux_bt_proxy.Api.Runtime.{Protobuf}
use linux_bt_proxy.Api.Runtime.ReadsBack.{ReadsBack}
use linux_bt_proxy.Api.Message
use linux_bt_proxy.Api.Message.{get_message_id}
use linux_bt_proxy.Api.HelloResponse.RoundTrip as Hello
use linux_bt_proxy.Api.ConnectResponse.RoundTrip as Connect
use linux_bt_proxy.Api.PingResponse.RoundTrip as Ping
use linux_bt_proxy.Api.DeviceInfoResponse.Stages
use linux_bt_proxy.Api.DeviceInfoResponse.RoundTrip as Info
use linux_bt_proxy.Api.ListEntitiesDoneResponse.RoundTrip as Listed
use linux_bt_proxy.Api.BluetoothConnectionsFreeResponse.RoundTrip as Free
use linux_bt_proxy.Api.BluetoothLeRawAdvertisementsResponse
use linux_bt_proxy.Api.BluetoothLeRawAdvertisementsResponse.RoundTrip as Batch
use linux_bt_proxy.Api.BluetoothLeAdvertisementResponse.RoundTrip as Parsed
use linux_bt_proxy.Handlers.Reply.{IsSendable}
use linux_bt_proxy.Server.Drain.{IsParcel, frames, frames-IsBytes}
use linux_bt_proxy.Server.Delivered.{
  Delivered, raw_advert, parsed_advert, hello_response, connect_response, ping_response,
  device_info_response, list_entities_done_response, connections_free_response, raws, one, carried,
  received, received-frame, batch, parcel_of,
}

module _ {rt : Protobuf} (back : ReadsBack rt) where
  -- The fields are in the ranges of their types, so that they are read back.
  abbrev pub IsTyped : Delivered rt → Type 0
  IsTyped (raw_advert a) = Batch.IsTyped rt back (batch rt a)
  IsTyped (parsed_advert a) = Parsed.IsTyped rt back a
  IsTyped (hello_response m) = Hello.IsTyped rt back m
  IsTyped (connect_response m) = Connect.IsTyped rt back m
  IsTyped (ping_response m) = Ping.IsTyped rt back m
  IsTyped (device_info_response m) = Stages.IsTyped rt back m
  IsTyped (list_entities_done_response m) = Listed.IsTyped rt back m
  IsTyped (connections_free_response m) = Free.IsTyped rt back m

  -- protobuf writes the message: no size is too large.
  abbrev pub IsSent : Delivered rt → Type 0
  IsSent (raw_advert a) =
      IsSendable (Message.bluetooth_le_raw_advertisements_response rt) (batch rt a)
  IsSent (parsed_advert a) = IsSendable (Message.bluetooth_le_advertisement_response rt) a
  IsSent (hello_response m) = IsSendable (Message.hello_response rt) m
  IsSent (connect_response m) = IsSendable (Message.connect_response rt) m
  IsSent (ping_response m) = IsSendable (Message.ping_response rt) m
  IsSent (device_info_response m) = IsSendable (Message.device_info_response rt) m
  IsSent (list_entities_done_response m) = IsSendable (Message.list_entities_done_response rt) m
  IsSent (connections_free_response m) =
      IsSendable (Message.bluetooth_connections_free_response rt) m

  -- What can be delivered whole, which protobuf writes as bytes.
  abbrev pub IsDeliverable : Delivered rt → Type 0
  IsDeliverable d = IsTyped d × IsSent d × IsBytes ((parcel_of d).1)

  sized :
      {M : Type 0} (message : Message.Message M) (m : M)
      → IsSendable message m
      → length (message.write_to m) < 2 ^ 63
  sized message m (fits, small) = omega (arith, message.length-write_to m fits)

  parcel_of-fits : (d : Delivered rt) → IsSent d → length ((parcel_of d).1) < 2 ^ 63
  parcel_of-fits (raw_advert a) h =
      sized (Message.bluetooth_le_raw_advertisements_response rt) (batch rt a) h
  parcel_of-fits (parsed_advert a) h = sized (Message.bluetooth_le_advertisement_response rt) a h
  parcel_of-fits (hello_response m) h = sized (Message.hello_response rt) m h
  parcel_of-fits (connect_response m) h = sized (Message.connect_response rt) m h
  parcel_of-fits (ping_response m) h = sized (Message.ping_response rt) m h
  parcel_of-fits (device_info_response m) h = sized (Message.device_info_response rt) m h
  parcel_of-fits (list_entities_done_response m) h =
      sized (Message.list_entities_done_response rt) m h
  parcel_of-fits (connections_free_response m) h =
      sized (Message.bluetooth_connections_free_response rt) m h

  code_fits : (d : Delivered rt) → (parcel_of d).0 < 2 ^ 32
  code_fits d = elim d as (λ k. (parcel_of k).0 < 2 ^ 32) [
    | raw_advert a ↦ omega arith
    | parsed_advert a ↦ omega arith
    | hello_response m ↦ omega arith
    | connect_response m ↦ omega arith
    | ping_response m ↦ omega arith
    | device_info_response m ↦ omega arith
    | list_entities_done_response m ↦ omega arith
    | connections_free_response m ↦ omega arith
  ]

  module _ (lib : BytesMut) where
    -- A message is read as what it delivers.
    carried-parcel_of :
        (d : Delivered rt) → IsTyped d → carried lib rt ((parcel_of d).0) ((parcel_of d).1) ≡ d ∷ []
    unfolding BluetoothLeRawAdvertisementsResponse.new
    carried-parcel_of (raw_advert a) h =
        ap (raws lib rt) (Batch.parse-write_to_batch rt back (batch rt a) h)
    carried-parcel_of (parsed_advert a) h =
        ap (one lib rt parsed_advert) (Parsed.parse-write_to rt back a h)
    carried-parcel_of (hello_response m) h =
        ap (one lib rt hello_response) (Hello.parse-write_to rt back m h)
    carried-parcel_of (connect_response m) h =
        ap (one lib rt connect_response) (Connect.parse-write_to rt back m h)
    carried-parcel_of (ping_response m) h =
        ap (one lib rt ping_response) (Ping.parse-write_to rt back m h)
    carried-parcel_of (device_info_response m) h =
        ap (one lib rt device_info_response) (Info.parse-write_to_info rt back m h)
    carried-parcel_of (list_entities_done_response m) h =
        ap (one lib rt list_entities_done_response) (Listed.parse-write_to rt back m h)
    carried-parcel_of (connections_free_response m) h =
        ap (one lib rt connections_free_response) (Free.parse-write_to rt back m h)

    pub All-IsParcel :
        (ds : List (Delivered rt)) → All IsDeliverable ds → All IsParcel (map parcel_of ds)
    All-IsParcel [] h = tt
    All-IsParcel (d ∷ ds) ((_, _, bytes), hs) = ((code_fits d, bytes), All-IsParcel ds hs)

    -- A client reads from the frames of what it is delivered just that, in its order.
    pub received-frames :
        (ds : List (Delivered rt))
        → All IsDeliverable ds
        → received lib rt (length ds) (frames (map parcel_of ds)) ≡ ds
    received-frames [] h = refl
    received-frames (d ∷ ds) ((typed, sent, bytes), hs) =
        received-frame lib rt (length ds) ((parcel_of d).0) ((parcel_of d).1)
          (frames (map parcel_of ds)) (code_fits d) (parcel_of-fits d sent) bytes
          (frames-IsBytes (map parcel_of ds) (All-IsParcel ds hs))
        ∙ ap (λ l. l ++ received lib rt (length ds) (frames (map parcel_of ds)))
            (carried-parcel_of d typed)
        ∙ ap (λ l. d ∷ l) (received-frames ds hs)
