-- ===== src/Server/Delivered.antt =====
-- What a client reads of the bytes that `handle_client` (src/server.rs) sends it: the frames, and the
-- messages in them (src/api/api.rs).
pub mod Back
use linux_bt_proxy.Prelude.{
  ℕ, zero, suc, ◌+◌, ◌^◌, ◌<◌, ◌≡◌, refl, ap, ◌∙◌, none, some, List, [], ◌∷◌, ◌++◌, map,
  append_assoc, append-nil, Bytes, IsByte, IsBytes, All, All-append, length, ◌==◌, if◌then◌else◌,
  arith,
}
use linux_bt_proxy.Prelude.Outcome.{Outcome, returns, panics}
use linux_bt_proxy.Proto.Frame.{BytesMut, Next, next_message, frame}
use linux_bt_proxy.Proto.Frame.Whole.{next_message-frame}
use linux_bt_proxy.Api.Runtime.{Protobuf}
use linux_bt_proxy.Api.Runtime.Merge.{Merged, merged, failed, stuck}
use linux_bt_proxy.Api.Runtime.ReadsBack.{ReadsBack}
use linux_bt_proxy.Api.Message
use linux_bt_proxy.Api.Message.{get_message_id}
use linux_bt_proxy.Api.HelloResponse
use linux_bt_proxy.Api.HelloResponse.{HelloResponse}
use linux_bt_proxy.Api.HelloResponse.RoundTrip as Hello
use linux_bt_proxy.Api.ConnectResponse
use linux_bt_proxy.Api.ConnectResponse.{ConnectResponse}
use linux_bt_proxy.Api.ConnectResponse.RoundTrip as Connect
use linux_bt_proxy.Api.PingResponse
use linux_bt_proxy.Api.PingResponse.{PingResponse}
use linux_bt_proxy.Api.PingResponse.RoundTrip as Ping
use linux_bt_proxy.Api.DeviceInfoResponse
use linux_bt_proxy.Api.DeviceInfoResponse.{DeviceInfoResponse}
use linux_bt_proxy.Api.DeviceInfoResponse.Reading
use linux_bt_proxy.Api.DeviceInfoResponse.RoundTrip as Info
use linux_bt_proxy.Api.ListEntitiesDoneResponse
use linux_bt_proxy.Api.ListEntitiesDoneResponse.{ListEntitiesDoneResponse}
use linux_bt_proxy.Api.ListEntitiesDoneResponse.RoundTrip as Listed
use linux_bt_proxy.Api.BluetoothConnectionsFreeResponse
use linux_bt_proxy.Api.BluetoothConnectionsFreeResponse.{BluetoothConnectionsFreeResponse}
use linux_bt_proxy.Api.BluetoothConnectionsFreeResponse.RoundTrip as Free
use linux_bt_proxy.Api.BluetoothLeRawAdvertisement.{BluetoothLeRawAdvertisement}
use linux_bt_proxy.Api.BluetoothLeRawAdvertisementsResponse
use linux_bt_proxy.Api.BluetoothLeRawAdvertisementsResponse.RoundTrip as Batch
use linux_bt_proxy.Api.BluetoothLeAdvertisementResponse
use linux_bt_proxy.Api.BluetoothLeAdvertisementResponse.{BluetoothLeAdvertisementResponse}
use linux_bt_proxy.Api.BluetoothLeAdvertisementResponse.RoundTrip as Parsed
use linux_bt_proxy.Ble.{BleAdvertisement}
use linux_bt_proxy.Handlers.{SubscriptionFlags}
use linux_bt_proxy.Handlers.Reply.{IsSendable}
use linux_bt_proxy.Server.Drain.{Parcel, IsParcel, frames, frames-IsBytes}

-- An advertisement, in the form that it is sent in, or a response.
pub data Delivered (rt : Protobuf) : Type 0 where
  raw_advert : BluetoothLeRawAdvertisement rt → Delivered rt
  parsed_advert : BluetoothLeAdvertisementResponse rt → Delivered rt
  hello_response : HelloResponse rt → Delivered rt
  connect_response : ConnectResponse rt → Delivered rt
  ping_response : PingResponse rt → Delivered rt
  device_info_response : DeviceInfoResponse rt → Delivered rt
  list_entities_done_response : ListEntitiesDoneResponse rt → Delivered rt
  connections_free_response : BluetoothConnectionsFreeResponse rt → Delivered rt

-- What a subscription asks for; raw comes before parsed.
abbrev pub wanted : {rt : Protobuf} → SubscriptionFlags → BleAdvertisement rt → List (Delivered rt)
wanted flags a =
    if flags.raw
    then raw_advert a.raw ∷ []
    else if flags.regular
    then parsed_advert a.legacy ∷ []
    else []

module _ (lib : BytesMut) (rt : Protobuf) where
  abbrev pub raws :
      Merged (BluetoothLeRawAdvertisementsResponse.BluetoothLeRawAdvertisementsResponse rt)
      → List (Delivered rt)
  raws (merged m) = map raw_advert m.advertisements
  raws failed = []
  raws stuck = []

  -- A message that was read is delivered.
  abbrev pub one : {M : Type 0} → (M → Delivered rt) → Merged M → List (Delivered rt)
  one delivered (merged m) = delivered m ∷ []
  one delivered failed = []
  one delivered stuck = []

  -- What a message of each type holds.
  abbrev pub carried : ℕ → Bytes → List (Delivered rt)
  carried msg_type payload =
      if msg_type == 93
      then raws (BluetoothLeRawAdvertisementsResponse.parse rt payload)
      else if msg_type == 67
      then one parsed_advert (BluetoothLeAdvertisementResponse.parse rt payload)
      else if msg_type == 2
      then one hello_response (HelloResponse.parse rt payload)
      else if msg_type == 4
      then one connect_response (ConnectResponse.parse rt payload)
      else if msg_type == 8
      then one ping_response (PingResponse.parse rt payload)
      else if msg_type == 10
      then one device_info_response (Reading.parse rt payload)
      else if msg_type == 19
      then one list_entities_done_response (ListEntitiesDoneResponse.parse rt payload)
      else if msg_type == 81
      then one connections_free_response (BluetoothConnectionsFreeResponse.parse rt payload)
      else []

  -- That of the next message, if there is one, and of what is behind it.
  abbrev heard : (Bytes → List (Delivered rt)) → Outcome Next → List (Delivered rt)
  heard behind panics = []
  heard behind (returns (none, rest)) = []
  heard behind (returns (some (msg_type, payload), rest)) = carried msg_type payload ++ behind rest

  -- What the first so many frames of what was sent hold.
  abbrev pub received : ℕ → Bytes → List (Delivered rt)
  received zero bytes = []
  received (suc n) bytes = heard (received n) (next_message lib bytes)

  pub received-nothing : (n : ℕ) → received n [] ≡ []
  unfolding next_message
  received-nothing zero = refl
  received-nothing (suc n) = refl

  pub received-frame :
      (n msg_type : ℕ) (payload rest : Bytes)
      → msg_type < 2 ^ 32
      → length payload < 2 ^ 63
      → IsBytes payload
      → IsBytes rest
      → received (suc n) (frame msg_type payload ++ rest)
        ≡ carried msg_type payload ++ received n rest
  received-frame n msg_type payload rest type_fits len_fits bytes more =
      ap (heard (received n))
        (next_message-frame lib msg_type payload rest type_fits len_fits bytes more)

-- The message of type 93 that carries one raw advertisement.
abbrev pub batch :
    (rt : Protobuf)
    → BluetoothLeRawAdvertisement rt
    → BluetoothLeRawAdvertisementsResponse.BluetoothLeRawAdvertisementsResponse rt
batch rt a = record (BluetoothLeRawAdvertisementsResponse.new rt) { advertisements = a ∷ [] }

-- The type and the payload of the message that delivers.
abbrev pub parcel_of : {rt : Protobuf} → Delivered rt → Parcel
parcel_of {rt} (raw_advert a) = (93, BluetoothLeRawAdvertisementsResponse.write_to rt (batch rt a))
parcel_of {rt} (parsed_advert a) = (67, BluetoothLeAdvertisementResponse.write_to rt a)
parcel_of {rt} (hello_response m) = (2, HelloResponse.write_to rt m)
parcel_of {rt} (connect_response m) = (4, ConnectResponse.write_to rt m)
parcel_of {rt} (ping_response m) = (8, PingResponse.write_to rt m)
parcel_of {rt} (device_info_response m) = (10, DeviceInfoResponse.write_to rt m)
parcel_of {rt} (list_entities_done_response m) = (19, ListEntitiesDoneResponse.write_to rt m)
parcel_of {rt} (connections_free_response m) = (81, BluetoothConnectionsFreeResponse.write_to rt m)
