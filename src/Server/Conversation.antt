-- ===== src/Server/Conversation.antt =====
-- A whole conversation with `handle_client` (src/server.rs): the requests that a client writes, the
-- advertisements of the channel between them, and what the client is to read.
pub mod Asked
pub mod Run
use linux_bt_proxy.Prelude.{ℕ, ◌^◌, ◌<◌, ◌≡◌, List, [], ◌∷◌, ◌++◌, map, Bytes, IsBytes, All, length}
use linux_bt_proxy.Context.{ProxyContext}
use linux_bt_proxy.Net.{Net}
use linux_bt_proxy.Api.Runtime.{Protobuf}
use linux_bt_proxy.Api.Runtime.ReadsBack.{ReadsBack}
use linux_bt_proxy.Api.HelloRequest
use linux_bt_proxy.Api.HelloRequest.{HelloRequest}
use linux_bt_proxy.Api.HelloRequest.RoundTrip as Hello
use linux_bt_proxy.Api.ConnectRequest
use linux_bt_proxy.Api.ConnectRequest.{ConnectRequest}
use linux_bt_proxy.Api.ConnectRequest.RoundTrip as Connect
use linux_bt_proxy.Api.ConnectResponse
use linux_bt_proxy.Api.PingRequest
use linux_bt_proxy.Api.PingRequest.{PingRequest}
use linux_bt_proxy.Api.PingRequest.RoundTrip as Ping
use linux_bt_proxy.Api.PingResponse
use linux_bt_proxy.Api.DeviceInfoRequest
use linux_bt_proxy.Api.DeviceInfoRequest.{DeviceInfoRequest}
use linux_bt_proxy.Api.DeviceInfoRequest.RoundTrip as Info
use linux_bt_proxy.Api.ListEntitiesRequest
use linux_bt_proxy.Api.ListEntitiesRequest.{ListEntitiesRequest}
use linux_bt_proxy.Api.ListEntitiesRequest.RoundTrip as Listing
use linux_bt_proxy.Api.ListEntitiesDoneResponse
use linux_bt_proxy.Api.SubscribeBluetoothConnectionsFreeRequest
use linux_bt_proxy.Api.SubscribeBluetoothConnectionsFreeRequest.{
  SubscribeBluetoothConnectionsFreeRequest,
}
use linux_bt_proxy.Api.SubscribeBluetoothConnectionsFreeRequest.RoundTrip as Free
use linux_bt_proxy.Api.SubscribeBluetoothLeAdvertisementsRequest
use linux_bt_proxy.Api.SubscribeBluetoothLeAdvertisementsRequest.{
  SubscribeBluetoothLeAdvertisementsRequest,
}
use linux_bt_proxy.Api.SubscribeBluetoothLeAdvertisementsRequest.RoundTrip as Subscribe
use linux_bt_proxy.Ble.{BleAdvertisement}
use linux_bt_proxy.Handlers
use linux_bt_proxy.Handlers.{SubscriptionFlags, no_flags, from_flags}
use linux_bt_proxy.Server.{Event, read_bytes, advert}
use linux_bt_proxy.Server.Drain.{Parcel, frames}
use linux_bt_proxy.Server.Delivered.{
  Delivered, raw_advert, parsed_advert, hello_response, connect_response, ping_response,
  device_info_response, list_entities_done_response, connections_free_response, wanted,
}
use linux_bt_proxy.Server.Delivered.Back.{IsDeliverable}

-- A request, as the message that the client writes; the payload of a request to unsubscribe is not
-- looked at.
pub data Request (rt : Protobuf) : Type 0 where
  hello : HelloRequest rt → Request rt
  connect : ConnectRequest rt → Request rt
  ping : PingRequest rt → Request rt
  device_info : DeviceInfoRequest rt → Request rt
  list_entities : ListEntitiesRequest rt → Request rt
  connections_free : SubscribeBluetoothConnectionsFreeRequest rt → Request rt
  subscribe : SubscribeBluetoothLeAdvertisementsRequest rt → Request rt
  unsubscribe : Bytes → Request rt

-- What the loop takes next: a read of whole requests, one at least, or an advertisement.
pub data Turn (rt : Protobuf) : Type 0 where
  reads : Request rt → List (Request rt) → Turn rt
  hears : BleAdvertisement rt → Turn rt

module _ {rt : Protobuf} where
  -- The type, by proto/api.proto, and the payload.
  abbrev pub asked : Request rt → Parcel
  asked (hello m) = (1, HelloRequest.write_to rt m)
  asked (connect m) = (3, ConnectRequest.write_to rt m)
  asked (ping m) = (7, PingRequest.write_to rt m)
  asked (device_info m) = (9, DeviceInfoRequest.write_to rt m)
  asked (list_entities m) = (11, ListEntitiesRequest.write_to rt m)
  asked (connections_free m) = (80, SubscribeBluetoothConnectionsFreeRequest.write_to rt m)
  asked (subscribe m) = (66, SubscribeBluetoothLeAdvertisementsRequest.write_to rt m)
  asked (unsubscribe payload) = (87, payload)

  abbrev pub event_of : Turn rt → Event rt
  event_of (reads r rs) = read_bytes (frames (map asked (r ∷ rs)))
  event_of (hears a) = advert a

  -- The subscription behind a request, some requests, a turn.
  abbrev pub behind : SubscriptionFlags → Request rt → SubscriptionFlags
  behind flags (hello m) = flags
  behind flags (connect m) = flags
  behind flags (ping m) = flags
  behind flags (device_info m) = flags
  behind flags (list_entities m) = flags
  behind flags (connections_free m) = flags
  behind flags (subscribe m) = from_flags m.flags
  behind flags (unsubscribe payload) = no_flags

  abbrev pub behind_all : SubscriptionFlags → List (Request rt) → SubscriptionFlags
  behind_all flags [] = flags
  behind_all flags (r ∷ rs) = behind_all (behind flags r) rs

  abbrev pub behind_turn : SubscriptionFlags → Turn rt → SubscriptionFlags
  behind_turn flags (reads r rs) = behind_all flags (r ∷ rs)
  behind_turn flags (hears a) = flags

  abbrev pub behind_turns : SubscriptionFlags → List (Turn rt) → SubscriptionFlags
  behind_turns flags [] = flags
  behind_turns flags (turn ∷ turns) = behind_turns (behind_turn flags turn) turns

  module _ (net : Net) (ctx : ProxyContext) where
    -- The response to a request, if it has one.
    abbrev pub response : Request rt → List (Delivered rt)
    response (hello m) = hello_response (Handlers.hello_response net rt) ∷ []
    response (connect m) = connect_response (ConnectResponse.new rt) ∷ []
    response (ping m) = ping_response (PingResponse.new rt) ∷ []
    response (device_info m) = device_info_response (Handlers.device_info_response net rt ctx) ∷ []
    response (list_entities m) = list_entities_done_response (ListEntitiesDoneResponse.new rt) ∷ []
    response (connections_free m) =
        connections_free_response (Handlers.connections_free_response net rt) ∷ []
    response (subscribe m) = []
    response (unsubscribe payload) = []

    abbrev pub responses : List (Request rt) → List (Delivered rt)
    responses [] = []
    responses (r ∷ rs) = response r ++ responses rs

    -- What a turn delivers with a subscription, and what the turns do from one on: the response of each
    -- request, and each advertisement in the form that is subscribed to when it comes.
    abbrev pub delivered : SubscriptionFlags → Turn rt → List (Delivered rt)
    delivered flags (reads r rs) = responses (r ∷ rs)
    delivered flags (hears a) = wanted flags a

    abbrev pub all_delivered : SubscriptionFlags → List (Turn rt) → List (Delivered rt)
    all_delivered flags [] = []
    all_delivered flags (turn ∷ turns) =
        delivered flags turn ++ all_delivered (behind_turn flags turn) turns

    module _ (back : ReadsBack rt) where
      -- The fields are in the ranges of their types.
      abbrev pub IsWritten : Request rt → Type 0
      IsWritten (hello m) = Hello.IsTyped rt back m
      IsWritten (connect m) = Connect.IsTyped rt back m
      IsWritten (ping m) = Ping.IsTyped rt back m
      IsWritten (device_info m) = Info.IsTyped rt back m
      IsWritten (list_entities m) = Listing.IsTyped rt back m
      IsWritten (connections_free m) = Free.IsTyped rt back m
      IsWritten (subscribe m) = Subscribe.IsTyped rt back m
      IsWritten (unsubscribe payload) = Unit

      -- A request that protobuf writes as bytes, and whose response can be delivered whole.
      abbrev pub IsAsked : Request rt → Type 0
      IsAsked r = IsWritten r × IsBytes ((asked r).1) × All (IsDeliverable back) (response r)

      -- A read is shorter than 2 ^ 63 bytes, and an advertisement can be delivered in both forms.
      abbrev pub IsServable : Turn rt → Type 0
      IsServable (reads r rs) =
          All IsAsked (r ∷ rs) × (length (frames (map asked (r ∷ rs))) < 2 ^ 63)
      IsServable (hears a) =
          IsDeliverable back (raw_advert a.raw) × IsDeliverable back (parsed_advert a.legacy)
