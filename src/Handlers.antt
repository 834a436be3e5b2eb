-- ===== src/Handlers.antt =====
-- src/handlers.rs: a function per request, which reads the payload and writes the response's frame,
-- and the two that forward an advertisement.
pub mod Reply
pub mod Flags
use linux_bt_proxy.Prelude.{
  ℕ, ◌%◌, ◌^◌, ◌≡◌, Bool, true, false, not, ◌||◌, Option, none, some, [], ◌∷◌, ◌++◌, Bytes, bit_and,
  ◌==◌,
}
use linux_bt_proxy.Text.{codes}
use linux_bt_proxy.Utils.{format_mac}
use linux_bt_proxy.Context.{ProxyContext}
use linux_bt_proxy.Proto.Varint.{encode_varint}
use linux_bt_proxy.Net.{
  Net, info, Answer, done, error, ◌>>=◌, or_error, checked, log_peer, write_response,
}
use linux_bt_proxy.Api.Runtime.{Protobuf}
use linux_bt_proxy.Api.Runtime.Merge.{Merged, merged, failed, stuck}
use linux_bt_proxy.Api.Message
use linux_bt_proxy.Api.Message.{Message, get_message_id}
use linux_bt_proxy.Api.HelloRequest
use linux_bt_proxy.Api.HelloResponse
use linux_bt_proxy.Api.ConnectRequest
use linux_bt_proxy.Api.ConnectResponse
use linux_bt_proxy.Api.DisconnectRequest
use linux_bt_proxy.Api.DisconnectResponse
use linux_bt_proxy.Api.PingRequest
use linux_bt_proxy.Api.PingResponse
use linux_bt_proxy.Api.DeviceInfoRequest
use linux_bt_proxy.Api.DeviceInfoResponse
use linux_bt_proxy.Api.ListEntitiesRequest
use linux_bt_proxy.Api.ListEntitiesDoneResponse
use linux_bt_proxy.Api.SubscribeBluetoothConnectionsFreeRequest
use linux_bt_proxy.Api.BluetoothConnectionsFreeResponse
use linux_bt_proxy.Api.SubscribeBluetoothLeAdvertisementsRequest
use linux_bt_proxy.Api.BluetoothLeAdvertisementResponse.{BluetoothLeAdvertisementResponse}
use linux_bt_proxy.Api.BluetoothLeRawAdvertisement.{BluetoothLeRawAdvertisement}
use linux_bt_proxy.Api.BluetoothLeRawAdvertisementsResponse

pub record SubscriptionFlags : Type 0 where
  pub regular : Bool
  pub raw : Bool

-- `SubscriptionFlags::none`
unfoldable pub no_flags : SubscriptionFlags
no_flags = record { regular = false; raw = false }

unfoldable pub from_flags : ℕ → SubscriptionFlags
from_flags flags = record {
  regular = (flags == 0) || (bit_and flags 1 == 0);
  raw = not (bit_and flags 1 == 0);
}

-- `parse_from_bytes(…)?`; the result of running out of rounds is no result of the code.
abbrev pub parsed : {M : Type 0} → Merged M → Option M
parsed (merged m) = some m
parsed failed = none
parsed stuck = none

module _ (net : Net) where
  open net use {Stream}

  -- `Vec::with_capacity`, then the three parts of the frame.
  unfoldable pub encode_response : {M : Type 0} → Message M → ℕ → M → Option Bytes
  encode_response message msg_type m =
      let size = message.compute_size m in
      net.write_to_vec (0 ∷ (encode_varint size ++ encode_varint msg_type)) (message.write_to m)

  -- What follows the log line in a handler: the request is parsed, the response is written.
  unfoldable pub respond : {R M : Type 0} → Merged R → Message M → M → Stream → Answer Stream Unit
  unfolding encode_response write_response get_message_id
  respond request message resp s = do
    (_, s) ← or_error s (parsed request)
    write_response net (encode_response message (get_message_id message) resp) s

  module _ (rt : Protobuf) where
    unfoldable pub hello_response : HelloResponse.HelloResponse rt
    unfolding HelloResponse.new
    hello_response = record (HelloResponse.new rt) {
      api_version_major = 1;
      api_version_minor = 10;
      server_info = codes "linux_bt_proxy";
      name = codes "Linux Bluetooth Proxy";
    }

    unfoldable pub hello_request : Stream → Bytes → Answer Stream Unit
    unfolding log_peer respond hello_response HelloRequest.parse
    hello_request s payload = do
      (_, s) ← log_peer net info s
      respond (HelloRequest.parse rt payload) (Message.hello_response rt) hello_response s

    unfoldable pub connect_request : Stream → Bytes → Answer Stream Unit
    unfolding log_peer respond ConnectRequest.parse ConnectResponse.new
    connect_request s payload = do
      (_, s) ← log_peer net info s
      respond (ConnectRequest.parse rt payload) (Message.connect_response rt)
          (ConnectResponse.new rt) s

    unfoldable pub disconnect_request : Stream → Bytes → Answer Stream Unit
    unfolding log_peer respond DisconnectRequest.parse DisconnectResponse.new
    disconnect_request s payload = do
      (_, s) ← log_peer net info s
      (_, s) ←
          respond (DisconnectRequest.parse rt payload) (Message.disconnect_response rt)
            (DisconnectResponse.new rt) s
      checked (net.shutdown s)

    unfoldable pub ping_request : Stream → Bytes → Answer Stream Unit
    unfolding log_peer respond PingRequest.parse PingResponse.new
    ping_request s payload = do
      (_, s) ← log_peer net info s
      respond (PingRequest.parse rt payload) (Message.ping_response rt) (PingResponse.new rt) s

    unfoldable pub connections_free_response :
        BluetoothConnectionsFreeResponse.BluetoothConnectionsFreeResponse rt
    unfolding BluetoothConnectionsFreeResponse.new
    connections_free_response = record (BluetoothConnectionsFreeResponse.new rt) {
      free = 0;
      limit = 0;
    }

    unfoldable pub subscribe_bluetooth_connections_free_request :
        Stream → Bytes → Answer Stream Unit
    unfolding log_peer respond connections_free_response
        SubscribeBluetoothConnectionsFreeRequest.parse
    subscribe_bluetooth_connections_free_request s payload = do
      (_, s) ← log_peer net info s
      respond (SubscribeBluetoothConnectionsFreeRequest.parse rt payload)
          (Message.bluetooth_connections_free_response rt) connections_free_response s

    unfoldable pub device_info_response : ProxyContext → DeviceInfoResponse.DeviceInfoResponse rt
    unfolding DeviceInfoResponse.new format_mac
    device_info_response ctx = record (DeviceInfoResponse.new rt) {
      name = codes "Linux BT Proxy: " ++ ctx.hostname;
      mac_address = format_mac ctx.net_mac (codes ":");
      esphome_version = ctx.version;
      compilation_time = ctx.build_time;
      model = codes "Linux";
      legacy_bluetooth_proxy_version = 5;
      bluetooth_proxy_feature_flags = 0x20;
      friendly_name = codes "Linux BT Proxy: " ++ ctx.hostname;
      bluetooth_mac_address = format_mac ctx.bt_mac (codes ":");
      api_encryption_supported = false;
    }

    unfoldable pub device_info_request : ProxyContext → Stream → Bytes → Answer Stream Unit
    unfolding log_peer respond device_info_response DeviceInfoRequest.parse
    device_info_request ctx s payload = do
      (_, s) ← log_peer net info s
      respond (DeviceInfoRequest.parse rt payload) (Message.device_info_response rt)
          (device_info_response ctx) s

    unfoldable pub list_entities_request : Stream → Bytes → Answer Stream Unit
    unfolding log_peer respond ListEntitiesRequest.parse ListEntitiesDoneResponse.new
    list_entities_request s payload = do
      (_, s) ← log_peer net info s
      respond (ListEntitiesRequest.parse rt payload) (Message.list_entities_done_response rt)
          (ListEntitiesDoneResponse.new rt) s

    unfoldable pub subscribe_bluetooth_le_advertisements_request :
        Stream → Bytes → Answer Stream SubscriptionFlags
    unfolding log_peer from_flags SubscribeBluetoothLeAdvertisementsRequest.parse
    subscribe_bluetooth_le_advertisements_request s payload = do
      (_, s) ← log_peer net info s
      (req, s) ← or_error s (parsed (SubscribeBluetoothLeAdvertisementsRequest.parse rt payload))
      done (from_flags req.flags) s

    unfoldable pub forward_ble_advertisement :
        Stream → BluetoothLeAdvertisementResponse rt → Answer Stream Unit
    unfolding write_response encode_response get_message_id
    forward_ble_advertisement s adv =
        let message = Message.bluetooth_le_advertisement_response rt in
        write_response net (encode_response message (get_message_id message) adv) s

    unfoldable pub forward_raw_ble_advertisement :
        Stream → BluetoothLeRawAdvertisement rt → Answer Stream Unit
    unfolding write_response encode_response get_message_id BluetoothLeRawAdvertisementsResponse.new
    forward_raw_ble_advertisement s adv =
        let message = Message.bluetooth_le_raw_advertisements_response rt in
        let resp = record (BluetoothLeRawAdvertisementsResponse.new rt) {
          advertisements = adv ∷ [];
        } in
        write_response net (encode_response message (get_message_id message) resp) s
