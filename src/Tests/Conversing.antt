-- ===== src/Tests/Conversing.antt =====
-- A conversation: a hello and a subscription in one read, an advertisement, a ping.
use linux_bt_proxy.Prelude.{true, false, ◌≡◌, refl, List, [], ◌∷◌, Bytes, map, arith}
use linux_bt_proxy.Proto.Varint.{encode_varint}
use linux_bt_proxy.Api.HelloRequest
use linux_bt_proxy.Api.HelloResponse
use linux_bt_proxy.Api.PingRequest
use linux_bt_proxy.Api.PingResponse
use linux_bt_proxy.Api.SubscribeBluetoothLeAdvertisementsRequest
use linux_bt_proxy.Api.BluetoothLeRawAdvertisement
use linux_bt_proxy.Api.BluetoothLeRawAdvertisementsResponse
use linux_bt_proxy.Api.BluetoothServiceData
use linux_bt_proxy.Api.BluetoothLeAdvertisementResponse
use linux_bt_proxy.Handlers
use linux_bt_proxy.Server.{serving, handle_client}
use linux_bt_proxy.Server.Delivered.{
  raw_advert, parsed_advert, batch, hello_response, ping_response, received,
}
use linux_bt_proxy.Server.Delivered.Back.{IsDeliverable}
use linux_bt_proxy.Server.Conversation.{Turn, hello, ping, subscribe, reads, hears, event_of}
use linux_bt_proxy.Server.Conversation.Run.{handle_client-converses}
use linux_bt_proxy.Tests.Wire.{protobuf}
use linux_bt_proxy.Tests.WireBack.{reads_back}
use linux_bt_proxy.Tests.Instances.{bytes_mut, net, in_bytes}
use linux_bt_proxy.Tests.Advertising.{idle_ctx}
use linux_bt_proxy.Tests.Running.{
  sound, seen, seen-IsInside, parsed_advert as running_advert, parsed_advert-IsTyped, both_forms,
}

abbrev turns : List (Turn protobuf)
turns =
    reads
      (hello (record {
        client_info = b'x' ∷ [];
        api_version_major = 1;
        api_version_minor = 10;
        special_fields = tt;
      }))
      (subscribe (record { flags = 1; special_fields = tt }) ∷ [])
    ∷ hears both_forms
    ∷ reads (ping (PingRequest.new protobuf)) []
    ∷ []

hello_delivered : IsDeliverable reads_back (hello_response (Handlers.hello_response net protobuf))
unfolding Handlers.hello_response HelloResponse.new HelloResponse.compute_size
    HelloResponse.write_to encode_varint
hello_delivered = (
  (omega arith, omega arith, (tt, omega arith), (tt, omega arith), refl),
  (tt, omega arith),
  in_bytes (HelloResponse.write_to protobuf (Handlers.hello_response net protobuf)) refl,
)

ping_delivered : IsDeliverable reads_back (ping_response (PingResponse.new protobuf))
unfolding PingResponse.new PingResponse.compute_size PingResponse.write_to
ping_delivered = (refl, (tt, omega arith), tt)

raw_delivered : IsDeliverable reads_back (raw_advert seen)
unfolding encode_varint BluetoothLeRawAdvertisement.compute_size
    BluetoothLeRawAdvertisement.write_to BluetoothLeRawAdvertisementsResponse.write_to
    BluetoothLeRawAdvertisementsResponse.compute_size BluetoothLeRawAdvertisementsResponse.new
raw_delivered = (
  ((seen-IsInside, tt), refl),
  ((omega arith, tt), omega arith),
  in_bytes (BluetoothLeRawAdvertisementsResponse.write_to protobuf (batch protobuf seen)) refl,
)

parsed_delivered : IsDeliverable reads_back (parsed_advert running_advert)
unfolding encode_varint BluetoothServiceData.compute_size BluetoothServiceData.write_to
    BluetoothLeAdvertisementResponse.write_to BluetoothLeAdvertisementResponse.compute_size
parsed_delivered = (
  parsed_advert-IsTyped,
  ((tt, (omega arith, tt)), omega arith),
  in_bytes (BluetoothLeAdvertisementResponse.write_to protobuf running_advert) refl,
)

handle_client-converses_example :
    (s' : Bytes) × (bytes : Bytes) × (handle_client bytes_mut net protobuf idle_ctx []
        (map event_of turns)
      ≡ serving (record {
        buf = [];
        subscription_flags = record { regular = false; raw = true };
        stream = s';
      }))
    × (s' ≡ bytes)
    × (received bytes_mut protobuf 3 bytes
        ≡ hello_response (Handlers.hello_response net protobuf)
          ∷ raw_advert seen
          ∷ ping_response (PingResponse.new protobuf)
          ∷ [])
unfolding HelloRequest.write_to SubscribeBluetoothLeAdvertisementsRequest.write_to
    PingRequest.write_to PingRequest.new Handlers.from_flags encode_varint
handle_client-converses_example =
    handle_client-converses reads_back net idle_ctx bytes_mut sound [] turns (
      (
        (
          (
            ((tt, omega arith), omega arith, omega arith, refl),
            in_bytes (10 ∷ 1 ∷ b'x' ∷ 16 ∷ 1 ∷ 24 ∷ 10 ∷ []) refl,
            (hello_delivered, tt),
          ),
          (((omega arith, refl), in_bytes (8 ∷ 1 ∷ []) refl, tt), tt),
        ),
        omega arith,
      ),
      (
        (raw_delivered, parsed_delivered),
        ((((refl, tt, (ping_delivered, tt)), tt), omega arith), tt),
      ),
    )
