-- ===== src/Tests/Advertising.antt =====
-- Runs on advertisements and subscriptions.
use linux_bt_proxy.Prelude.{◌≡◌, refl, true, false, [], ◌∷◌, arith}
use linux_bt_proxy.Context.{ProxyContext}
use linux_bt_proxy.Proto.Varint.{encode_varint, decode_varint}
use linux_bt_proxy.Api.BluetoothLeRawAdvertisement
use linux_bt_proxy.Api.BluetoothLeRawAdvertisementsResponse
use linux_bt_proxy.Api.BluetoothLeAdvertisementResponse
use linux_bt_proxy.Ble.{BleAdvertisement}
use linux_bt_proxy.Handlers.{no_flags, subscribe_bluetooth_le_advertisements_request}
use linux_bt_proxy.Server.{Client, forward, step, read_bytes}
use linux_bt_proxy.Server.Advert.{chosen_frame, forward_frame, forward-chosen_frame}
use linux_bt_proxy.Server.Subscription.{
  IsExclusive, Reachable, connected, stepped, Reachable-IsExclusive,
}
use linux_bt_proxy.Tests.Wire.{protobuf}
use linux_bt_proxy.Tests.Instances.{bytes_mut, net}

abbrev pub idle_ctx : ProxyContext
idle_ctx = record {
  hostname = [];
  port = 6053;
  net_mac = [];
  bt_mac = [];
  build_time = [];
  version = [];
}

abbrev pub raw_client : Client net
raw_client = record {
  buf = [];
  subscription_flags = record { regular = false; raw = true };
  stream = [];
}

abbrev empty_advert : BleAdvertisement protobuf
empty_advert = record {
  legacy = BluetoothLeAdvertisementResponse.new protobuf;
  raw = BluetoothLeRawAdvertisement.new protobuf;
}

forward-chosen_frame_example :
    forward bytes_mut net protobuf idle_ctx raw_client empty_advert
    ≡ forward_frame protobuf bytes_mut net idle_ctx raw_client
        (chosen_frame protobuf raw_client.subscription_flags empty_advert)
unfolding encode_varint BluetoothLeRawAdvertisement.compute_size BluetoothLeRawAdvertisement.new
    BluetoothLeRawAdvertisementsResponse.compute_size BluetoothLeRawAdvertisementsResponse.new
    BluetoothLeAdvertisementResponse.compute_size BluetoothLeAdvertisementResponse.new
forward-chosen_frame_example =
    forward-chosen_frame protobuf bytes_mut net idle_ctx raw_client empty_advert
      (((omega arith, tt), omega arith), ((tt, tt), omega arith))

-- A request for raw advertisements, in one read.
raw_client-Reachable : Reachable bytes_mut net protobuf idle_ctx raw_client
unfolding no_flags step decode_varint subscribe_bluetooth_le_advertisements_request
raw_client-Reachable = stepped (read_bytes (0 ∷ 2 ∷ 66 ∷ 8 ∷ 1 ∷ [])) (connected []) refl

Reachable-IsExclusive_example : IsExclusive raw_client.subscription_flags
Reachable-IsExclusive_example =
    Reachable-IsExclusive bytes_mut net protobuf idle_ctx raw_client-Reachable
