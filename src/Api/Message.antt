-- ===== src/Api/Message.antt =====
-- The messages that the proxy sends, as `encode_response` (src/handlers.rs) uses them: protobuf's
-- `Message` with the extension `id` of proto/api.proto, which src/proto.rs reads.
use linux_bt_proxy.Prelude.{ℕ, ◌%◌, ◌≡◌, Bytes, length}
use linux_bt_proxy.Api.Runtime.{Protobuf}
use linux_bt_proxy.Api.HelloResponse
use linux_bt_proxy.Api.HelloResponse.{HelloResponse}
use linux_bt_proxy.Api.ConnectResponse
use linux_bt_proxy.Api.ConnectResponse.{ConnectResponse}
use linux_bt_proxy.Api.DisconnectResponse
use linux_bt_proxy.Api.DisconnectResponse.{DisconnectResponse}
use linux_bt_proxy.Api.PingResponse
use linux_bt_proxy.Api.PingResponse.{PingResponse}
use linux_bt_proxy.Api.DeviceInfoResponse
use linux_bt_proxy.Api.DeviceInfoResponse.{DeviceInfoResponse}
use linux_bt_proxy.Api.ListEntitiesDoneResponse
use linux_bt_proxy.Api.ListEntitiesDoneResponse.{ListEntitiesDoneResponse}
use linux_bt_proxy.Api.BluetoothLeAdvertisementResponse
use linux_bt_proxy.Api.BluetoothLeAdvertisementResponse.{BluetoothLeAdvertisementResponse}
use linux_bt_proxy.Api.BluetoothLeRawAdvertisementsResponse
use linux_bt_proxy.Api.BluetoothLeRawAdvertisementsResponse.{BluetoothLeRawAdvertisementsResponse}
use linux_bt_proxy.Api.BluetoothConnectionsFreeResponse
use linux_bt_proxy.Api.BluetoothConnectionsFreeResponse.{BluetoothConnectionsFreeResponse}

pub record Message (M : Type 0) : Type 1 where
  -- `option (id)` in proto/api.proto
  pub id : ℕ
  pub compute_size : M → ℕ
  pub write_to : M → Bytes
  pub Fits : M → Type 0
  pub length-write_to : (m : M) → Fits m → length (write_to m) ≡ compute_size m

-- `as u8`
unfoldable pub get_message_id : {M : Type 0} → Message M → ℕ
get_message_id message = message.id % 256

module _ (rt : Protobuf) where
  abbrev pub hello_response : Message (HelloResponse rt)
  hello_response = record {
    id = 2;
    compute_size = HelloResponse.compute_size rt;
    write_to = HelloResponse.write_to rt;
    Fits = λ _. Unit;
    length-write_to = λ m _. HelloResponse.length-write_to rt m;
  }

  abbrev pub connect_response : Message (ConnectResponse rt)
  connect_response = record {
    id = 4;
    compute_size = ConnectResponse.compute_size rt;
    write_to = ConnectResponse.write_to rt;
    Fits = λ _. Unit;
    length-write_to = λ m _. ConnectResponse.length-write_to rt m;
  }

  abbrev pub disconnect_response : Message (DisconnectResponse rt)
  disconnect_response = record {
    id = 6;
    compute_size = DisconnectResponse.compute_size rt;
    write_to = DisconnectResponse.write_to rt;
    Fits = λ _. Unit;
    length-write_to = λ m _. DisconnectResponse.length-write_to rt m;
  }

  abbrev pub ping_response : Message (PingResponse rt)
  ping_response = record {
    id = 8;
    compute_size = PingResponse.compute_size rt;
    write_to = PingResponse.write_to rt;
    Fits = λ _. Unit;
    length-write_to = λ m _. PingResponse.length-write_to rt m;
  }

  abbrev pub device_info_response : Message (DeviceInfoResponse rt)
  device_info_response = record {
    id = 10;
    compute_size = DeviceInfoResponse.compute_size rt;
    write_to = DeviceInfoResponse.write_to rt;
    Fits = DeviceInfoResponse.Fits rt;
    length-write_to = DeviceInfoResponse.length-write_to rt;
  }

  abbrev pub list_entities_done_response : Message (ListEntitiesDoneResponse rt)
  list_entities_done_response = record {
    id = 19;
    compute_size = ListEntitiesDoneResponse.compute_size rt;
    write_to = ListEntitiesDoneResponse.write_to rt;
    Fits = λ _. Unit;
    length-write_to = λ m _. ListEntitiesDoneResponse.length-write_to rt m;
  }

  abbrev pub bluetooth_le_advertisement_response : Message (BluetoothLeAdvertisementResponse rt)
  bluetooth_le_advertisement_response = record {
    id = 67;
    compute_size = BluetoothLeAdvertisementResponse.compute_size rt;
    write_to = BluetoothLeAdvertisementResponse.write_to rt;
    Fits = BluetoothLeAdvertisementResponse.Fits rt;
    length-write_to = BluetoothLeAdvertisementResponse.length-write_to rt;
  }

  abbrev pub bluetooth_le_raw_advertisements_response :
      Message (BluetoothLeRawAdvertisementsResponse rt)
  bluetooth_le_raw_advertisements_response = record {
    id = 93;
    compute_size = BluetoothLeRawAdvertisementsResponse.compute_size rt;
    write_to = BluetoothLeRawAdvertisementsResponse.write_to rt;
    Fits = BluetoothLeRawAdvertisementsResponse.Fits rt;
    length-write_to = BluetoothLeRawAdvertisementsResponse.length-write_to rt;
  }

  abbrev pub bluetooth_connections_free_response : Message (BluetoothConnectionsFreeResponse rt)
  bluetooth_connections_free_response = record {
    id = 81;
    compute_size = BluetoothConnectionsFreeResponse.compute_size rt;
    write_to = BluetoothConnectionsFreeResponse.write_to rt;
    Fits = λ _. Unit;
    length-write_to = λ m _. BluetoothConnectionsFreeResponse.length-write_to rt m;
  }
