-- ===== src/Tests/Proxying.antt =====
-- A run from BlueZ's signals over the channel to a client that subscribes.
use linux_bt_proxy.Prelude.{
  All, ℕ, true, false, ◌+◌, ◌≡◌, refl, some, List, [], ◌∷◌, Bytes, length, arith,
}
use linux_bt_proxy.Text.{split, u8_from_hex}
use linux_bt_proxy.RawAdv.Uuid.{bytes_eq}
use linux_bt_proxy.Proto.Frame.{next_message}
use linux_bt_proxy.Proto.Varint.{encode_varint, decode_varint}
use linux_bt_proxy.Api.BluetoothLeRawAdvertisement
use linux_bt_proxy.Api.BluetoothLeRawAdvertisementsResponse
use linux_bt_proxy.Api.SubscribeBluetoothLeAdvertisementsRequest
use linux_bt_proxy.Handlers.{
  from_flags, encode_response, subscribe_bluetooth_le_advertisements_request,
  forward_raw_ble_advertisement,
}
use linux_bt_proxy.Net.{log_peer, write_response}
use linux_bt_proxy.Api.Message.{get_message_id}
use linux_bt_proxy.Ble.{BleAdvertisement, build_advertisement, legacy_of}
use linux_bt_proxy.Ble.Listener.{
  is_open, get_device_properties, publish_some, Log, listening, set_discovery_filter,
  start_discovery, listen, listen_step, publish, restart, try_start_discovery,
  run_bluez_advertisement_listener,
}
use linux_bt_proxy.Server.{Served, serving, handle_client, run, step, drain, forward, dispatch}
use linux_bt_proxy.Server.Accept.{get_elem?, accepting, accept_step, run_tcp_server}
use linux_bt_proxy.Server.Drain.{frames}
use linux_bt_proxy.Server.Delivered.{raw_advert, received, parcel_of}
use linux_bt_proxy.Server.Conversation.{Turn, IsServable, subscribe, reads, hears}
use linux_bt_proxy.System.{
  Happening, advertises, connects, receives, start, taken, arrival_of, receivers_after, chan_after,
  system_step, run_system, arrivals,
}
use linux_bt_proxy.System as Running
use linux_bt_proxy.System.Client.{begun}
use linux_bt_proxy.Proxy.Serving.{proxy-serves}
use linux_bt_proxy.Tests.Wire.{protobuf}
use linux_bt_proxy.Tests.WireBack.{reads_back}
use linux_bt_proxy.Tests.Instances.{bytes_mut, net, dbus, in_bytes}
use linux_bt_proxy.Tests.Channel.{broadcast}
use linux_bt_proxy.Tests.Advertising.{idle_ctx}
use linux_bt_proxy.Tests.Running.{sound}
use linux_bt_proxy.Tests.Starting.{lamp_advert, lamp_built, all_open, busy}
use linux_bt_proxy.Tests.Delivering.{lamp_signals, lamp-IsForwardable, lamp-IsReadable}

abbrev turns : List (Turn protobuf)
turns = reads (subscribe (record { flags = 1; special_fields = tt })) [] ∷ hears lamp_advert ∷ []

abbrev subscribing : Bytes
subscribing = 0 ∷ 2 ∷ 66 ∷ 8 ∷ 1 ∷ []

abbrev after : List (Happening net protobuf)
after = Running.reads 0 subscribing ∷ advertises lamp_advert ∷ receives 0 ∷ []

abbrev left : Served net
left = serving (record {
  buf = [];
  subscription_flags = record { regular = false; raw = true };
  stream = frames (parcel_of (raw_advert lamp_advert.raw) ∷ []);
})

abbrev advertising : Log dbus protobuf
advertising = record {
  advertised = lamp_advert ∷ [];
  calls = set_discovery_filter true ∷ start_discovery ∷ [];
}

listens :
    run_bluez_advertisement_listener dbus protobuf all_open busy lamp_signals
    ≡ listening advertising
unfolding run_bluez_advertisement_listener listen listen_step publish publish_some
    get_device_properties is_open restart try_start_discovery build_advertisement bytes_eq split
    u8_from_hex
listens = refl

abbrev whole : List (Happening net protobuf)
whole = connects [] ∷ after

goes :
    (run_system bytes_mut net protobuf idle_ctx
      (broadcast (BleAdvertisement protobuf))
      (begun bytes_mut net protobuf idle_ctx (broadcast (BleAdvertisement protobuf)))
      whole).tasks
    ≡ accepting (left ∷ [])
unfolding start run_system system_step arrivals arrival_of receivers_after chan_after taken
    run_tcp_server accept_step handle_client run step drain dispatch forward next_message
    decode_varint encode_varint subscribe_bluetooth_le_advertisements_request
    SubscribeBluetoothLeAdvertisementsRequest.parse forward_raw_ble_advertisement
    BluetoothLeRawAdvertisementsResponse.write_to BluetoothLeRawAdvertisementsResponse.compute_size
    BluetoothLeRawAdvertisementsResponse.new BluetoothLeRawAdvertisement.write_to
    BluetoothLeRawAdvertisement.compute_size legacy_of bytes_eq log_peer write_response
    encode_response get_message_id from_flags
goes = refl

servable : All (IsServable net idle_ctx reads_back) turns
unfolding SubscribeBluetoothLeAdvertisementsRequest.write_to encode_varint
servable =
    let (raw_typed, raw_bytes, typed, bytes) = lamp-IsReadable in
    (
      ((((omega arith, refl), in_bytes (8 ∷ 1 ∷ []) refl, tt), tt), omega arith),
      (((raw_typed, lamp-IsForwardable.0, raw_bytes), (typed, lamp-IsForwardable.1, bytes)), tt),
    )

proxy-serves_example :
    (s' : Bytes) × (bytes : Bytes) × (r : ℕ) × (to_come : List (BleAdvertisement protobuf))
    × (get_elem? (left ∷ []) 0
        ≡ some (
            serving (record {
              buf = [];
              subscription_flags = record { regular = false; raw = true };
              stream = s';
            })))
    × (s' ≡ bytes)
    × (received bytes_mut protobuf 1 bytes ≡ raw_advert lamp_advert.raw ∷ [])
    × (lamp_advert ∷ to_come ≡ lamp_advert ∷ [])
    × ((get_elem? (1 ∷ []) 0 ≡ some r) × (r + length to_come ≡ 1))
unfolding start run_system system_step arrivals arrival_of receivers_after chan_after taken
    try_start_discovery get_device_properties is_open bytes_eq build_advertisement split u8_from_hex
    from_flags encode_varint SubscribeBluetoothLeAdvertisementsRequest.write_to
proxy-serves_example =
    proxy-serves dbus protobuf bytes_mut reads_back net idle_ctx sound
      (broadcast (BleAdvertisement protobuf)) all_open busy lamp_signals advertising [] after []
      (left ∷ []) turns refl refl ((refl, tt, (some lamp_advert, lamp_built)), ((refl, tt, tt), tt))
      listens refl goes (omega arith, (omega arith, (omega arith, tt))) refl servable
