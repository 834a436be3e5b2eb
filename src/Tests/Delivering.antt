-- ===== src/Tests/Delivering.antt =====
-- A run from BlueZ's signals to a client.
use linux_bt_proxy.Prelude.{◌≡◌, refl, some, List, [], ◌∷◌, map, Bytes, All, length, arith}
use linux_bt_proxy.Text.{split, u8_from_hex}
use linux_bt_proxy.RawAdv.Uuid.{bytes_eq}
use linux_bt_proxy.Proto.Varint.{encode_varint}
use linux_bt_proxy.Api.BluetoothLeRawAdvertisement
use linux_bt_proxy.Api.BluetoothLeRawAdvertisementsResponse
use linux_bt_proxy.Api.BluetoothLeAdvertisementResponse
use linux_bt_proxy.Ble.{BleAdvertisement, build_advertisement, legacy_of}
use linux_bt_proxy.Ble.Listener.{
  is_open, get_device_properties, Signal, Log, device_changed, device_end, listening,
  try_start_discovery, run_bluez_advertisement_listener,
}
use linux_bt_proxy.Server.{advert, serving, run}
use linux_bt_proxy.Server.Advert.{IsForwardable, raw_message}
use linux_bt_proxy.Server.Delivered.{received}
use linux_bt_proxy.Server.Received.{all_wanted, IsReadable}
use linux_bt_proxy.Proxy.{reported, received-signals}
use linux_bt_proxy.Tests.Wire.{protobuf}
use linux_bt_proxy.Tests.WireBack.{reads_back}
use linux_bt_proxy.Tests.Instances.{bytes_mut, net, dbus, in_bytes}
use linux_bt_proxy.Tests.Devices.{lamp}
use linux_bt_proxy.Tests.Advertising.{idle_ctx}
use linux_bt_proxy.Tests.Running.{sound, parsed_client}
use linux_bt_proxy.Tests.Starting.{lamp_advert, lamp_built, all_open, there, busy}

abbrev pub lamp_signals : List (Signal dbus protobuf)
lamp_signals = device_changed (some (there lamp)) ∷ device_end ∷ []

of_reported :
    (P : BleAdvertisement protobuf → Type 0)
    → P lamp_advert
    → All P (reported dbus protobuf lamp_signals)
unfolding build_advertisement bytes_eq split u8_from_hex get_device_properties
of_reported P h = (h, tt)

pub lamp-IsForwardable : IsForwardable protobuf lamp_advert
unfolding encode_varint legacy_of bytes_eq BluetoothLeRawAdvertisement.compute_size
    BluetoothLeRawAdvertisementsResponse.compute_size BluetoothLeRawAdvertisementsResponse.new
    BluetoothLeAdvertisementResponse.compute_size
lamp-IsForwardable = (((omega arith, tt), omega arith), ((tt, tt), omega arith))

pub lamp-IsReadable : IsReadable bytes_mut protobuf reads_back lamp_advert
unfolding encode_varint legacy_of bytes_eq BluetoothLeRawAdvertisement.compute_size
    BluetoothLeRawAdvertisement.write_to BluetoothLeRawAdvertisementsResponse.write_to
    BluetoothLeRawAdvertisementsResponse.new BluetoothLeAdvertisementResponse.write_to
lamp-IsReadable = (
  ((((omega arith, omega arith, omega arith, omega arith, refl), omega arith), tt), refl),
  in_bytes
      (BluetoothLeRawAdvertisementsResponse.write_to protobuf (raw_message protobuf lamp_advert))
      refl,
  (omega arith, omega arith, omega arith, tt, tt, tt, omega arith, refl),
  in_bytes (BluetoothLeAdvertisementResponse.write_to protobuf lamp_advert.legacy) refl,
)

received-signals_example :
    (log : Log dbus protobuf) × (s' : Bytes) × (bytes : Bytes) × (run_bluez_advertisement_listener
        dbus protobuf all_open busy lamp_signals
      ≡ listening log)
    × (run bytes_mut net protobuf idle_ctx (serving parsed_client) (map advert log.advertised)
        ≡ serving (record parsed_client { stream = s' }))
    × (s' ≡ bytes)
    × (received bytes_mut protobuf (length log.advertised) bytes
        ≡ all_wanted parsed_client.subscription_flags (reported dbus protobuf lamp_signals))
unfolding bytes_eq try_start_discovery get_device_properties is_open
received-signals_example =
    received-signals dbus protobuf bytes_mut reads_back net idle_ctx sound all_open busy
      lamp_signals parsed_client refl refl
      ((refl, tt, (some lamp_advert, lamp_built)), ((refl, tt, tt), tt))
      (of_reported (IsForwardable protobuf) lamp-IsForwardable)
      (of_reported (IsReadable bytes_mut protobuf reads_back) lamp-IsReadable)
