-- ===== src/Tests/Devices.antt =====
-- Runs on BlueZ's properties of devices, on addresses and on UUIDs.
use linux_bt_proxy.Prelude.{
  true, false, ◌*◌, ◌^◌, ◌≡◌, ◌↔◌, refl, none, some, List, [], ◌∷◌, Bytes, length, arith, All, map,
  if◌then◌else◌,
}
use linux_bt_proxy.Prelude.Int.{negsuc}
use linux_bt_proxy.Prelude.Outcome.{returns, on_return}
use linux_bt_proxy.Text.{codes, split, u8_from_hex}
use linux_bt_proxy.Utils.{parse_mac, ok, format_mac}
use linux_bt_proxy.Utils.Mac.{parse_mac-format_mac, parse_mac_iff}
use linux_bt_proxy.DBus.{Props}
use linux_bt_proxy.RawAdv.Uuid.{ShortUuid, parse_uuid, bytes_eq}
use linux_bt_proxy.RawAdv.Uuid.Shortest.{IsShortest}
use linux_bt_proxy.RawAdv.Uuid.Canonical.{dashed, parse_uuid-dashed}
use linux_bt_proxy.RawAdv.Data.{build_raw_advertisement_data}
use linux_bt_proxy.RawAdv.Structure.{Ad, ad, encode_ads, structures, shorts, service_ads}
use linux_bt_proxy.RawAdv.Structure.Refine.{build-structures}
use linux_bt_proxy.RawAdv.Structure.Decode.{read_ads, FitsByte, build-read_ads}
use linux_bt_proxy.Ble.{BleAdvertisement, build_advertisement, parse_ble_address}
use linux_bt_proxy.Ble.Address.{big_endian, parse_ble_address-parse_mac}
use linux_bt_proxy.Ble.Reported.{IsReported}
use linux_bt_proxy.Ble.Build.{build_advertisement-agrees}
use linux_bt_proxy.Ble.Supervisor.{
  Run, returned, panicked, run_supervised, schedule, run_supervised-schedule,
}
use linux_bt_proxy.Proto.Varint.{encode_varint, decode_varint, ok as read_ok}
use linux_bt_proxy.Proto.Varint.Decode.{decode_varint_lem}
use linux_bt_proxy.Api.AreaInfo
use linux_bt_proxy.Api.DeviceInfoResponse
use linux_bt_proxy.Api.DeviceInfoResponse.Reading
use linux_bt_proxy.Api.DeviceInfoResponse.RoundTrip
use linux_bt_proxy.Api.Runtime.Merge.{merged}
use linux_bt_proxy.Tests.WireBack.{reads_back}
use linux_bt_proxy.Tests.Wire.{protobuf}
use linux_bt_proxy.Tests.Instances.{dbus, text, signed, in_bytes}

-- A device that has a name, an address and a transmission power.
abbrev pub lamp : Props dbus
lamp name =
    if bytes_eq name (codes "Name")
    then some (text (codes "Lamp"))
    else if bytes_eq name (codes "Address")
    then some (text (codes "0A:0B:0C:0D:0E:0F"))
    else if bytes_eq name (codes "TxPower")
    then some (signed (negsuc 3))
    else none

abbrev pub lamp_ads : List Ad
lamp_ads = ad 0x09 (codes "Lamp") ∷ ad 0x0A (0xFC ∷ []) ∷ []

lamp-structures : structures dbus lamp ≡ returns lamp_ads
unfolding bytes_eq structures shorts service_ads
lamp-structures = refl

build-structures_example :
    build_raw_advertisement_data dbus lamp ≡ on_return encode_ads (structures dbus lamp)
build-structures_example = build-structures dbus lamp

build-read_ads_example :
    (out : Bytes) × (build_raw_advertisement_data dbus lamp ≡ returns out)
    × ((read_ads out ≡ some lamp_ads) ↔ All FitsByte lamp_ads)
build-read_ads_example =
    build-read_ads dbus lamp lamp-structures (in_bytes (encode_ads lamp_ads) refl)

build_advertisement-agrees_example :
    (a : BleAdvertisement protobuf) × (build_advertisement dbus protobuf lamp ≡ returns (some a))
    × IsReported dbus protobuf lamp (big_endian 0 (10 ∷ 11 ∷ 12 ∷ 13 ∷ 14 ∷ 15 ∷ [])) a
    × ((read_ads a.raw.payload ≡ some lamp_ads) ↔ All FitsByte lamp_ads)
unfolding bytes_eq parse_mac split u8_from_hex
build_advertisement-agrees_example =
    build_advertisement-agrees dbus protobuf lamp (codes "0A:0B:0C:0D:0E:0F")
      (10 ∷ 11 ∷ 12 ∷ 13 ∷ 14 ∷ 15 ∷ []) refl refl lamp-structures
      (in_bytes (encode_ads lamp_ads) refl)

parse_ble_address-parse_mac_example :
    parse_ble_address (codes "0A:0B:0C:0D:0E:0F") ≡ big_endian 0 (10 ∷ 11 ∷ 12 ∷ 13 ∷ 14 ∷ 15 ∷ [])
unfolding parse_mac split u8_from_hex
parse_ble_address-parse_mac_example =
    parse_ble_address-parse_mac (codes "0A:0B:0C:0D:0E:0F") (10 ∷ 11 ∷ 12 ∷ 13 ∷ 14 ∷ 15 ∷ []) refl

abbrev five_runs : List Run
five_runs =
    returned false 0
    ∷ returned true 1
    ∷ returned false (60 * 10 ^ 9)
    ∷ returned false 2
    ∷ panicked
    ∷ []

run_supervised-schedule_example : run_supervised five_runs ≡ schedule 0 five_runs
run_supervised-schedule_example = run_supervised-schedule five_runs

abbrev battery : Bytes
battery =
    0 ∷ 0 ∷ 0x18 ∷ 0x0F ∷ 0 ∷ 0 ∷ 0x10 ∷ 0 ∷ 0x80 ∷ 0 ∷ 0 ∷ 0x80 ∷ 0x5F ∷ 0x9B ∷ 0x34 ∷ 0xFB ∷ []

parse_uuid-dashed_example :
    (u : ShortUuid) × (parse_uuid (dashed (4 ∷ 2 ∷ 2 ∷ 2 ∷ []) battery) ≡ returns (some u))
    × IsShortest battery u
parse_uuid-dashed_example =
    parse_uuid-dashed (4 ∷ 2 ∷ 2 ∷ 2 ∷ []) battery (in_bytes battery refl) refl

parse_mac-format_mac_example :
    parse_mac (format_mac (10 ∷ 11 ∷ 12 ∷ 13 ∷ 14 ∷ 255 ∷ []) (codes ":"))
    ≡ ok (10 ∷ 11 ∷ 12 ∷ 13 ∷ 14 ∷ 255 ∷ [])
parse_mac-format_mac_example =
    parse_mac-format_mac (10 ∷ 11 ∷ 12 ∷ 13 ∷ 14 ∷ 255 ∷ [])
      (in_bytes (10 ∷ 11 ∷ 12 ∷ 13 ∷ 14 ∷ 255 ∷ []) refl) refl

abbrev signed_mac : Bytes
signed_mac = 1 ∷ 2 ∷ 3 ∷ 4 ∷ 5 ∷ 15 ∷ []

parse_mac_iff_example : (parse_mac (codes "1:2:3:4:5:+f") ≡ ok signed_mac) ↔ (
    (length signed_mac ≡ 6)
    × (map u8_from_hex (split b':' (codes "1:2:3:4:5:+f")) ≡ map some signed_mac))
parse_mac_iff_example = parse_mac_iff (codes "1:2:3:4:5:+f") signed_mac

abbrev area : AreaInfo.AreaInfo protobuf
area = record (AreaInfo.new protobuf) { area_id = 1; name = codes "Kitchen" }

abbrev info_with_area : DeviceInfoResponse.DeviceInfoResponse protobuf
info_with_area = record (DeviceInfoResponse.new protobuf) { areas = area ∷ [] }

parse-write_to_info_example :
    Reading.parse protobuf (DeviceInfoResponse.write_to protobuf info_with_area)
    ≡ merged info_with_area
unfolding encode_varint AreaInfo.compute_size AreaInfo.new DeviceInfoResponse.new
parse-write_to_info_example = RoundTrip.parse-write_to_info protobuf reads_back info_with_area (
  ((tt, omega arith), (tt, omega arith), (tt, omega arith), (tt, omega arith), (tt, omega arith)),
  ((tt, omega arith), (tt, omega arith), omega arith, omega arith, omega arith, (tt, omega arith)),
  ((tt, omega arith), omega arith, omega arith, (tt, omega arith), (tt, omega arith)),
  (tt, (((omega arith, (tt, omega arith), refl), omega arith), tt), tt),
  refl,
)

decode_varint_lem_example : decode_varint (0xAC ∷ 2 ∷ 7 ∷ []) ≡ read_ok 300 2
decode_varint_lem_example =
    decode_varint_lem (0xAC ∷ 2 ∷ 7 ∷ []) (in_bytes (0xAC ∷ 2 ∷ 7 ∷ []) refl)
