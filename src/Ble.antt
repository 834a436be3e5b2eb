-- ===== src/Ble.antt =====
-- src/ble.rs: BlueZ's advertisements, over D-Bus, into the two messages that clients are sent.
pub mod Address
pub mod Reported
pub mod Build
pub mod Supervisor
pub mod Listener
use linux_bt_proxy.Prelude.{
  ℕ, ◌+◌, ◌*◌, ◌%◌, ◌^◌, Bool, true, false, Option, none, some, List, [], ◌∷◌, ◌++◌, Bytes, bit_or,
  and_then, if◌then◌else◌,
}
use linux_bt_proxy.Prelude.Int.{ℤ, pos, negsuc}
use linux_bt_proxy.Prelude.Outcome.{Outcome, returns, panics, ◌>>=◌}
use linux_bt_proxy.Text.{codes, decimal, split, u8_from_hex, lower_hex}
use linux_bt_proxy.DBus.{DBus, Props}
use linux_bt_proxy.RawAdv.Uuid.{bytes_eq}
use linux_bt_proxy.RawAdv.Data.{build_raw_advertisement_data}
use linux_bt_proxy.Utils.{MacResult, parse_mac, ok, err}
use linux_bt_proxy.Api.Runtime.{Protobuf}
use linux_bt_proxy.Api.BluetoothServiceData
use linux_bt_proxy.Api.BluetoothServiceData.{BluetoothServiceData}
use linux_bt_proxy.Api.BluetoothLeAdvertisementResponse
use linux_bt_proxy.Api.BluetoothLeAdvertisementResponse.{BluetoothLeAdvertisementResponse}
use linux_bt_proxy.Api.BluetoothLeRawAdvertisement
use linux_bt_proxy.Api.BluetoothLeRawAdvertisement.{BluetoothLeRawAdvertisement}

pub record BleAdvertisement (rt : Protobuf) : Type 0 where
  pub legacy : BluetoothLeAdvertisementResponse rt
  pub raw : BluetoothLeRawAdvertisement rt

abbrev pub unwrap_or : {A : Type 0} → A → Option A → A
unwrap_or default none = default
unwrap_or default (some a) = a

-- The closure of the `fold`: `(acc << 8) | …` on `u64`.
unfoldable pub push_octet : ℕ → Bytes → ℕ
push_octet acc part = bit_or (acc * 2 ^ 8 % 2 ^ 64) (unwrap_or 0 (u8_from_hex part))

unfoldable pub fold_octets : ℕ → List Bytes → ℕ
unfolding push_octet
fold_octets acc [] = acc
fold_octets acc (part ∷ parts) = fold_octets (push_octet acc part) parts

unfoldable pub parse_ble_address : Bytes → ℕ
unfolding fold_octets
parse_ble_address address = fold_octets 0 (split b':' address)

-- `map_err(zbus::Error::Failure)`; `none` is an error.
abbrev pub mac_of : MacResult → Option Bytes
mac_of (ok mac) = some mac
mac_of (err e) = none

-- `format!("/org/bluez/hci{adapter_index}")`
unfoldable pub adapter_path : ℕ → Bytes
unfolding decimal
adapter_path adapter_index = codes "/org/bluez/hci" ++ decimal adapter_index

-- `address` is what the bus answers for the property `Address` of the adapter at an object's path, from
-- the path's parsing on.
unfoldable pub get_adapter_mac : (Bytes → Option Bytes) → ℕ → Option Bytes
unfolding adapter_path
get_adapter_mac address adapter_index =
    and_then (address (adapter_path adapter_index)) (λ a. mac_of (parse_mac a))

module _ (bus : DBus) (rt : Protobuf) where
  open bus use {Value, as_string, as_bytes, as_u16, as_i16, as_strings, as_dict}

  unfoldable pub entry_uuid : Bool → Value → Option Bytes
  entry_uuid true k = as_string k
  entry_uuid false k = and_then (as_u16 k) (λ id. some (lower_hex id))

  unfoldable pub extract_entries : Bool → List (Value × Value) → List (BluetoothServiceData rt)
  unfolding entry_uuid BluetoothServiceData.new
  extract_entries is_service [] = []
  extract_entries is_service ((k, v) ∷ dict) =
      let rest = extract_entries is_service dict in
      elim (entry_uuid is_service k) [
        | none ↦ rest
        | some uuid ↦ elim (as_bytes v) [
          | none ↦ rest
          | some payload ↦
              record (BluetoothServiceData.new rt) { uuid = uuid; payload = payload } ∷ rest
        ]
      ]

  -- `none` is an error.
  unfoldable pub extract_service_data :
      Option Value → Bool → Option (List (BluetoothServiceData rt))
  unfolding extract_entries
  extract_service_data none is_service = some []
  extract_service_data (some v) is_service =
      and_then (as_dict v) (λ dict. some (extract_entries is_service dict))

  unfoldable pub address_type_of : Props bus → ℕ
  unfolding bytes_eq
  address_type_of props = unwrap_or 0 (
      and_then (and_then (props (codes "AddressType")) as_string)
        (λ s. some (if bytes_eq s (codes "random") then 1 else 0)))

  unfoldable pub rssi_of : Props bus → ℤ
  rssi_of props = unwrap_or (negsuc 126) (and_then (props (codes "RSSI")) as_i16)

  unfoldable pub legacy_of : Props bus → ℕ → BluetoothLeAdvertisementResponse rt
  unfolding address_type_of rssi_of extract_service_data BluetoothLeAdvertisementResponse.new
  legacy_of props address = record (BluetoothLeAdvertisementResponse.new rt) {
    address = address;
    address_type = address_type_of props;
    name = unwrap_or [] (and_then (props (codes "Name")) as_string);
    rssi = rssi_of props;
    service_uuids = unwrap_or [] (and_then (props (codes "UUIDs")) as_strings);
    service_data = unwrap_or [] (extract_service_data (props (codes "ServiceData")) true);
    manufacturer_data =
        unwrap_or [] (extract_service_data (props (codes "ManufacturerData")) false);
  }

  -- The data of the raw message is built after the address was found.
  unfoldable pub build_advertisement : Props bus → Outcome (Option (BleAdvertisement rt))
  unfolding legacy_of parse_ble_address BluetoothLeRawAdvertisement.new build_raw_advertisement_data
  build_advertisement props = elim (and_then (props (codes "Address")) as_string) [
    | none ↦ returns none
    | some mac_str ↦ do
      raw_data ← build_raw_advertisement_data bus props
      let address = parse_ble_address mac_str
      let raw_message = record (BluetoothLeRawAdvertisement.new rt) {
        address = address;
        address_type = address_type_of props;
        rssi = rssi_of props;
        payload = raw_data;
      }
      returns (some (record { legacy = legacy_of props address; raw = raw_message }))
  ]
