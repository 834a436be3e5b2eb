-- ===== src/Ble/Reported.antt =====
-- What `build_advertisement` (src/ble.rs) is to say of a device, property by property.
use linux_bt_proxy.Prelude.{
  ℕ, ◌≡◌, ◌≢◌, refl, Bool, true, false, ap, ◌∙◌, Bool-cases, inl, inr, Option, none, some,
  Option-cases, List, [], ◌∷◌, ◌++◌, Bytes, and_then,
}
use linux_bt_proxy.Prelude.Int.{negsuc}
use linux_bt_proxy.Text.{codes, lower_hex}
use linux_bt_proxy.DBus.{DBus, Props}
use linux_bt_proxy.RawAdv.Uuid.{bytes_eq}
use linux_bt_proxy.RawAdv.Uuid.Equal.{bytes_eq_iff}
use linux_bt_proxy.Api.Runtime.{Protobuf}
use linux_bt_proxy.Api.BluetoothLeRawAdvertisement
use linux_bt_proxy.Api.BluetoothLeRawAdvertisement.{BluetoothLeRawAdvertisement}
use linux_bt_proxy.Api.BluetoothServiceData
use linux_bt_proxy.Api.BluetoothServiceData.{BluetoothServiceData}
use linux_bt_proxy.Ble.{
  BleAdvertisement, unwrap_or, address_type_of, rssi_of, entry_uuid, extract_entries,
  extract_service_data, legacy_of,
}

-- What was read, or else the default.
abbrev pub IsOr : {A : Type 0} → Option A → A → A → Type 0
IsOr {A = A} read default x = ((y : A) → read ≡ some y → x ≡ y) × (read ≡ none → x ≡ default)

pub unwrap_or-IsOr :
    {A : Type 0} (read : Option A) (default : A) → IsOr read default (unwrap_or default read)
unwrap_or-IsOr (some a) default = (λ y e. cc, λ e. cc)
unwrap_or-IsOr none default = (λ y e. cc, λ e. refl)

module _ (bus : DBus) (rt : Protobuf) where
  -- The raw message that stands beside a parsed one.
  abbrev pub raw_beside : Props bus → ℕ → Bytes → BluetoothLeRawAdvertisement rt
  raw_beside props address bytes = record (BluetoothLeRawAdvertisement.new rt) {
    address = address;
    address_type = address_type_of bus rt props;
    rssi = rssi_of bus rt props;
    payload = bytes;
  }

  open bus use {Value, as_string, as_bytes, as_u16, as_i16, as_strings, as_dict}

  -- One is for random addresses, zero for all others.
  abbrev pub IsAddressType : Props bus → ℕ → Type 0
  IsAddressType props n =
      (and_then (props (codes "AddressType")) as_string ≡ some (codes "random") → n ≡ 1)
      × (and_then (props (codes "AddressType")) as_string ≢ some (codes "random") → n ≡ 0)

  -- An entry of a dictionary counts if its key and its bytes can be read.
  abbrev pub entry : Option Bytes → Option Bytes → List (BluetoothServiceData rt)
  entry none payload = []
  entry (some uuid) none = []
  entry (some uuid) (some payload) =
      record (BluetoothServiceData.new rt) { uuid = uuid; payload = payload } ∷ []

  abbrev pub entries :
      (Value → Option Bytes) → List (Value × Value) → List (BluetoothServiceData rt)
  entries name [] = []
  entries name ((k, v) ∷ dict) = entry (name k) (as_bytes v) ++ entries name dict

  -- A company is named by the hexadecimal digits of its number.
  abbrev pub company : Value → Option Bytes
  company k = and_then (as_u16 k) (λ id. some (lower_hex id))

  -- The entries of the dictionary that a property is, and none if it is no dictionary.
  abbrev pub IsEntries :
      (Value → Option Bytes) → Option Value → List (BluetoothServiceData rt) → Type 0
  IsEntries name value ds =
      ((dict : List (Value × Value)) → and_then value as_dict ≡ some dict → ds ≡ entries name dict)
      × (and_then value as_dict ≡ none → ds ≡ [])

  -- Both messages have the address, its type and the signal strength, -127 if it is not known; the
  -- parsed one has the name, the services and the data of services and of manufacturers.
  abbrev pub IsReported : Props bus → ℕ → BleAdvertisement rt → Type 0
  IsReported props address a =
      ((a.legacy.address ≡ address) × (a.raw.address ≡ address))
      × (IsAddressType props a.legacy.address_type × IsAddressType props a.raw.address_type)
      × (IsOr (and_then (props (codes "RSSI")) as_i16) (negsuc 126) a.legacy.rssi
          × IsOr (and_then (props (codes "RSSI")) as_i16) (negsuc 126) a.raw.rssi)
      × IsOr (and_then (props (codes "Name")) as_string) [] a.legacy.name
      × IsOr (and_then (props (codes "UUIDs")) as_strings) [] a.legacy.service_uuids
      × IsEntries as_string (props (codes "ServiceData")) a.legacy.service_data
      × IsEntries company (props (codes "ManufacturerData")) a.legacy.manufacturer_data

  pub address_type_of-IsAddressType :
      (props : Props bus) → IsAddressType props (address_type_of bus rt props)
  unfolding address_type_of
  address_type_of-IsAddressType props =
      elim (Option-cases (and_then (props (codes "AddressType")) as_string)) [
        | inl gone ↦ rw (address_type_of, gone) (λ e. cc, λ e. refl)
        | inr (s, there) ↦ elim (Bool-cases (bytes_eq s (codes "random"))) [
          | inl random ↦
              let same : s ≡ codes "random" = (bytes_eq_iff s (codes "random")).0 random in
              rw (address_type_of, there, random)
                (
                  λ e. refl,
                  λ other. absurd (other (let e : some s ≡ some (codes "random") = cc in e)),
                )
          | inr other ↦
              rw (address_type_of, there, other)
                (
                  λ e.
                      let same : s ≡ codes "random" = cc in
                      let random = (bytes_eq_iff s (codes "random")).1 same in cc,
                  λ e. refl,
                )
        ]
      ]

  module _ (is_service : Bool) (name : Value → Option Bytes)
      (same : (k : Value) → entry_uuid bus rt is_service k ≡ name k) where
    extract_entries_lem :
        (dict : List (Value × Value)) → extract_entries bus rt is_service dict ≡ entries name dict
    unfolding extract_entries
    extract_entries_lem [] = refl
    extract_entries_lem ((k, v) ∷ dict) = elim (Option-cases (name k)) [
      | inl unnamed ↦ rw (extract_entries, same k, unnamed) (extract_entries_lem dict)
      | inr (uuid, named) ↦ elim (Option-cases (as_bytes v)) [
        | inl other ↦ rw (extract_entries, same k, named, other) (extract_entries_lem dict)
        | inr (payload, read) ↦
            rw (extract_entries, same k, named, read, extract_entries_lem dict) refl
      ]
    ]

    extract_service_data-IsEntries :
        (value : Option Value)
        → IsEntries name value (unwrap_or [] (extract_service_data bus rt value is_service))
    unfolding extract_service_data
    extract_service_data-IsEntries none = (λ dict e. cc, λ e. refl)
    extract_service_data-IsEntries (some v) = elim (Option-cases (as_dict v)) [
      | inl other ↦ rw (extract_service_data, other) (λ dict e. cc, λ e. refl)
      | inr (dict, read) ↦
          rw (extract_service_data, read)
            (
              λ d e. extract_entries_lem dict ∙ ap (entries name) (let q : dict ≡ d = cc in q),
              λ e. cc,
            )
    ]

  -- What is built beside the advertising data.
  pub legacy_of-IsReported :
      (props : Props bus) (address : ℕ) (bytes : Bytes)
      → IsReported props address
          (record { legacy = legacy_of bus rt props address; raw = raw_beside props address bytes })
  unfolding legacy_of rssi_of entry_uuid BluetoothLeRawAdvertisement.new
  legacy_of-IsReported props address bytes =
      let kind = address_type_of-IsAddressType props in
      let rssi = unwrap_or-IsOr (and_then (props (codes "RSSI")) as_i16) (negsuc 126) in
      (
        (refl, refl),
        (kind, kind),
        (rssi, rssi),
        unwrap_or-IsOr (and_then (props (codes "Name")) as_string) [],
        unwrap_or-IsOr (and_then (props (codes "UUIDs")) as_strings) [],
        extract_service_data-IsEntries true as_string (λ k. refl) (props (codes "ServiceData")),
        extract_service_data-IsEntries false company (λ k. refl) (props (codes "ManufacturerData")),
      )
