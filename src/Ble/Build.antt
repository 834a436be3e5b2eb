-- ===== src/Ble/Build.antt =====
-- `build_advertisement` (src/ble.rs): the two messages that one device's properties give.
use linux_bt_proxy.Prelude.{◌≡◌, ◌↔◌, refl, none, some, List, Bytes, IsBytes, All, and_then}
use linux_bt_proxy.Prelude.Outcome.{returns, ◌>>=◌}
use linux_bt_proxy.Text.{codes}
use linux_bt_proxy.DBus.{DBus, Props}
use linux_bt_proxy.Utils.{parse_mac, ok}
use linux_bt_proxy.RawAdv.Structure.{encode_ads, structures}
use linux_bt_proxy.RawAdv.Structure.Decode.{read_ads, FitsByte, build-read_ads}
use linux_bt_proxy.Api.Runtime.{Protobuf}
use linux_bt_proxy.Ble.{BleAdvertisement, build_advertisement, legacy_of}
use linux_bt_proxy.Ble.Reported.{IsReported, raw_beside, legacy_of-IsReported}
use linux_bt_proxy.Ble.Address.{big_endian, parse_ble_address-parse_mac}

module _ (bus : DBus) (rt : Protobuf) where
  -- A device whose address `parse_mac` accepts, whose UUIDs do not make `parse_uuid` panic, and whose
  -- structures are written as bytes, gives both messages. Each has the number of the MAC's bytes as its
  -- address, one as its type if BlueZ says random and else zero, and the signal strength, -127 if BlueZ
  -- does not say it; the parsed one has the name, the services, and the data of services and of
  -- manufacturers, and none where the property is missing or of another type; and the raw one carries
  -- data that a scanner reads back as the device's structures, exactly if each fits its length byte.
  pub build_advertisement-agrees :
      (props : Props bus) (mac_str mac : Bytes) {ads : List _}
      → and_then (props (codes "Address")) bus.as_string ≡ some mac_str
      → parse_mac mac_str ≡ ok mac
      → structures bus props ≡ returns ads
      → IsBytes (encode_ads ads)
      → (a : BleAdvertisement rt) × (build_advertisement bus rt props ≡ returns (some a))
        × IsReported bus rt props (big_endian 0 mac) a
        × ((read_ads a.raw.payload ≡ some ads) ↔ All FitsByte ads)
  unfolding build_advertisement
  build_advertisement-agrees props mac_str mac addressed accepted listed in_bytes =
      let (bytes, built, read) = build-read_ads bus props listed in_bytes in
      (
        record {
          legacy = legacy_of bus rt props (big_endian 0 mac);
          raw = raw_beside bus rt props (big_endian 0 mac) bytes;
        },
        rw
            (
              build_advertisement,
              addressed,
              built,
              ◌>>=◌,
              parse_ble_address-parse_mac mac_str mac accepted,
            )
            refl,
        legacy_of-IsReported bus rt props (big_endian 0 mac) bytes,
        read,
      )

  -- A device without an address gives nothing, whatever its other properties are.
  pub build_advertisement-no_address :
      (props : Props bus)
      → and_then (props (codes "Address")) bus.as_string ≡ none
      → build_advertisement bus rt props ≡ returns none
  unfolding build_advertisement
  build_advertisement-no_address props e = rw (build_advertisement, e) refl
