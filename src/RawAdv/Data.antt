-- ===== src/RawAdv/Data.antt =====
-- src/raw_adv.rs: the AD structures and the loops that write them.
use linux_bt_proxy.Prelude.{
  ℕ, ◌+◌, ◌/◌, ◌%◌, Option, none, some, List, [], ◌∷◌, ◌++◌, Bytes, length, reverse, and_then,
}
use linux_bt_proxy.Prelude.Outcome.{Outcome, returns, panics, ◌>>=◌}
use linux_bt_proxy.Prelude.Int.{i8_try_from, i8_as_u8}
use linux_bt_proxy.Text.{codes}
use linux_bt_proxy.DBus.{DBus, Props}
use linux_bt_proxy.RawAdv.Uuid.{ShortUuid, bit16, bit32, bit128, parse_uuid}

-- `to_le_bytes` of a `u16` and of a `u32`.
abbrev pub u16_to_le_bytes : ℕ → Bytes
u16_to_le_bytes n = (n % 256) ∷ (n / 256) ∷ []

abbrev pub u32_to_le_bytes : ℕ → Bytes
u32_to_le_bytes n = (n % 256) ∷ (n / 256 % 256) ∷ (n / 65536 % 256) ∷ (n / 16777216) ∷ []

-- `(payload.len() + 1) as u8` keeps the low eight bits.
unfoldable pub push_ad : Bytes → ℕ → Bytes → Bytes
push_ad out ad_type payload = out ++ ((length payload + 1) % 256) ∷ ad_type ∷ payload

-- The three vectors of `push_uuid_list_ad`.
pub record UuidLists : Type 0 where
  pub list16 : Bytes
  pub list32 : Bytes
  pub list128 : Bytes

unfoldable pub add_uuid : UuidLists → Option ShortUuid → UuidLists
add_uuid l none = l
add_uuid l (some (bit16 id)) = record l { list16 = l.list16 ++ u16_to_le_bytes id }
add_uuid l (some (bit32 id)) = record l { list32 = l.list32 ++ u32_to_le_bytes id }
add_uuid l (some (bit128 bytes)) = record l { list128 = l.list128 ++ reverse bytes }

-- The loop over the UUIDs.
unfoldable pub sort_uuids : UuidLists → List Bytes → Outcome UuidLists
unfolding add_uuid
sort_uuids l [] = returns l
sort_uuids l (uuid ∷ uuids) = elim (parse_uuid uuid) [
  | panics ↦ panics
  | returns short ↦ sort_uuids (add_uuid l short) uuids
]

-- `if !list.is_empty() { push_ad(out, ad_type, &list) }`
unfoldable pub push_nonempty : Bytes → ℕ → Bytes → Bytes
unfolding push_ad
push_nonempty out ad_type [] = out
push_nonempty out ad_type (b ∷ bs) = push_ad out ad_type (b ∷ bs)

unfoldable pub push_uuid_list_ad : Bytes → List Bytes → Outcome Bytes
unfolding sort_uuids push_nonempty
push_uuid_list_ad out uuids = do
  l ← sort_uuids (record { list16 = []; list32 = []; list128 = [] }) uuids
  returns
      (push_nonempty (push_nonempty (push_nonempty out 0x03 l.list16) 0x05 l.list32) 0x07 l.list128)

-- One entry's structure, by the width of its UUID.
unfoldable pub push_service_data : Bytes → Option ShortUuid → Bytes → Bytes
unfolding push_ad
push_service_data out none payload = out
push_service_data out (some (bit16 id)) payload = push_ad out 0x16 (u16_to_le_bytes id ++ payload)
push_service_data out (some (bit32 id)) payload = push_ad out 0x20 (u32_to_le_bytes id ++ payload)
push_service_data out (some (bit128 bytes)) payload = push_ad out 0x21 (reverse bytes ++ payload)

unfoldable pub push_name : Bytes → Option Bytes → Bytes
unfolding push_ad
push_name out none = out
push_name out (some name) = push_ad out 0x09 name

unfoldable pub push_uuids : Bytes → Option (List Bytes) → Outcome Bytes
unfolding push_uuid_list_ad
push_uuids out none = returns out
push_uuids out (some uuids) = push_uuid_list_ad out uuids

module _ (bus : DBus) where
  open bus use {Value, as_string, as_bytes, as_u16, as_i16, as_strings, as_dict}

  -- The rounds of the loop over the dictionary's entries.
  unfoldable pub push_service_entries : Bytes → List (Value × Value) → Outcome Bytes
  unfolding push_service_data
  push_service_entries out [] = returns out
  push_service_entries out ((k, v) ∷ entries) =
      let skipped = push_service_entries out entries in
      elim (as_string k) [
        | none ↦ skipped
        | some uuid_str ↦ elim (as_bytes v) [
          | none ↦ skipped
          | some payload ↦ elim (parse_uuid uuid_str) [
            | panics ↦ panics
            | returns short ↦ push_service_entries (push_service_data out short payload) entries
          ]
        ]
      ]

  unfoldable pub push_service_data_ad : Bytes → Option Value → Outcome Bytes
  unfolding push_service_entries
  push_service_data_ad out none = returns out
  push_service_data_ad out (some v) = elim (as_dict v) [
    | none ↦ returns out
    | some dict ↦ push_service_entries out dict
  ]

  unfoldable pub push_manufacturer_entries : Bytes → List (Value × Value) → Bytes
  unfolding push_ad
  push_manufacturer_entries out [] = out
  push_manufacturer_entries out ((k, v) ∷ entries) =
      let skipped = push_manufacturer_entries out entries in
      elim (as_u16 k) [
        | none ↦ skipped
        | some company_id ↦ elim (as_bytes v) [
          | none ↦ skipped
          | some payload ↦
              push_manufacturer_entries (push_ad out 0xFF (u16_to_le_bytes company_id ++ payload))
                entries
        ]
      ]

  unfoldable pub push_manufacturer_data_ad : Bytes → Option Value → Bytes
  unfolding push_manufacturer_entries
  push_manufacturer_data_ad out none = out
  push_manufacturer_data_ad out (some v) = elim (as_dict v) [
    | none ↦ out
    | some dict ↦ push_manufacturer_entries out dict
  ]

  unfoldable pub push_tx_power : Bytes → Option Value → Bytes
  unfolding push_ad
  push_tx_power out tx = elim (and_then (and_then tx as_i16) i8_try_from) [
    | none ↦ out
    | some power ↦ push_ad out 0x0A (i8_as_u8 power ∷ [])
  ]

  unfoldable pub build_raw_advertisement_data : Props bus → Outcome Bytes
  unfolding push_name push_uuids push_service_data_ad push_manufacturer_data_ad push_tx_power
  build_raw_advertisement_data props = do
    let named = push_name [] (and_then (props (codes "Name")) as_string)
    listed ← push_uuids named (and_then (props (codes "UUIDs")) as_strings)
    served ← push_service_data_ad listed (props (codes "ServiceData"))
    let made = push_manufacturer_data_ad served (props (codes "ManufacturerData"))
    returns (push_tx_power made (props (codes "TxPower")))
