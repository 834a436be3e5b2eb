-- ===== src/RawAdv/Structure.antt =====
-- The AD structures that src/raw_adv.rs should advertise for BlueZ's properties, as a list of types
-- and payloads, and how such a list stands in advertising data by the Bluetooth Core Specification:
-- a length byte that counts the type and the payload, the type, the payload.
mod Push
pub mod Refine
pub mod Decode
use linux_bt_proxy.Prelude.{
  ℕ, ◌+◌, ◌*◌, ◌/◌, ◌%◌, Bool, true, false, not, ◌&&◌, ◌||◌, Option, none, some, List, [], ◌∷◌,
  ◌++◌, Bytes, length, ltb, leb, ◌==◌, if◌then◌else◌, reverse, and_then,
}
use linux_bt_proxy.Prelude.Outcome.{Outcome, returns, panics, ◌>>=◌, on_return}
use linux_bt_proxy.Prelude.Int.{i8_try_from, i8_as_u8}
use linux_bt_proxy.Text.{codes}
use linux_bt_proxy.DBus.{DBus, Props}
use linux_bt_proxy.RawAdv.Uuid.{ShortUuid, bit16, bit32, bit128, parse_uuid}
use linux_bt_proxy.RawAdv.Data.{u16_to_le_bytes, u32_to_le_bytes}

pub record Ad : Type 0 where
  pub ad_type : ℕ
  pub payload : Bytes

abbrev pub ad : ℕ → Bytes → Ad
ad t p = record { ad_type = t; payload = p }

abbrev pub encode_ads : List Ad → Bytes
encode_ads [] = []
encode_ads (a ∷ ads) = ((length a.payload + 1) % 256) ∷ a.ad_type ∷ (a.payload ++ encode_ads ads)

abbrev pub cons? {ℓ} : {A : Type ℓ} → Option A → List A → List A
cons? none xs = xs
cons? (some x) xs = x ∷ xs

-- The UUIDs of a list that are well formed.
unfoldable pub shorts : List Bytes → Outcome (List ShortUuid)
shorts [] = returns []
shorts (uuid ∷ uuids) = elim (parse_uuid uuid) [
  | panics ↦ panics
  | returns short ↦ on_return (cons? short) (shorts uuids)
]

-- The little-endian identifiers of one width.
abbrev pub of16 : List ShortUuid → Bytes
of16 [] = []
of16 (bit16 id ∷ ss) = u16_to_le_bytes id ++ of16 ss
of16 (bit32 id ∷ ss) = of16 ss
of16 (bit128 bytes ∷ ss) = of16 ss

abbrev pub of32 : List ShortUuid → Bytes
of32 [] = []
of32 (bit16 id ∷ ss) = of32 ss
of32 (bit32 id ∷ ss) = u32_to_le_bytes id ++ of32 ss
of32 (bit128 bytes ∷ ss) = of32 ss

abbrev pub of128 : List ShortUuid → Bytes
of128 [] = []
of128 (bit16 id ∷ ss) = of128 ss
of128 (bit32 id ∷ ss) = of128 ss
of128 (bit128 bytes ∷ ss) = reverse bytes ++ of128 ss

-- A structure that is left out when its payload is empty.
abbrev pub nonempty : ℕ → Bytes → List Ad
nonempty t [] = []
nonempty t (b ∷ bs) = ad t (b ∷ bs) ∷ []

abbrev pub list_ads : List ShortUuid → List Ad
list_ads ss = nonempty 0x03 (of16 ss) ++ (nonempty 0x05 (of32 ss) ++ nonempty 0x07 (of128 ss))

abbrev pub service_ad : Bytes → ShortUuid → Ad
service_ad d (bit16 id) = ad 0x16 (u16_to_le_bytes id ++ d)
service_ad d (bit32 id) = ad 0x20 (u32_to_le_bytes id ++ d)
service_ad d (bit128 bytes) = ad 0x21 (reverse bytes ++ d)

module _ (bus : DBus) where
  open bus use {Value, as_string, as_bytes, as_u16, as_i16, as_strings, as_dict}

  unfoldable pub service_ads : List (Value × Value) → Outcome (List Ad)
  service_ads [] = returns []
  service_ads ((k, v) ∷ entries) =
      let skipped = service_ads entries in
      elim (as_string k) [
        | none ↦ skipped
        | some uuid ↦ elim (as_bytes v) [
          | none ↦ skipped
          | some d ↦ elim (parse_uuid uuid) [
            | panics ↦ panics
            | returns short ↦
                on_return (cons? (and_then short (λ s. some (service_ad d s)))) skipped
          ]
        ]
      ]

  abbrev pub manufacturer_ad : Value × Value → Option Ad
  manufacturer_ad (k, v) =
      and_then (as_u16 k)
        (λ id. and_then (as_bytes v) (λ d. some (ad 0xFF (u16_to_le_bytes id ++ d))))

  abbrev pub manufacturer_ads : List (Value × Value) → List Ad
  manufacturer_ads [] = []
  manufacturer_ads (entry ∷ entries) = cons? (manufacturer_ad entry) (manufacturer_ads entries)

  abbrev pub entries_of : Option Value → List (Value × Value)
  entries_of v = elim (and_then v as_dict) [ none ↦ [] | some entries ↦ entries ]

  abbrev pub name_ad : Props bus → Option Ad
  name_ad props = and_then (and_then (props (codes "Name")) as_string) (λ n. some (ad 0x09 n))

  abbrev pub uuids_of : Props bus → List Bytes
  uuids_of props = elim (and_then (props (codes "UUIDs")) as_strings) [
    | none ↦ []
    | some uuids ↦ uuids
  ]

  abbrev pub tx_power_ad : Props bus → Option Ad
  tx_power_ad props =
      and_then (and_then (and_then (props (codes "TxPower")) as_i16) i8_try_from)
        (λ p. some (ad 0x0A (i8_as_u8 p ∷ [])))

  -- The structures for a device's properties, in order: the name, the complete lists of 16-, 32- and
  -- 128-bit service UUIDs, the service data, the manufacturer data, the transmission power.
  unfoldable pub structures : Props bus → Outcome (List Ad)
  structures props = do
    ss ← shorts (uuids_of props)
    served ← service_ads (entries_of (props (codes "ServiceData")))
    let made = manufacturer_ads (entries_of (props (codes "ManufacturerData")))
    returns
        (cons? (name_ad props) (list_ads ss ++ (served ++ (made ++ cons? (tx_power_ad props) []))))
