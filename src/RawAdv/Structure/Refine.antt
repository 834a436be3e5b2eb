-- ===== src/RawAdv/Structure/Refine.antt =====
-- `build_raw_advertisement_data` (src/raw_adv.rs) writes the structures that its input calls for.
use linux_bt_proxy.Prelude.{
  ◌≡◌, refl, sym, ap, ◌∙◌, Option, none, some, List, [], ◌∷◌, ◌++◌, Bytes, append-nil, append_assoc,
  and_then, Option-cases, inl, inr,
}
use linux_bt_proxy.Prelude.Outcome.{returns, ◌>>=◌, on_return, Outcome-cases}
use linux_bt_proxy.Prelude.Int.{i8_try_from}
use linux_bt_proxy.Text.{codes}
use linux_bt_proxy.DBus.{DBus, Props}
use linux_bt_proxy.RawAdv.Uuid.{ShortUuid, parse_uuid}
use linux_bt_proxy.RawAdv.Data.{
  push_service_data, push_service_entries, push_service_data_ad, push_manufacturer_entries,
  push_manufacturer_data_ad, push_name, push_uuids, push_tx_power, build_raw_advertisement_data,
}
use linux_bt_proxy.RawAdv.Structure.{
  Ad, encode_ads, cons?, shorts, list_ads, service_ad, service_ads, manufacturer_ads, entries_of,
  name_ad, uuids_of, tx_power_ad, structures,
}
use linux_bt_proxy.RawAdv.Structure.Push.{
  encode_ads-cons?, push_uuid_list_ad-list_ads, joined, push_service_data-service_ad,
}

module _ (bus : DBus) where
  open bus use {Value, as_string, as_bytes, as_u16, as_i16, as_strings, as_dict}

  push_service_entries-service_ads :
      (entries : List (Value × Value)) (out : Bytes)
      → push_service_entries bus out entries
        ≡ on_return (λ ads. out ++ encode_ads ads) (service_ads bus entries)
  unfolding push_service_entries service_ads
  push_service_entries-service_ads [] out = rw (append-nil out)
  push_service_entries-service_ads ((k, v) ∷ entries) out = elim (Option-cases (as_string k)) [
    | inl no_key ↦
        rw (push_service_entries, service_ads, no_key)
          (push_service_entries-service_ads entries out)
    | inr (uuid, key) ↦ elim (Option-cases (as_bytes v)) [
      | inl no_data ↦
          rw (push_service_entries, service_ads, key, no_data)
            (push_service_entries-service_ads entries out)
      | inr (d, value) ↦ elim (Outcome-cases (parse_uuid uuid)) [
        | inl e ↦ rw (push_service_entries, service_ads, key, value, e) refl
        | inr (short, e) ↦
            rw (push_service_entries, service_ads, key, value, e)
              (push_service_entries-service_ads entries (push_service_data out short d)
                ∙ elim (Outcome-cases (service_ads bus entries)) [
                  | inl f ↦ rw f refl
                  | inr (ads, f) ↦ rw f (ap returns (pushed short d ads))
                ])
      ]
    ]
  ]
    where
      pushed :
          (short : Option ShortUuid) (d : Bytes) (ads : List Ad)
          → push_service_data out short d ++ encode_ads ads
            ≡ out ++ encode_ads (cons? (and_then short (λ s. some (service_ad d s))) ads)
      pushed short d ads =
          ap (λ (t : Bytes). t ++ encode_ads ads) (push_service_data-service_ad out short d)
          ∙ append_assoc out _ (encode_ads ads)
          ∙ ap (◌++◌ out) (sym (encode_ads-cons? (and_then short (λ s. some (service_ad d s))) ads))

  push_service_data_ad-service_ads :
      (out : Bytes) (v : Option Value)
      → push_service_data_ad bus out v
        ≡ on_return (λ ads. out ++ encode_ads ads) (service_ads bus (entries_of bus v))
  unfolding push_service_data_ad
  push_service_data_ad-service_ads out none = push_service_entries-service_ads [] out
  push_service_data_ad-service_ads out (some v) = elim (Option-cases (as_dict v)) [
    | inl e ↦ rw (push_service_data_ad, entries_of, e) (push_service_entries-service_ads [] out)
    | inr (dict, e) ↦
        rw (push_service_data_ad, entries_of, e) (push_service_entries-service_ads dict out)
  ]

  push_manufacturer_entries-manufacturer_ads :
      (entries : List (Value × Value)) (out : Bytes)
      → push_manufacturer_entries bus out entries ≡ out ++ encode_ads (manufacturer_ads bus entries)
  unfolding push_manufacturer_entries
  push_manufacturer_entries-manufacturer_ads [] out = sym (append-nil out)
  push_manufacturer_entries-manufacturer_ads ((k, v) ∷ entries) out =
      elim (Option-cases (as_u16 k)) [
        | inl no_key ↦
            rw (push_manufacturer_entries, no_key)
              (push_manufacturer_entries-manufacturer_ads entries out)
        | inr (id, key) ↦ elim (Option-cases (as_bytes v)) [
          | inl no_data ↦
              rw (push_manufacturer_entries, key, no_data)
                (push_manufacturer_entries-manufacturer_ads entries out)
          | inr (d, value) ↦
              rw (push_manufacturer_entries, key, value)
                (push_manufacturer_entries-manufacturer_ads entries _ ∙ append_assoc out _ _)
        ]
      ]

  push_manufacturer_data_ad-manufacturer_ads :
      (out : Bytes) (v : Option Value)
      → push_manufacturer_data_ad bus out v
        ≡ out ++ encode_ads (manufacturer_ads bus (entries_of bus v))
  unfolding push_manufacturer_data_ad
  push_manufacturer_data_ad-manufacturer_ads out none = sym (append-nil out)
  push_manufacturer_data_ad-manufacturer_ads out (some v) = elim (Option-cases (as_dict v)) [
    | inl e ↦ rw (push_manufacturer_data_ad, entries_of, e) (sym (append-nil out))
    | inr (dict, e) ↦
        rw (push_manufacturer_data_ad, entries_of, e)
          (push_manufacturer_entries-manufacturer_ads dict out)
  ]

  push_tx_power-tx_power_ad :
      (out : Bytes) (props : Props bus)
      → push_tx_power bus out (props (codes "TxPower"))
        ≡ out ++ encode_ads (cons? (tx_power_ad bus props) [])
  unfolding push_tx_power
  push_tx_power-tx_power_ad out props =
      elim (Option-cases (and_then (and_then (props (codes "TxPower")) as_i16) i8_try_from)) [
        | inl e ↦ rw (push_tx_power, tx_power_ad, e) (sym (append-nil out))
        | inr (p, e) ↦ rw (push_tx_power, tx_power_ad, e) refl
      ]

  push_name-name_ad :
      (props : Props bus)
      → push_name [] (and_then (props (codes "Name")) as_string)
        ≡ encode_ads (cons? (name_ad bus props) [])
  unfolding push_name
  push_name-name_ad props = elim (Option-cases (and_then (props (codes "Name")) as_string)) [
    | inl e ↦ rw (push_name, name_ad, e) refl
    | inr (n, e) ↦ rw (push_name, name_ad, e) (sym (append-nil _))
  ]

  push_uuids-list_ads :
      (out : Bytes) (props : Props bus)
      → push_uuids out (and_then (props (codes "UUIDs")) as_strings)
        ≡ on_return (λ ss. out ++ encode_ads (list_ads ss)) (shorts (uuids_of bus props))
  unfolding push_uuids shorts
  push_uuids-list_ads out props =
      elim (Option-cases (and_then (props (codes "UUIDs")) as_strings)) [
        | inl e ↦ rw (push_uuids, uuids_of, e) (ap returns (sym (append-nil out)))
        | inr (uuids, e) ↦ rw (push_uuids, uuids_of, e) (push_uuid_list_ad-list_ads out uuids)
      ]

  -- The data written is the encoding of the structures, in their order, for any properties; and a
  -- panic of the one is a panic of the other.
  pub build-structures :
      (props : Props bus)
      → build_raw_advertisement_data bus props ≡ on_return encode_ads (structures bus props)
  unfolding build_raw_advertisement_data structures
  build-structures props =
      rw
        (
          push_name-name_ad props,
          push_uuids-list_ads (encode_ads (cons? (name_ad bus props) [])) props,
        )
        (elim (Outcome-cases (shorts (uuids_of bus props))) [
          | inl e ↦ rw e refl
          | inr (ss, e) ↦
              rw (e, ◌>>=◌, push_service_data_ad-service_ads)
                (elim (Outcome-cases
                  (service_ads bus (entries_of bus (props (codes "ServiceData"))))) [
                    | inl f ↦ rw f refl
                    | inr (served, f) ↦
                        rw (f, ◌>>=◌)
                          (ap returns (
                            push_tx_power-tx_power_ad _ props
                            ∙ ap (λ (t : Bytes). t ++ encode_ads (cons? (tx_power_ad bus props) []))
                                (push_manufacturer_data_ad-manufacturer_ads _
                                  (props (codes "ManufacturerData")))
                            ∙ joined (name_ad bus props) (list_ads ss) served
                                (manufacturer_ads bus
                                  (entries_of bus (props (codes "ManufacturerData"))))
                                (cons? (tx_power_ad bus props) [])))
                  ])
        ])
