-- ===== src/Api/SubscribeBluetoothLeAdvertisementsRequest/RoundTrip.antt =====
-- src/api/api.rs: what a `SubscribeBluetoothLeAdvertisementsRequest` wrote is read back.
use linux_bt_proxy.Prelude.{◌^◌, ◌<◌, ◌≡◌, refl, sym, ◌∙◌, arith}
use mathlib.Core.Path.{subst}
use linux_bt_proxy.Api.Runtime.{Protobuf}
use linux_bt_proxy.Api.Runtime.Merge.{Merged, merged, finished, parse_from_bytes}
use linux_bt_proxy.Api.Runtime.Merge
use linux_bt_proxy.Api.Runtime.ReadsBack.{ReadsBack}
use linux_bt_proxy.Api.Runtime.RoundTrip.{merge-unknown}
use linux_bt_proxy.Api.Runtime.Fields.{merge-uint32}
use linux_bt_proxy.Api.SubscribeBluetoothLeAdvertisementsRequest.{
  SubscribeBluetoothLeAdvertisementsRequest, new, write_to, merge_field, merge_field-Advances,
  parse,
}

module _ (rt : Protobuf) (back : ReadsBack rt) where
  -- The fields are what their types hold, and there is none that is unknown.
  abbrev pub IsTyped : SubscribeBluetoothLeAdvertisementsRequest rt → Type 0
  IsTyped m = (m.flags < 2 ^ 32) × (m.special_fields ≡ rt.no_unknown)

  abbrev known :
      SubscribeBluetoothLeAdvertisementsRequest rt → SubscribeBluetoothLeAdvertisementsRequest rt
  known m = record m { special_fields = rt.no_unknown }

  merge-known :
      (m : SubscribeBluetoothLeAdvertisementsRequest rt)
      → IsTyped m
      → Merge.merge rt (merge_field rt) (new rt) (rt.of_bytes (write_to rt (known m)))
        ≡ merged (known m)
  unfolding merge_field new write_to
  merge-known m (flags, _) =
      let (_, ends) = back.ends in
      let uint32_field = merge-uint32 rt back (merge_field rt) (merge_field-Advances rt) in
      uint32_field 1 m.flags (λ x. record (new rt) { flags = x }) _ (omega arith, omega arith) flags
        (λ is. refl)
      ∙ merge-unknown rt (merge_field rt) (merge_field-Advances rt) (known m) ends
          back.no_unknown_back

  pub parse-write_to :
      (m : SubscribeBluetoothLeAdvertisementsRequest rt)
      → IsTyped m
      → parse rt (write_to rt m) ≡ merged m
  unfolding parse parse_from_bytes
  parse-write_to m typed =
      subst (λ h. Merge.merge rt (merge_field rt) (new rt) (rt.of_bytes (write_to rt h)) ≡ merged h)
        (λ i. record m { special_fields = sym typed.1 i }) (merge-known m typed)
