-- ===== src/Api/AreaInfo/RoundTrip.antt =====
-- src/api/api.rs: what a `AreaInfo` wrote is read back.
use linux_bt_proxy.Prelude.{◌^◌, ◌<◌, ◌≡◌, refl, sym, ap, ◌∙◌, some, arith}
use mathlib.Core.Path.{subst}
use linux_bt_proxy.Api.Runtime.{Protobuf}
use linux_bt_proxy.Api.Runtime.Merge.{Merged, merged, finished, parse_from_bytes}
use linux_bt_proxy.Api.Runtime.Merge
use linux_bt_proxy.Api.Runtime.ReadsBack.{ReadsBack}
use linux_bt_proxy.Api.Runtime.RoundTrip.{merge-unknown}
use linux_bt_proxy.Api.Runtime.Fields.{IsText, merge-uint32, merge-string}
use linux_bt_proxy.Api.AreaInfo.{
  AreaInfo, new, write_to, merge_field, merge_field-Advances, merge_from,
}

module _ (rt : Protobuf) (back : ReadsBack rt) where
  -- The fields are what their types hold, and there is none that is unknown.
  abbrev pub IsTyped : AreaInfo rt → Type 0
  IsTyped m = (m.area_id < 2 ^ 32) × IsText back m.name × (m.special_fields ≡ rt.no_unknown)

  abbrev known : AreaInfo rt → AreaInfo rt
  known m = record m { special_fields = rt.no_unknown }

  merge-known :
      (m : AreaInfo rt)
      → IsTyped m
      → Merge.merge rt (merge_field rt) (new rt) (rt.of_bytes (write_to rt (known m)))
        ≡ merged (known m)
  unfolding merge_field new write_to
  merge-known m (area_id, name, _) =
      let m1 : AreaInfo rt = record (new rt) { area_id = m.area_id } in
      let (_, ends) = back.ends in
      let uint32_field = merge-uint32 rt back (merge_field rt) (merge_field-Advances rt) in
      let string_field = merge-string rt back (merge_field rt) (merge_field-Advances rt) in
      uint32_field 1 m.area_id (λ x. record (new rt) { area_id = x }) _ (omega arith, omega arith)
        area_id (λ is. refl)
      ∙ string_field 2 m.name (λ x. record m1 { name = x }) _ (omega arith, omega arith) name
          (λ is. refl)
      ∙ merge-unknown rt (merge_field rt) (merge_field-Advances rt) (known m) ends
          back.no_unknown_back

  -- Where it stands inside another message.
  pub merge_from-write_to :
      (m : AreaInfo rt) → IsTyped m → merge_from rt (new rt) (rt.of_bytes (write_to rt m)) ≡ some m
  unfolding merge_from Merge.merge_from
  merge_from-write_to m typed = ap finished (
      subst (λ h. Merge.merge rt (merge_field rt) (new rt) (rt.of_bytes (write_to rt h)) ≡ merged h)
        (λ i. record m { special_fields = sym typed.2 i }) (merge-known m typed))
