-- ===== src/Api/ListEntitiesRequest/RoundTrip.antt =====
-- src/api/api.rs: what a `ListEntitiesRequest` wrote is read back.
use linux_bt_proxy.Prelude.{◌≡◌, sym}
use mathlib.Core.Path.{subst}
use linux_bt_proxy.Api.Runtime.{Protobuf}
use linux_bt_proxy.Api.Runtime.Merge.{Merged, merged, finished, parse_from_bytes}
use linux_bt_proxy.Api.Runtime.Merge
use linux_bt_proxy.Api.Runtime.ReadsBack.{ReadsBack}
use linux_bt_proxy.Api.Runtime.RoundTrip.{merge-unknown}
use linux_bt_proxy.Api.ListEntitiesRequest.{
  ListEntitiesRequest, new, write_to, merge_field, merge_field-Advances, parse,
}

module _ (rt : Protobuf) (back : ReadsBack rt) where
  -- There is no field that is unknown.
  abbrev pub IsTyped : ListEntitiesRequest rt → Type 0
  IsTyped m = (m.special_fields ≡ rt.no_unknown)

  abbrev known : ListEntitiesRequest rt → ListEntitiesRequest rt
  known m = record m { special_fields = rt.no_unknown }

  merge-known :
      (m : ListEntitiesRequest rt)
      → IsTyped m
      → Merge.merge rt (merge_field rt) (new rt) (rt.of_bytes (write_to rt (known m)))
        ≡ merged (known m)
  unfolding merge_field new write_to
  merge-known m _ =
      let (_, ends) = back.ends in
      merge-unknown rt (merge_field rt) (merge_field-Advances rt) (known m) ends
        back.no_unknown_back

  pub parse-write_to :
      (m : ListEntitiesRequest rt) → IsTyped m → parse rt (write_to rt m) ≡ merged m
  unfolding parse parse_from_bytes
  parse-write_to m typed =
      subst (λ h. Merge.merge rt (merge_field rt) (new rt) (rt.of_bytes (write_to rt h)) ≡ merged h)
        (λ i. record m { special_fields = sym typed i }) (merge-known m typed)
