-- ===== src/Api/HelloRequest/RoundTrip.antt =====
-- src/api/api.rs: what a `HelloRequest` wrote is read back.
use linux_bt_proxy.Prelude.{◌^◌, ◌<◌, ◌≡◌, refl, sym, ◌∙◌, arith}
use mathlib.Core.Path.{subst}
use linux_bt_proxy.Api.Runtime.{Protobuf}
use linux_bt_proxy.Api.Runtime.Merge.{Merged, merged, finished, parse_from_bytes}
use linux_bt_proxy.Api.Runtime.Merge
use linux_bt_proxy.Api.Runtime.ReadsBack.{ReadsBack}
use linux_bt_proxy.Api.Runtime.RoundTrip.{merge-unknown}
use linux_bt_proxy.Api.Runtime.Fields.{IsText, merge-uint32, merge-string}
use linux_bt_proxy.Api.HelloRequest.{
  HelloRequest, new, write_to, merge_field, merge_field-Advances, parse,
}

module _ (rt : Protobuf) (back : ReadsBack rt) where
  -- The fields are what their types hold, and there is none that is unknown.
  abbrev pub IsTyped : HelloRequest rt → Type 0
  IsTyped m =
      IsText back m.client_info
      × (m.api_version_major < 2 ^ 32)
      × (m.api_version_minor < 2 ^ 32)
      × (m.special_fields ≡ rt.no_unknown)

  abbrev known : HelloRequest rt → HelloRequest rt
  known m = record m { special_fields = rt.no_unknown }

  merge-known :
      (m : HelloRequest rt)
      → IsTyped m
      → Merge.merge rt (merge_field rt) (new rt) (rt.of_bytes (write_to rt (known m)))
        ≡ merged (known m)
  unfolding merge_field new write_to
  merge-known m (client_info, api_version_major, api_version_minor, _) =
      let m1 : HelloRequest rt = record (new rt) { client_info = m.client_info } in
      let m2 : HelloRequest rt = record m1 { api_version_major = m.api_version_major } in
      let (_, ends) = back.ends in
      let string_field = merge-string rt back (merge_field rt) (merge_field-Advances rt) in
      let uint32_field = merge-uint32 rt back (merge_field rt) (merge_field-Advances rt) in
      string_field 1 m.client_info (λ x. record (new rt) { client_info = x }) _
        (omega arith, omega arith) client_info (λ is. refl)
      ∙ uint32_field 2 m.api_version_major (λ x. record m1 { api_version_major = x }) _
          (omega arith, omega arith) api_version_major (λ is. refl)
      ∙ uint32_field 3 m.api_version_minor (λ x. record m2 { api_version_minor = x }) _
          (omega arith, omega arith) api_version_minor (λ is. refl)
      ∙ merge-unknown rt (merge_field rt) (merge_field-Advances rt) (known m) ends
          back.no_unknown_back

  pub parse-write_to : (m : HelloRequest rt) → IsTyped m → parse rt (write_to rt m) ≡ merged m
  unfolding parse parse_from_bytes
  parse-write_to m typed =
      subst (λ h. Merge.merge rt (merge_field rt) (new rt) (rt.of_bytes (write_to rt h)) ≡ merged h)
        (λ i. record m { special_fields = sym typed.3 i }) (merge-known m typed)
