-- ===== src/Api/HelloResponse/RoundTrip.antt =====
-- src/api/api.rs: what a `HelloResponse` wrote is read back.
use linux_bt_proxy.Prelude.{◌^◌, ◌<◌, ◌≡◌, refl, sym, ◌∙◌, arith}
use mathlib.Core.Path.{subst}
use linux_bt_proxy.Api.Runtime.{Protobuf}
use linux_bt_proxy.Api.Runtime.Merge.{Merged, merged, finished, parse_from_bytes}
use linux_bt_proxy.Api.Runtime.Merge
use linux_bt_proxy.Api.Runtime.ReadsBack.{ReadsBack}
use linux_bt_proxy.Api.Runtime.RoundTrip.{merge-unknown}
use linux_bt_proxy.Api.Runtime.Fields.{IsText, merge-uint32, merge-string}
use linux_bt_proxy.Api.HelloResponse.{
  HelloResponse, new, write_to, merge_field, merge_field-Advances, parse,
}

module _ (rt : Protobuf) (back : ReadsBack rt) where
  -- The fields are what their types hold, and there is none that is unknown.
  abbrev pub IsTyped : HelloResponse rt → Type 0
  IsTyped m =
      (m.api_version_major < 2 ^ 32)
      × (m.api_version_minor < 2 ^ 32)
      × IsText back m.server_info
      × IsText back m.name
      × (m.special_fields ≡ rt.no_unknown)

  abbrev known : HelloResponse rt → HelloResponse rt
  known m = record m { special_fields = rt.no_unknown }

  merge-known :
      (m : HelloResponse rt)
      → IsTyped m
      → Merge.merge rt (merge_field rt) (new rt) (rt.of_bytes (write_to rt (known m)))
        ≡ merged (known m)
  unfolding merge_field new write_to
  merge-known m (api_version_major, api_version_minor, server_info, name, _) =
      let m1 : HelloResponse rt = record (new rt) { api_version_major = m.api_version_major } in
      let m2 : HelloResponse rt = record m1 { api_version_minor = m.api_version_minor } in
      let m3 : HelloResponse rt = record m2 { server_info = m.server_info } in
      let (_, ends) = back.ends in
      let uint32_field = merge-uint32 rt back (merge_field rt) (merge_field-Advances rt) in
      let string_field = merge-string rt back (merge_field rt) (merge_field-Advances rt) in
      uint32_field 1 m.api_version_major (λ x. record (new rt) { api_version_major = x }) _
        (omega arith, omega arith) api_version_major (λ is. refl)
      ∙ uint32_field 2 m.api_version_minor (λ x. record m1 { api_version_minor = x }) _
          (omega arith, omega arith) api_version_minor (λ is. refl)
      ∙ string_field 3 m.server_info (λ x. record m2 { server_info = x }) _
          (omega arith, omega arith) server_info (λ is. refl)
      ∙ string_field 4 m.name (λ x. record m3 { name = x }) _ (omega arith, omega arith) name
          (λ is. refl)
      ∙ merge-unknown rt (merge_field rt) (merge_field-Advances rt) (known m) ends
          back.no_unknown_back

  pub parse-write_to : (m : HelloResponse rt) → IsTyped m → parse rt (write_to rt m) ≡ merged m
  unfolding parse parse_from_bytes
  parse-write_to m typed =
      subst (λ h. Merge.merge rt (merge_field rt) (new rt) (rt.of_bytes (write_to rt h)) ≡ merged h)
        (λ i. record m { special_fields = sym typed.4 i }) (merge-known m typed)
