-- ===== src/Api/ConnectRequest/RoundTrip.antt =====
-- src/api/api.rs: what a `ConnectRequest` wrote is read back.
use linux_bt_proxy.Prelude.{◌≡◌, refl, sym, ◌∙◌, arith}
use mathlib.Core.Path.{subst}
use linux_bt_proxy.Api.Runtime.{Protobuf}
use linux_bt_proxy.Api.Runtime.Merge.{Merged, merged, finished, parse_from_bytes}
use linux_bt_proxy.Api.Runtime.Merge
use linux_bt_proxy.Api.Runtime.ReadsBack.{ReadsBack}
use linux_bt_proxy.Api.Runtime.RoundTrip.{merge-unknown}
use linux_bt_proxy.Api.Runtime.Fields.{IsText, merge-string}
use linux_bt_proxy.Api.ConnectRequest.{
  ConnectRequest, new, write_to, merge_field, merge_field-Advances, parse,
}

module _ (rt : Protobuf) (back : ReadsBack rt) where
  -- The fields are what their types hold, and there is none that is unknown.
  abbrev pub IsTyped : ConnectRequest rt → Type 0
  IsTyped m = IsText back m.password × (m.special_fields ≡ rt.no_unknown)

  abbrev known : ConnectRequest rt → ConnectRequest rt
  known m = record m { special_fields = rt.no_unknown }

  merge-known :
      (m : ConnectRequest rt)
      → IsTyped m
      → Merge.merge rt (merge_field rt) (new rt) (rt.of_bytes (write_to rt (known m)))
        ≡ merged (known m)
  unfolding merge_field new write_to
  merge-known m (password, _) =
      let (_, ends) = back.ends in
      let string_field = merge-string rt back (merge_field rt) (merge_field-Advances rt) in
      string_field 1 m.password (λ x. record (new rt) { password = x }) _ (omega arith, omega arith)
        password (λ is. refl)
      ∙ merge-unknown rt (merge_field rt) (merge_field-Advances rt) (known m) ends
          back.no_unknown_back

  pub parse-write_to : (m : ConnectRequest rt) → IsTyped m → parse rt (write_to rt m) ≡ merged m
  unfolding parse parse_from_bytes
  parse-write_to m typed =
      subst (λ h. Merge.merge rt (merge_field rt) (new rt) (rt.of_bytes (write_to rt h)) ≡ merged h)
        (λ i. record m { special_fields = sym typed.1 i }) (merge-known m typed)
