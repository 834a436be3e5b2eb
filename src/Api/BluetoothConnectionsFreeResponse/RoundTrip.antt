-- ===== src/Api/BluetoothConnectionsFreeResponse/RoundTrip.antt =====
-- src/api/api.rs: what a `BluetoothConnectionsFreeResponse` wrote is read back.
use linux_bt_proxy.Prelude.{◌^◌, ◌<◌, ◌≡◌, refl, sym, ◌∙◌, length, All, arith}
use mathlib.Core.Path.{subst}
use linux_bt_proxy.Api.Runtime.{Protobuf}
use linux_bt_proxy.Api.Runtime.Merge.{Merged, merged, finished, parse_from_bytes}
use linux_bt_proxy.Api.Runtime.Merge
use linux_bt_proxy.Api.Runtime.ReadsBack.{ReadsBack}
use linux_bt_proxy.Api.Runtime.RoundTrip.{merge-unknown}
use linux_bt_proxy.Api.Runtime.Fields.{merge-uint32, merge-packed_uint64}
use linux_bt_proxy.Api.BluetoothConnectionsFreeResponse.{
  BluetoothConnectionsFreeResponse, new, write_to, merge_field, merge_field-Advances, parse,
}

module _ (rt : Protobuf) (back : ReadsBack rt) where
  -- The fields are what their types hold, and there is none that is unknown.
  abbrev pub IsTyped : BluetoothConnectionsFreeResponse rt → Type 0
  IsTyped m =
      (m.free < 2 ^ 32)
      × (m.limit < 2 ^ 32)
      × (All (λ n. n < 2 ^ 64) m.allocated × (length m.allocated < 2 ^ 27))
      × (m.special_fields ≡ rt.no_unknown)

  abbrev known : BluetoothConnectionsFreeResponse rt → BluetoothConnectionsFreeResponse rt
  known m = record m { special_fields = rt.no_unknown }

  merge-known :
      (m : BluetoothConnectionsFreeResponse rt)
      → IsTyped m
      → Merge.merge rt (merge_field rt) (new rt) (rt.of_bytes (write_to rt (known m)))
        ≡ merged (known m)
  unfolding merge_field new write_to
  merge-known m (free, limit, allocated, _) =
      let m1 : BluetoothConnectionsFreeResponse rt = record (new rt) { free = m.free } in
      let m2 : BluetoothConnectionsFreeResponse rt = record m1 { limit = m.limit } in
      let (_, ends) = back.ends in
      let uint32_field = merge-uint32 rt back (merge_field rt) (merge_field-Advances rt) in
      let packed_uint64_field =
        merge-packed_uint64 rt back (merge_field rt) (merge_field-Advances rt) in
      uint32_field 1 m.free (λ x. record (new rt) { free = x }) _ (omega arith, omega arith) free
        (λ is. refl)
      ∙ uint32_field 2 m.limit (λ x. record m1 { limit = x }) _ (omega arith, omega arith) limit
          (λ is. refl)
      ∙ packed_uint64_field 3 m.allocated (λ x. record m2 { allocated = x }) _
          (omega arith, omega arith) allocated (λ is. refl)
      ∙ merge-unknown rt (merge_field rt) (merge_field-Advances rt) (known m) ends
          back.no_unknown_back

  pub parse-write_to :
      (m : BluetoothConnectionsFreeResponse rt) → IsTyped m → parse rt (write_to rt m) ≡ merged m
  unfolding parse parse_from_bytes
  parse-write_to m typed =
      subst (λ h. Merge.merge rt (merge_field rt) (new rt) (rt.of_bytes (write_to rt h)) ≡ merged h)
        (λ i. record m { special_fields = sym typed.3 i }) (merge-known m typed)
