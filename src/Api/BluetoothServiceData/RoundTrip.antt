-- ===== src/Api/BluetoothServiceData/RoundTrip.antt =====
-- src/api/api.rs: a `BluetoothServiceData` is read back from what it wrote.
use linux_bt_proxy.Prelude.{
  ℕ, ◌^◌, ◌<◌, ◌≡◌, refl, sym, ap, ◌∙◌, some, List, [], ◌++◌, Bytes, length, All, arith,
}
use linux_bt_proxy.Api.Runtime.{Protobuf, emit, nonempty}
use linux_bt_proxy.Api.Runtime.Merge.{Merged, merged, finished}
use linux_bt_proxy.Api.Runtime.Merge
use linux_bt_proxy.Api.Runtime.ReadsBack.{ReadsBack}
use linux_bt_proxy.Api.Runtime.RoundTrip.{nonempty-false, merge-emit, merge-packed, merge-unknown}
use linux_bt_proxy.Api.BluetoothServiceData.{
  BluetoothServiceData, new, write_to, merge_field, merge_field-Advances, merge_from,
}

module _ (rt : Protobuf) (back : ReadsBack rt) where
  -- The fields are what their types hold, and there is none that is unknown.
  abbrev pub IsTyped : BluetoothServiceData rt → Type 0
  IsTyped m =
      back.IsUtf8 m.uuid
      × (length m.uuid < 2 ^ 31)
      × All (λ n. n < 2 ^ 32) m.legacy_data
      × (length m.legacy_data < 2 ^ 27)
      × (length m.payload < 2 ^ 31)
      × (m.special_fields ≡ rt.no_unknown)

  module _ (u : Bytes) (ns : List ℕ) (p : Bytes) where
    held : BluetoothServiceData rt
    held = record { uuid = u; legacy_data = ns; payload = p; special_fields = rt.no_unknown }

    merge-held :
        IsTyped held
        → Merge.merge rt (merge_field rt) (new rt) (rt.of_bytes (write_to rt held)) ≡ merged held
    unfolding merge_field new write_to held
    merge-held (utf8, uuid, range, short, payload, _) =
        let m1 : BluetoothServiceData rt = record {
          uuid = u;
          legacy_data = [];
          payload = [];
          special_fields = rt.no_unknown;
        } in
        let m2 : BluetoothServiceData rt = record m1 { legacy_data = ns } in
        let rest3 = rt.write_unknown_fields rt.no_unknown ++ [] in
        let rest2 = emit (nonempty p) (rt.write_bytes 3 p) ++ rest3 in
        let rest1 = rt.write_repeated_packed_uint32 2 ns ++ rest2 in
        let (_, ends) = back.ends in
        merge-emit rt (merge_field rt) (merge_field-Advances rt) 10 rt.read_string
          (λ x. record (new rt) { uuid = x }) (new rt) (nonempty u) (rt.write_string 1 u) rest1
          (back.string_back 1 u (omega arith) (omega arith) utf8 uuid) (λ is. refl)
          (λ h. ap (λ x. record (new rt) { uuid = x }) (nonempty-false u h))
        ∙ merge-packed rt (merge_field rt) (merge_field-Advances rt) 18 rt.read_packed_uint32
            (λ xs. record m1 { legacy_data = xs }) m1 ns (rt.write_repeated_packed_uint32 2 ns)
            rest2 (λ h. back.packed_uint32_back 2 ns (omega arith) (omega arith) h range short)
            (λ e. ap (rt.write_repeated_packed_uint32 2) (sym e) ∙ back.packed_uint32_none 2)
            (λ is. refl) refl
        ∙ merge-emit rt (merge_field rt) (merge_field-Advances rt) 26 rt.read_bytes
            (λ x. record m2 { payload = x }) m2 (nonempty p) (rt.write_bytes 3 p) rest3
            (back.bytes_back 3 p (omega arith) (omega arith) payload) (λ is. refl)
            (λ h. ap (λ x. record m2 { payload = x }) (nonempty-false p h))
        ∙ merge-unknown rt (merge_field rt) (merge_field-Advances rt) held ends back.no_unknown_back

  -- Service data whose fields are in their types' ranges and that holds no unknown field is read back
  -- whole from the bytes that it wrote, as it is where it stands inside another message.
  pub merge_from-write_to :
      (m : BluetoothServiceData rt)
      → IsTyped m
      → merge_from rt (new rt) (rt.of_bytes (write_to rt m)) ≡ some m
  unfolding merge_from Merge.merge_from held
  merge_from-write_to m (utf8, uuid, range, short, payload, known) =
      let same : held m.uuid m.legacy_data m.payload ≡ m =
        λ i. record m { special_fields = sym known i } in
      ap finished (
        ap (λ h. Merge.merge rt (merge_field rt) (new rt) (rt.of_bytes (write_to rt h))) (sym same)
        ∙ merge-held m.uuid m.legacy_data m.payload (utf8, uuid, range, short, payload, refl)
        ∙ ap merged same)
