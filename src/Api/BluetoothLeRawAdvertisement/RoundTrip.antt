-- ===== src/Api/BluetoothLeRawAdvertisement/RoundTrip.antt =====
-- src/api/api.rs: a `BluetoothLERawAdvertisement` is read back from what it wrote.
use linux_bt_proxy.Prelude.{
  ℕ, ◌^◌, ◌<◌, ◌≡◌, refl, sym, ap, ◌∙◌, some, [], ◌++◌, Bytes, length, arith,
}
use linux_bt_proxy.Prelude.Int.{ℤ, pos}
use linux_bt_proxy.Api.Runtime.{Protobuf, emit, nonempty, nonzero, nonzero_ℤ}
use linux_bt_proxy.Api.Runtime.Merge.{Merged, merged, finished, parse_from_bytes}
use linux_bt_proxy.Api.Runtime.Merge
use linux_bt_proxy.Api.Runtime.ReadsBack.{ReadsBack, IsI32}
use linux_bt_proxy.Api.Runtime.RoundTrip.{
  nonzero-false, nonzero_ℤ-false, nonempty-false, merge-emit, merge-unknown,
}
use linux_bt_proxy.Api.BluetoothLeRawAdvertisement.{
  BluetoothLeRawAdvertisement, new, write_to, merge_field, merge_field-Advances, merge_from,
}

module _ (rt : Protobuf) (back : ReadsBack rt) where
  -- The fields are what their types hold, and there is none that is unknown.
  abbrev pub IsTyped : BluetoothLeRawAdvertisement rt → Type 0
  IsTyped m =
      (m.address < 2 ^ 64)
      × IsI32 m.rssi
      × (m.address_type < 2 ^ 32)
      × (length m.payload < 2 ^ 31)
      × (m.special_fields ≡ rt.no_unknown)

  module _ (a : ℕ) (r : ℤ) (t : ℕ) (p : Bytes) where
    held : BluetoothLeRawAdvertisement rt
    held = record {
      address = a;
      rssi = r;
      address_type = t;
      payload = p;
      special_fields = rt.no_unknown;
    }

    merge-held :
        IsTyped held
        → Merge.merge rt (merge_field rt) (new rt) (rt.of_bytes (write_to rt held)) ≡ merged held
    unfolding merge_field new write_to held
    merge-held (address, rssi, address_type, payload, _) =
        let m1 : BluetoothLeRawAdvertisement rt = record {
          address = a;
          rssi = pos 0;
          address_type = 0;
          payload = [];
          special_fields = rt.no_unknown;
        } in
        let m2 : BluetoothLeRawAdvertisement rt = record m1 { rssi = r } in
        let m3 : BluetoothLeRawAdvertisement rt = record m2 { address_type = t } in
        let rest4 = rt.write_unknown_fields rt.no_unknown ++ [] in
        let rest3 = emit (nonempty p) (rt.write_bytes 4 p) ++ rest4 in
        let rest2 = emit (nonzero t) (rt.write_uint32 3 t) ++ rest3 in
        let rest1 = emit (nonzero_ℤ r) (rt.write_sint32 2 r) ++ rest2 in
        let (_, ends) = back.ends in
        merge-emit rt (merge_field rt) (merge_field-Advances rt) 8 rt.read_uint64
          (λ x. record (new rt) { address = x }) (new rt) (nonzero a) (rt.write_uint64 1 a) rest1
          (back.uint64_back 1 a (omega arith) (omega arith) address) (λ is. refl)
          (λ h. ap (λ x. record (new rt) { address = x }) (nonzero-false a h))
        ∙ merge-emit rt (merge_field rt) (merge_field-Advances rt) 16 rt.read_sint32
            (λ x. record m1 { rssi = x }) m1 (nonzero_ℤ r) (rt.write_sint32 2 r) rest2
            (back.sint32_back 2 r (omega arith) (omega arith) rssi) (λ is. refl)
            (λ h. ap (λ x. record m1 { rssi = x }) (nonzero_ℤ-false r h))
        ∙ merge-emit rt (merge_field rt) (merge_field-Advances rt) 24 rt.read_uint32
            (λ x. record m2 { address_type = x }) m2 (nonzero t) (rt.write_uint32 3 t) rest3
            (back.uint32_back 3 t (omega arith) (omega arith) address_type) (λ is. refl)
            (λ h. ap (λ x. record m2 { address_type = x }) (nonzero-false t h))
        ∙ merge-emit rt (merge_field rt) (merge_field-Advances rt) 34 rt.read_bytes
            (λ x. record m3 { payload = x }) m3 (nonempty p) (rt.write_bytes 4 p) rest4
            (back.bytes_back 4 p (omega arith) (omega arith) payload) (λ is. refl)
            (λ h. ap (λ x. record m3 { payload = x }) (nonempty-false p h))
        ∙ merge-unknown rt (merge_field rt) (merge_field-Advances rt) held ends back.no_unknown_back

  merge-write_to :
      (m : BluetoothLeRawAdvertisement rt)
      → IsTyped m
      → Merge.merge rt (merge_field rt) (new rt) (rt.of_bytes (write_to rt m)) ≡ merged m
  unfolding held
  merge-write_to m typed =
      let (address, rssi, address_type, payload, known) = typed in
      let same : held m.address m.rssi m.address_type m.payload ≡ m =
        λ i. record m { special_fields = sym known i } in
      ap (λ h. Merge.merge rt (merge_field rt) (new rt) (rt.of_bytes (write_to rt h))) (sym same)
      ∙ merge-held m.address m.rssi m.address_type m.payload
          (address, rssi, address_type, payload, refl)
      ∙ ap merged same

  -- A raw advertisement whose fields are in their types' ranges and that holds no unknown field is read
  -- back whole from the bytes that it wrote, its default values, which are not written, included; as it
  -- is where it stands inside another message.
  pub merge_from-write_to :
      (m : BluetoothLeRawAdvertisement rt)
      → IsTyped m
      → merge_from rt (new rt) (rt.of_bytes (write_to rt m)) ≡ some m
  unfolding merge_from Merge.merge_from
  merge_from-write_to m typed = ap finished (merge-write_to m typed)
