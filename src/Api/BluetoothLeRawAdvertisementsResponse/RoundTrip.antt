-- ===== src/Api/BluetoothLeRawAdvertisementsResponse/RoundTrip.antt =====
-- src/api/api.rs: a `BluetoothLERawAdvertisementsResponse` is read back from what it wrote.
use linux_bt_proxy.Prelude.{
  ◌^◌, ◌<◌, ◌≡◌, refl, sym, ap, ◌∙◌, Option, List, [], ◌++◌, Bytes, All, arith,
}
use linux_bt_proxy.Api.Runtime.{Protobuf, message_field}
use linux_bt_proxy.Api.Runtime.Sizes.{All-map}
use linux_bt_proxy.Api.Runtime.Merge.{merged, parse_from_bytes}
use linux_bt_proxy.Api.Runtime.ReadsBack.{ReadsBack, Back}
use linux_bt_proxy.Api.Runtime.RoundTrip.{merge-emit_all, merge-unknown, message-Back}
use linux_bt_proxy.Api.BluetoothLeRawAdvertisement
use linux_bt_proxy.Api.BluetoothLeRawAdvertisement.{BluetoothLeRawAdvertisement}
use linux_bt_proxy.Api.BluetoothLeRawAdvertisement.RoundTrip
use linux_bt_proxy.Api.BluetoothLeRawAdvertisementsResponse.{
  BluetoothLeRawAdvertisementsResponse, new, write_to, merge_field, merge_field-Advances, parse,
}

module _ (rt : Protobuf) (back : ReadsBack rt) where
  -- An advertisement inside, with the bytes that it takes.
  abbrev pub IsInside : BluetoothLeRawAdvertisement rt → Type 0
  IsInside v =
      RoundTrip.IsTyped rt back v × (BluetoothLeRawAdvertisement.compute_size rt v < 2 ^ 31)

  abbrev pub IsTyped : BluetoothLeRawAdvertisementsResponse rt → Type 0
  IsTyped m = All IsInside m.advertisements × (m.special_fields ≡ rt.no_unknown)

  abbrev field : BluetoothLeRawAdvertisement rt → Bytes
  field =
      message_field rt 1 (BluetoothLeRawAdvertisement.compute_size rt)
        (BluetoothLeRawAdvertisement.write_to rt)

  abbrev read : rt.CodedInputStream → Option (BluetoothLeRawAdvertisement rt × rt.CodedInputStream)
  read =
      rt.read_message (BluetoothLeRawAdvertisement.merge_from rt)
        (BluetoothLeRawAdvertisement.new rt)

  field-Back : (v : BluetoothLeRawAdvertisement rt) → IsInside v → Back rt 10 (field v) read v
  field-Back v (typed, small) =
      message-Back rt back (BluetoothLeRawAdvertisement.merge_from rt)
        (BluetoothLeRawAdvertisement.new rt) (BluetoothLeRawAdvertisement.compute_size rt)
        (BluetoothLeRawAdvertisement.write_to rt) 1 v (omega arith) (omega arith)
        (BluetoothLeRawAdvertisement.length-write_to rt v) small
        (RoundTrip.merge_from-write_to rt back v typed)

  merge-held :
      (vs : List (BluetoothLeRawAdvertisement rt))
      → All IsInside vs
      → (let m : BluetoothLeRawAdvertisementsResponse rt = record {
        advertisements = vs;
        special_fields = rt.no_unknown;
      } in
          parse rt (write_to rt m) ≡ merged m)
  unfolding parse parse_from_bytes merge_field new write_to
  merge-held vs inside =
      let (_, ends) = back.ends in
      merge-emit_all rt (merge_field rt) (merge_field-Advances rt) 10 read
        (λ vs. record (new rt) { advertisements = vs }) field [] vs
        (rt.write_unknown_fields rt.no_unknown ++ [])
        (All-map IsInside (λ v. Back rt 10 (field v) read v) vs field-Back inside) (λ ys is. refl)
      ∙ merge-unknown rt (merge_field rt) (merge_field-Advances rt)
          (record (new rt) { advertisements = vs }) ends back.no_unknown_back

  -- The raw advertisements that were written, each with its fields in their types' ranges, without
  -- unknown fields and below 2 ^ 31 bytes, are read back in their order.
  pub parse-write_to_batch :
      (m : BluetoothLeRawAdvertisementsResponse rt)
      → IsTyped m
      → parse rt (write_to rt m) ≡ merged m
  parse-write_to_batch m (inside, known) =
      let same : (let h : BluetoothLeRawAdvertisementsResponse rt = record {
        advertisements = m.advertisements;
        special_fields = rt.no_unknown;
      } in
            h)
          ≡ m =
        λ i. record m { special_fields = sym known i } in
      ap (λ h. parse rt (write_to rt h)) (sym same)
      ∙ merge-held m.advertisements inside
      ∙ ap merged same
