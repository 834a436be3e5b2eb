-- ===== src/Api/BluetoothLeAdvertisementResponse/RoundTrip.antt =====
-- src/api/api.rs: a `BluetoothLEAdvertisementResponse` is read back from what it wrote.
use linux_bt_proxy.Prelude.{
  ℕ, ◌+◌, ◌*◌, ◌^◌, ◌<◌, ◌≡◌, refl, sym, ap, ◌∙◌, Option, List, [], ◌++◌, Bytes, length, All, arith,
}
use linux_bt_proxy.Prelude.Int.{ℤ, pos}
use linux_bt_proxy.Api.Runtime.{
  Protobuf, emit, emit_all, message_field, nonempty, nonzero, nonzero_ℤ,
}
use linux_bt_proxy.Api.Runtime.Sizes.{All-map}
use linux_bt_proxy.Api.Runtime.Merge.{Merged, merged, parse_from_bytes}
use linux_bt_proxy.Api.Runtime.Merge
use linux_bt_proxy.Api.Runtime.ReadsBack.{ReadsBack, IsI32, Back}
use linux_bt_proxy.Api.Runtime.RoundTrip.{
  nonzero-false, nonzero_ℤ-false, nonempty-false, merge-emit, merge-emit_all, merge-unknown,
  message-Back,
}
use linux_bt_proxy.Api.BluetoothServiceData
use linux_bt_proxy.Api.BluetoothServiceData.{BluetoothServiceData}
use linux_bt_proxy.Api.BluetoothServiceData.RoundTrip
use linux_bt_proxy.Api.BluetoothLeAdvertisementResponse.{
  BluetoothLeAdvertisementResponse, new, write_to, merge_field, merge_field-Advances, parse,
}

module _ (rt : Protobuf) (back : ReadsBack rt) where
  -- Service data inside, with the bytes that it takes.
  abbrev pub IsInside : BluetoothServiceData rt → Type 0
  IsInside v = RoundTrip.IsTyped rt back v × (BluetoothServiceData.compute_size rt v < 2 ^ 31)

  abbrev pub IsText : Bytes → Type 0
  IsText s = back.IsUtf8 s × (length s < 2 ^ 31)

  -- The fields are what their types hold, and there is none that is unknown.
  abbrev pub IsTyped : BluetoothLeAdvertisementResponse rt → Type 0
  IsTyped m =
      (m.address < 2 ^ 64)
      × (length m.name < 2 ^ 31)
      × IsI32 m.rssi
      × All IsText m.service_uuids
      × All IsInside m.service_data
      × All IsInside m.manufacturer_data
      × (m.address_type < 2 ^ 32)
      × (m.special_fields ≡ rt.no_unknown)

  abbrev field : ℕ → BluetoothServiceData rt → Bytes
  field f =
      message_field rt f (BluetoothServiceData.compute_size rt) (BluetoothServiceData.write_to rt)

  abbrev read : rt.CodedInputStream → Option (BluetoothServiceData rt × rt.CodedInputStream)
  read = rt.read_message (BluetoothServiceData.merge_from rt) (BluetoothServiceData.new rt)

  field-Back :
      (f : ℕ)
      → 0 < f
      → f < 2 ^ 29
      → (v : BluetoothServiceData rt) → IsInside v
      → Back rt (f * 8 + 2) (field f v) read v
  field-Back f h k v (typed, small) =
      message-Back rt back (BluetoothServiceData.merge_from rt) (BluetoothServiceData.new rt)
        (BluetoothServiceData.compute_size rt) (BluetoothServiceData.write_to rt) f v h k
        (BluetoothServiceData.length-write_to rt v) small
        (RoundTrip.merge_from-write_to rt back v typed)

  module _ (a : ℕ) (n : Bytes) (r : ℤ) (us : List Bytes) (ss ms : List (BluetoothServiceData rt))
      (t : ℕ) where
    held : BluetoothLeAdvertisementResponse rt
    held = record {
      address = a;
      name = n;
      rssi = r;
      service_uuids = us;
      service_data = ss;
      manufacturer_data = ms;
      address_type = t;
      special_fields = rt.no_unknown;
    }

    abbrev rest7 : Bytes
    rest7 = rt.write_unknown_fields rt.no_unknown ++ []

    abbrev rest6 : Bytes
    rest6 = emit (nonzero t) (rt.write_uint32 7 t) ++ rest7

    abbrev rest5 : Bytes
    rest5 = emit_all (field 6) ms ++ rest6

    abbrev rest4 : Bytes
    rest4 = emit_all (field 5) ss ++ rest5

    abbrev rest3 : Bytes
    rest3 = emit_all (rt.write_string 4) us ++ rest4

    abbrev m3 : BluetoothLeAdvertisementResponse rt
    m3 = record {
      address = a;
      name = n;
      rssi = r;
      service_uuids = [];
      service_data = [];
      manufacturer_data = [];
      address_type = 0;
      special_fields = rt.no_unknown;
    }

    -- The address, the name and the signal strength.
    merge-front :
        IsTyped held
        → Merge.merge rt (merge_field rt) (new rt) (rt.of_bytes (write_to rt held))
          ≡ Merge.merge rt (merge_field rt) m3 (rt.of_bytes rest3)
    unfolding merge_field new write_to held
    merge-front (address, name, rssi, _, _, _, _, _) =
        let m1 : BluetoothLeAdvertisementResponse rt = record m3 { name = []; rssi = pos 0 } in
        let m2 : BluetoothLeAdvertisementResponse rt = record m3 { rssi = pos 0 } in
        let rest2 = emit (nonzero_ℤ r) (rt.write_sint32 3 r) ++ rest3 in
        let rest1 = emit (nonempty n) (rt.write_bytes 2 n) ++ rest2 in
        merge-emit rt (merge_field rt) (merge_field-Advances rt) 8 rt.read_uint64
          (λ x. record (new rt) { address = x }) (new rt) (nonzero a) (rt.write_uint64 1 a) rest1
          (back.uint64_back 1 a (omega arith) (omega arith) address) (λ is. refl)
          (λ h. ap (λ x. record (new rt) { address = x }) (nonzero-false a h))
        ∙ merge-emit rt (merge_field rt) (merge_field-Advances rt) 18 rt.read_bytes
            (λ x. record m1 { name = x }) m1 (nonempty n) (rt.write_bytes 2 n) rest2
            (back.bytes_back 2 n (omega arith) (omega arith) name) (λ is. refl)
            (λ h. ap (λ x. record m1 { name = x }) (nonempty-false n h))
        ∙ merge-emit rt (merge_field rt) (merge_field-Advances rt) 24 rt.read_sint32
            (λ x. record m2 { rssi = x }) m2 (nonzero_ℤ r) (rt.write_sint32 3 r) rest3
            (back.sint32_back 3 r (omega arith) (omega arith) rssi) (λ is. refl)
            (λ h. ap (λ x. record m2 { rssi = x }) (nonzero_ℤ-false r h))

    -- The lists, and the address type.
    merge-behind :
        IsTyped held → Merge.merge rt (merge_field rt) m3 (rt.of_bytes rest3) ≡ merged held
    unfolding merge_field held
    merge-behind (_, _, _, uuids, services, manufacturers, address_type, _) =
        let m4 : BluetoothLeAdvertisementResponse rt = record m3 { service_uuids = us } in
        let m5 : BluetoothLeAdvertisementResponse rt = record m4 { service_data = ss } in
        let m6 : BluetoothLeAdvertisementResponse rt = record m5 { manufacturer_data = ms } in
        let (_, ends) = back.ends in
        merge-emit_all rt (merge_field rt) (merge_field-Advances rt) 34 rt.read_string
          (λ xs. record m3 { service_uuids = xs }) (rt.write_string 4) [] us rest4
          (All-map IsText (λ s. Back rt 34 (rt.write_string 4 s) rt.read_string s) us
            (λ s (utf8, short). back.string_back 4 s (omega arith) (omega arith) utf8 short) uuids)
          (λ ys is. refl)
        ∙ merge-emit_all rt (merge_field rt) (merge_field-Advances rt) 42 read
            (λ xs. record m4 { service_data = xs }) (field 5) [] ss rest5
            (All-map IsInside (λ v. Back rt 42 (field 5 v) read v) ss
              (field-Back 5 (omega arith) (omega arith)) services)
            (λ ys is. refl)
        ∙ merge-emit_all rt (merge_field rt) (merge_field-Advances rt) 50 read
            (λ xs. record m5 { manufacturer_data = xs }) (field 6) [] ms rest6
            (All-map IsInside (λ v. Back rt 50 (field 6 v) read v) ms
              (field-Back 6 (omega arith) (omega arith)) manufacturers)
            (λ ys is. refl)
        ∙ merge-emit rt (merge_field rt) (merge_field-Advances rt) 56 rt.read_uint32
            (λ x. record m6 { address_type = x }) m6 (nonzero t) (rt.write_uint32 7 t) rest7
            (back.uint32_back 7 t (omega arith) (omega arith) address_type) (λ is. refl)
            (λ h. ap (λ x. record m6 { address_type = x }) (nonzero-false t h))
        ∙ merge-unknown rt (merge_field rt) (merge_field-Advances rt) held ends back.no_unknown_back

  -- A parsed advertisement whose fields, and those of its service and manufacturer data, are in their
  -- types' ranges and that holds no unknown field is read back whole from the bytes that it wrote.
  pub parse-write_to :
      (m : BluetoothLeAdvertisementResponse rt) → IsTyped m → parse rt (write_to rt m) ≡ merged m
  unfolding parse parse_from_bytes held
  parse-write_to m (address, name, rssi, uuids, services, manufacturers, address_type, known) =
      let whole =
        held m.address m.name m.rssi m.service_uuids m.service_data m.manufacturer_data
          m.address_type in
      let same : whole ≡ m = λ i. record m { special_fields = sym known i } in
      ap (λ h. Merge.merge rt (merge_field rt) (new rt) (rt.of_bytes (write_to rt h))) (sym same)
      ∙ merge-front m.address m.name m.rssi m.service_uuids m.service_data m.manufacturer_data
          m.address_type (address, name, rssi, uuids, services, manufacturers, address_type, refl)
      ∙ merge-behind m.address m.name m.rssi m.service_uuids m.service_data m.manufacturer_data
          m.address_type (address, name, rssi, uuids, services, manufacturers, address_type, refl)
      ∙ ap merged same
