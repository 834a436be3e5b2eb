-- ===== src/Api/BluetoothLeAdvertisementResponse.antt =====
-- src/api/api.rs: `BluetoothLEAdvertisementResponse`, as generated for proto/api.proto.
pub mod RoundTrip
use linux_bt_proxy.Api.BluetoothServiceData
use linux_bt_proxy.Api.BluetoothServiceData.{BluetoothServiceData}
use linux_bt_proxy.Prelude.{
  ℕ, ◌^◌, ◌<◌, ◌≡◌, ◌≢◌, Option, List, [], ◌∷◌, ◌++◌, Bytes, length, length-append, All, ◌==◌,
  if◌then◌else◌, arith,
}
use linux_bt_proxy.Prelude.Int.{ℤ, pos}
use linux_bt_proxy.Api.Runtime.{
  Protobuf, when, emit, nonempty, nonzero, nonzero_ℤ, total, emit_all, near_size, message_field,
  sum, concat,
}
use linux_bt_proxy.Api.Runtime.Sizes.{length-emit, length-emit_all, All-pointwise, length-near}
use linux_bt_proxy.Api.Runtime.Merge
use linux_bt_proxy.Api.Runtime.Merge.{
  Merged, stuck, assign, Advances, advancing, assign-Advances, arm-Advances, parse_from_bytes,
  parse_from_bytes-ne-stuck,
}

pub record BluetoothLeAdvertisementResponse (rt : Protobuf) : Type 0 where
  pub address : ℕ
  pub name : Bytes
  pub rssi : ℤ
  pub service_uuids : List Bytes
  pub service_data : List (BluetoothServiceData rt)
  pub manufacturer_data : List (BluetoothServiceData rt)
  pub address_type : ℕ
  pub special_fields : rt.UnknownFields

module _ (rt : Protobuf) where
  unfoldable pub new : BluetoothLeAdvertisementResponse rt
  new = record {
    address = 0;
    name = [];
    rssi = pos 0;
    service_uuids = [];
    service_data = [];
    manufacturer_data = [];
    address_type = 0;
    special_fields = rt.no_unknown;
  }

  unfoldable pub compute_size : BluetoothLeAdvertisementResponse rt → ℕ
  compute_size m = sum (
      when (nonzero m.address) (rt.uint64_size 1 m.address)
      ∷ when (nonempty m.name) (rt.bytes_size 2 m.name)
      ∷ when (nonzero_ℤ m.rssi) (rt.sint32_size 3 m.rssi)
      ∷ total (rt.string_size 4) m.service_uuids
      ∷ total (near_size rt (BluetoothServiceData.compute_size rt)) m.service_data
      ∷ total (near_size rt (BluetoothServiceData.compute_size rt)) m.manufacturer_data
      ∷ when (nonzero m.address_type) (rt.uint32_size 7 m.address_type)
      ∷ rt.unknown_fields_size m.special_fields
      ∷ [])

  -- `write_to_with_cached_sizes`
  unfoldable pub write_to : BluetoothLeAdvertisementResponse rt → Bytes
  write_to m = concat (
      emit (nonzero m.address) (rt.write_uint64 1 m.address)
      ∷ emit (nonempty m.name) (rt.write_bytes 2 m.name)
      ∷ emit (nonzero_ℤ m.rssi) (rt.write_sint32 3 m.rssi)
      ∷ emit_all (rt.write_string 4) m.service_uuids
      ∷ emit_all
          (message_field rt 5 (BluetoothServiceData.compute_size rt)
            (BluetoothServiceData.write_to rt))
          m.service_data
      ∷ emit_all
          (message_field rt 6 (BluetoothServiceData.compute_size rt)
            (BluetoothServiceData.write_to rt))
          m.manufacturer_data
      ∷ emit (nonzero m.address_type) (rt.write_uint32 7 m.address_type)
      ∷ rt.write_unknown_fields m.special_fields
      ∷ [])

  -- The sizes of the messages inside, which are cached as `u32`s, do not wrap.
  abbrev pub Fits : BluetoothLeAdvertisementResponse rt → Type 0
  Fits m =
      All (λ v. BluetoothServiceData.compute_size rt v < 2 ^ 32) m.service_data
      × All (λ v. BluetoothServiceData.compute_size rt v < 2 ^ 32) m.manufacturer_data

  -- What is written has the size computed, if no size inside wraps.
  pub length-write_to :
      (m : BluetoothLeAdvertisementResponse rt) → Fits m → length (write_to m) ≡ compute_size m
  unfolding write_to compute_size
  length-write_to m fits = simp (
    length-append,
    length-emit,
    rt.length-unknown,
    rt.length-uint64,
    rt.length-bytes,
    rt.length-sint32,
    length-emit_all (rt.write_string 4) (rt.string_size 4) m.service_uuids (
        All-pointwise (λ s. length (rt.write_string 4 s) ≡ rt.string_size 4 s) m.service_uuids
          (rt.length-string 4)),
    length-near rt 5 (BluetoothServiceData.compute_size rt) (BluetoothServiceData.write_to rt)
        (omega arith) m.service_data (BluetoothServiceData.length-write_to rt) fits.0,
    length-near rt 6 (BluetoothServiceData.compute_size rt) (BluetoothServiceData.write_to rt)
        (omega arith) m.manufacturer_data (BluetoothServiceData.length-write_to rt) fits.1,
    rt.length-uint32,
  )

  -- One round of `merge_from`: the arms of its `match tag`.
  unfoldable pub merge_field :
      ℕ
      → BluetoothLeAdvertisementResponse rt
      → rt.CodedInputStream
      → Option (BluetoothLeAdvertisementResponse rt × rt.CodedInputStream)
  merge_field tag m is =
      if tag == 8
      then assign rt (λ x. record m { address = x }) (rt.read_uint64 is)
      else if tag == 18
      then assign rt (λ x. record m { name = x }) (rt.read_bytes is)
      else if tag == 24
      then assign rt (λ x. record m { rssi = x }) (rt.read_sint32 is)
      else if tag == 34
      then assign rt (λ x. record m { service_uuids = m.service_uuids ++ x ∷ [] })
          (rt.read_string is)
      else if tag == 42
      then assign rt (λ x. record m { service_data = m.service_data ++ x ∷ [] })
          (rt.read_message (BluetoothServiceData.merge_from rt) (BluetoothServiceData.new rt) is)
      else if tag == 50
      then assign rt (λ x. record m { manufacturer_data = m.manufacturer_data ++ x ∷ [] })
          (rt.read_message (BluetoothServiceData.merge_from rt) (BluetoothServiceData.new rt) is)
      else if tag == 56
      then assign rt (λ x. record m { address_type = x }) (rt.read_uint32 is)
      else assign rt (λ u. record m { special_fields = u })
          (rt.read_unknown_or_skip_group tag m.special_fields is)

  pub merge_field-Advances :
      (tag : ℕ) (m : BluetoothLeAdvertisementResponse rt) (is : rt.CodedInputStream)
      → Advances rt is (merge_field tag m is)
  unfolding merge_field
  merge_field-Advances tag m is =
      arm-Advances rt (tag == 8) _ is (rt.read_uint64 is) _ (λ a is' e. rt.uint64_advances is e)
        (arm-Advances rt (tag == 18) _ is (rt.read_bytes is) _ (λ a is' e. rt.bytes_advances is e)
          (arm-Advances rt (tag == 24) _ is (rt.read_sint32 is) _
            (λ a is' e. rt.sint32_advances is e)
            (arm-Advances rt (tag == 34) _ is (rt.read_string is) _
              (λ a is' e. rt.string_advances is e)
              (arm-Advances rt (tag == 42) _ is
                (rt.read_message (BluetoothServiceData.merge_from rt) (BluetoothServiceData.new rt)
                  is)
                _
                (λ a is' e.
                  rt.message_advances (BluetoothServiceData.merge_from rt)
                    (BluetoothServiceData.new rt) is e)
                (arm-Advances rt (tag == 50) _ is
                  (rt.read_message (BluetoothServiceData.merge_from rt)
                    (BluetoothServiceData.new rt) is)
                  _
                  (λ a is' e.
                    rt.message_advances (BluetoothServiceData.merge_from rt)
                      (BluetoothServiceData.new rt) is e)
                  (arm-Advances rt (tag == 56) _ is (rt.read_uint32 is) _
                    (λ a is' e. rt.uint32_advances is e)
                    (assign-Advances rt (λ u. record m { special_fields = u }) is
                      (rt.read_unknown_or_skip_group tag m.special_fields is)
                      (advancing rt is (rt.read_unknown_or_skip_group tag m.special_fields is)
                        (λ u is' e. rt.unknown_advances tag m.special_fields is e)))))))))

  unfoldable pub merge_from :
      BluetoothLeAdvertisementResponse rt
      → rt.CodedInputStream
      → Option (BluetoothLeAdvertisementResponse rt)
  unfolding merge_field Merge.merge_from
  merge_from m is = Merge.merge_from rt merge_field m is

  unfoldable pub parse : Bytes → Merged (BluetoothLeAdvertisementResponse rt)
  unfolding merge_field new parse_from_bytes
  parse bytes = parse_from_bytes rt merge_field new bytes

  pub parse-ne-stuck : (bytes : Bytes) → parse bytes ≢ stuck
  unfolding parse
  parse-ne-stuck bytes = parse_from_bytes-ne-stuck rt merge_field merge_field-Advances new bytes
