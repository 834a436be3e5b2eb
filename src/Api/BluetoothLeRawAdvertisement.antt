-- ===== src/Api/BluetoothLeRawAdvertisement.antt =====
-- src/api/api.rs: `BluetoothLERawAdvertisement`, as generated for proto/api.proto.
pub mod RoundTrip
use linux_bt_proxy.Prelude.{
  ℕ, ◌+◌, ◌%◌, ◌^◌, ◌≤◌, ◌<◌, ◌≡◌, ◌≢◌, refl, Bool, true, false, Option, none, some, List, [], ◌∷◌,
  ◌++◌, Bytes, length, length-append, All, ◌==◌, if◌then◌else◌, arith, Bool-cases, inl, inr,
}
use linux_bt_proxy.Prelude.Int.{ℤ, pos}
use linux_bt_proxy.Api.Runtime.{
  Protobuf, when, emit, nonempty, nonzero, nonzero_ℤ, total, emit_all, of_option, near_size,
  far_size, message_field, sum, concat,
}
use linux_bt_proxy.Api.Runtime.Sizes.{
  length-emit, length-emit_all, All-pointwise, length-near, length-far,
}
use linux_bt_proxy.Api.Runtime.Merge
use linux_bt_proxy.Api.Runtime.Merge.{
  Merged, stuck, assign, Advances, advancing, assign-Advances, arm-Advances, parse_from_bytes,
  parse_from_bytes-ne-stuck,
}

pub record BluetoothLeRawAdvertisement (rt : Protobuf) : Type 0 where
  pub address : ℕ
  pub rssi : ℤ
  pub address_type : ℕ
  pub payload : Bytes
  pub special_fields : rt.UnknownFields

module _ (rt : Protobuf) where
  unfoldable pub new : BluetoothLeRawAdvertisement rt
  new = record {
    address = 0;
    rssi = pos 0;
    address_type = 0;
    payload = [];
    special_fields = rt.no_unknown;
  }

  unfoldable pub compute_size : BluetoothLeRawAdvertisement rt → ℕ
  compute_size m = sum (
      when (nonzero m.address) (rt.uint64_size 1 m.address)
      ∷ when (nonzero_ℤ m.rssi) (rt.sint32_size 2 m.rssi)
      ∷ when (nonzero m.address_type) (rt.uint32_size 3 m.address_type)
      ∷ when (nonempty m.payload) (rt.bytes_size 4 m.payload)
      ∷ rt.unknown_fields_size m.special_fields
      ∷ [])

  -- `write_to_with_cached_sizes`
  unfoldable pub write_to : BluetoothLeRawAdvertisement rt → Bytes
  write_to m = concat (
      emit (nonzero m.address) (rt.write_uint64 1 m.address)
      ∷ emit (nonzero_ℤ m.rssi) (rt.write_sint32 2 m.rssi)
      ∷ emit (nonzero m.address_type) (rt.write_uint32 3 m.address_type)
      ∷ emit (nonempty m.payload) (rt.write_bytes 4 m.payload)
      ∷ rt.write_unknown_fields m.special_fields
      ∷ [])

  -- What is written has the size computed.
  pub length-write_to : (m : BluetoothLeRawAdvertisement rt) → length (write_to m) ≡ compute_size m
  unfolding write_to compute_size
  length-write_to m = simp (
    length-append, length-emit, rt.length-unknown, rt.length-uint64, rt.length-sint32,
    rt.length-uint32, rt.length-bytes,
  )

  -- One round of `merge_from`: the arms of its `match tag`.
  unfoldable pub merge_field :
      ℕ
      → BluetoothLeRawAdvertisement rt
      → rt.CodedInputStream
      → Option (BluetoothLeRawAdvertisement rt × rt.CodedInputStream)
  merge_field tag m is =
      if tag == 8
      then assign rt (λ x. record m { address = x }) (rt.read_uint64 is)
      else if tag == 16
      then assign rt (λ x. record m { rssi = x }) (rt.read_sint32 is)
      else if tag == 24
      then assign rt (λ x. record m { address_type = x }) (rt.read_uint32 is)
      else if tag == 34
      then assign rt (λ x. record m { payload = x }) (rt.read_bytes is)
      else assign rt (λ u. record m { special_fields = u })
          (rt.read_unknown_or_skip_group tag m.special_fields is)

  pub merge_field-Advances :
      (tag : ℕ) (m : BluetoothLeRawAdvertisement rt) (is : rt.CodedInputStream)
      → Advances rt is (merge_field tag m is)
  unfolding merge_field
  merge_field-Advances tag m is =
      arm-Advances rt (tag == 8) _ is (rt.read_uint64 is) _ (λ a is' e. rt.uint64_advances is e)
        (arm-Advances rt (tag == 16) _ is (rt.read_sint32 is) _ (λ a is' e. rt.sint32_advances is e)
          (arm-Advances rt (tag == 24) _ is (rt.read_uint32 is) _
            (λ a is' e. rt.uint32_advances is e)
            (arm-Advances rt (tag == 34) _ is (rt.read_bytes is) _
              (λ a is' e. rt.bytes_advances is e)
              (assign-Advances rt (λ u. record m { special_fields = u }) is
                (rt.read_unknown_or_skip_group tag m.special_fields is)
                (advancing rt is (rt.read_unknown_or_skip_group tag m.special_fields is)
                  (λ u is' e. rt.unknown_advances tag m.special_fields is e))))))

  unfoldable pub merge_from :
      BluetoothLeRawAdvertisement rt → rt.CodedInputStream → Option (BluetoothLeRawAdvertisement rt)
  unfolding merge_field Merge.merge_from
  merge_from m is = Merge.merge_from rt merge_field m is

  unfoldable pub parse : Bytes → Merged (BluetoothLeRawAdvertisement rt)
  unfolding merge_field new parse_from_bytes
  parse bytes = parse_from_bytes rt merge_field new bytes

  pub parse-ne-stuck : (bytes : Bytes) → parse bytes ≢ stuck
  unfolding parse
  parse-ne-stuck bytes = parse_from_bytes-ne-stuck rt merge_field merge_field-Advances new bytes
