-- ===== src/Api/SubscribeBluetoothLeAdvertisementsRequest.antt =====
-- src/api/api.rs: `SubscribeBluetoothLEAdvertisementsRequest`, as generated for proto/api.proto.
pub mod RoundTrip
use linux_bt_proxy.Prelude.{
  ℕ, ◌≡◌, ◌≢◌, Option, [], ◌∷◌, Bytes, length, length-append, ◌==◌, if◌then◌else◌,
}
use linux_bt_proxy.Api.Runtime.{Protobuf, when, emit, nonzero, sum, concat}
use linux_bt_proxy.Api.Runtime.Sizes.{length-emit}
use linux_bt_proxy.Api.Runtime.Merge
use linux_bt_proxy.Api.Runtime.Merge.{
  Merged, stuck, assign, Advances, advancing, assign-Advances, arm-Advances, parse_from_bytes,
  parse_from_bytes-ne-stuck,
}

pub record SubscribeBluetoothLeAdvertisementsRequest (rt : Protobuf) : Type 0 where
  pub flags : ℕ
  pub special_fields : rt.UnknownFields

module _ (rt : Protobuf) where
  unfoldable pub new : SubscribeBluetoothLeAdvertisementsRequest rt
  new = record { flags = 0; special_fields = rt.no_unknown }

  unfoldable pub compute_size : SubscribeBluetoothLeAdvertisementsRequest rt → ℕ
  compute_size m = sum (
      when (nonzero m.flags) (rt.uint32_size 1 m.flags)
      ∷ rt.unknown_fields_size m.special_fields
      ∷ [])

  -- `write_to_with_cached_sizes`
  unfoldable pub write_to : SubscribeBluetoothLeAdvertisementsRequest rt → Bytes
  write_to m = concat (
      emit (nonzero m.flags) (rt.write_uint32 1 m.flags)
      ∷ rt.write_unknown_fields m.special_fields
      ∷ [])

  -- What is written has the size computed.
  pub length-write_to :
      (m : SubscribeBluetoothLeAdvertisementsRequest rt) → length (write_to m) ≡ compute_size m
  unfolding write_to compute_size
  length-write_to m = simp (length-append, length-emit, rt.length-unknown, rt.length-uint32)

  -- One round of `merge_from`: the arms of its `match tag`.
  unfoldable pub merge_field :
      ℕ
      → SubscribeBluetoothLeAdvertisementsRequest rt
      → rt.CodedInputStream
      → Option (SubscribeBluetoothLeAdvertisementsRequest rt × rt.CodedInputStream)
  merge_field tag m is =
      if tag == 8
      then assign rt (λ x. record m { flags = x }) (rt.read_uint32 is)
      else assign rt (λ u. record m { special_fields = u })
          (rt.read_unknown_or_skip_group tag m.special_fields is)

  pub merge_field-Advances :
      (tag : ℕ) (m : SubscribeBluetoothLeAdvertisementsRequest rt) (is : rt.CodedInputStream)
      → Advances rt is (merge_field tag m is)
  unfolding merge_field
  merge_field-Advances tag m is =
      arm-Advances rt (tag == 8) _ is (rt.read_uint32 is) _ (λ a is' e. rt.uint32_advances is e)
        (assign-Advances rt (λ u. record m { special_fields = u }) is
          (rt.read_unknown_or_skip_group tag m.special_fields is)
          (advancing rt is (rt.read_unknown_or_skip_group tag m.special_fields is)
            (λ u is' e. rt.unknown_advances tag m.special_fields is e)))

  unfoldable pub merge_from :
      SubscribeBluetoothLeAdvertisementsRequest rt
      → rt.CodedInputStream
      → Option (SubscribeBluetoothLeAdvertisementsRequest rt)
  unfolding merge_field Merge.merge_from
  merge_from m is = Merge.merge_from rt merge_field m is

  unfoldable pub parse : Bytes → Merged (SubscribeBluetoothLeAdvertisementsRequest rt)
  unfolding merge_field new parse_from_bytes
  parse bytes = parse_from_bytes rt merge_field new bytes

  -- The request is read from any bytes in as many rounds as they are given: one more than the
  -- bytes.
  pub parse-ne-stuck : (bytes : Bytes) → parse bytes ≢ stuck
  unfolding parse
  parse-ne-stuck bytes = parse_from_bytes-ne-stuck rt merge_field merge_field-Advances new bytes
