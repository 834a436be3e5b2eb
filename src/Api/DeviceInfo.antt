-- ===== src/Api/DeviceInfo.antt =====
-- src/api/api.rs: `DeviceInfo`, as generated for proto/api.proto.
pub mod RoundTrip
use linux_bt_proxy.Prelude.{
  ℕ, ◌≡◌, ◌≢◌, Option, [], ◌∷◌, Bytes, length, length-append, ◌==◌, if◌then◌else◌,
}
use linux_bt_proxy.Api.Runtime.{Protobuf, when, emit, nonempty, nonzero, sum, concat}
use linux_bt_proxy.Api.Runtime.Sizes.{length-emit}
use linux_bt_proxy.Api.Runtime.Merge
use linux_bt_proxy.Api.Runtime.Merge.{
  Merged, stuck, assign, Advances, advancing, assign-Advances, arm-Advances, parse_from_bytes,
  parse_from_bytes-ne-stuck,
}

pub record DeviceInfo (rt : Protobuf) : Type 0 where
  pub device_id : ℕ
  pub name : Bytes
  pub area_id : ℕ
  pub special_fields : rt.UnknownFields

module _ (rt : Protobuf) where
  unfoldable pub new : DeviceInfo rt
  new = record { device_id = 0; name = []; area_id = 0; special_fields = rt.no_unknown }

  unfoldable pub compute_size : DeviceInfo rt → ℕ
  compute_size m = sum (
      when (nonzero m.device_id) (rt.uint32_size 1 m.device_id)
      ∷ when (nonempty m.name) (rt.string_size 2 m.name)
      ∷ when (nonzero m.area_id) (rt.uint32_size 3 m.area_id)
      ∷ rt.unknown_fields_size m.special_fields
      ∷ [])

  -- `write_to_with_cached_sizes`
  unfoldable pub write_to : DeviceInfo rt → Bytes
  write_to m = concat (
      emit (nonzero m.device_id) (rt.write_uint32 1 m.device_id)
      ∷ emit (nonempty m.name) (rt.write_string 2 m.name)
      ∷ emit (nonzero m.area_id) (rt.write_uint32 3 m.area_id)
      ∷ rt.write_unknown_fields m.special_fields
      ∷ [])

  -- What is written has the size computed.
  pub length-write_to : (m : DeviceInfo rt) → length (write_to m) ≡ compute_size m
  unfolding write_to compute_size
  length-write_to m =
      simp (length-append, length-emit, rt.length-unknown, rt.length-uint32, rt.length-string)

  -- One round of `merge_from`: the arms of its `match tag`.
  unfoldable pub merge_field :
      ℕ → DeviceInfo rt → rt.CodedInputStream → Option (DeviceInfo rt × rt.CodedInputStream)
  merge_field tag m is =
      if tag == 8
      then assign rt (λ x. record m { device_id = x }) (rt.read_uint32 is)
      else if tag == 18
      then assign rt (λ x. record m { name = x }) (rt.read_string is)
      else if tag == 24
      then assign rt (λ x. record m { area_id = x }) (rt.read_uint32 is)
      else assign rt (λ u. record m { special_fields = u })
          (rt.read_unknown_or_skip_group tag m.special_fields is)

  pub merge_field-Advances :
      (tag : ℕ) (m : DeviceInfo rt) (is : rt.CodedInputStream)
      → Advances rt is (merge_field tag m is)
  unfolding merge_field
  merge_field-Advances tag m is =
      arm-Advances rt (tag == 8) _ is (rt.read_uint32 is) _ (λ a is' e. rt.uint32_advances is e)
        (arm-Advances rt (tag == 18) _ is (rt.read_string is) _ (λ a is' e. rt.string_advances is e)
          (arm-Advances rt (tag == 24) _ is (rt.read_uint32 is) _
            (λ a is' e. rt.uint32_advances is e)
            (assign-Advances rt (λ u. record m { special_fields = u }) is
              (rt.read_unknown_or_skip_group tag m.special_fields is)
              (advancing rt is (rt.read_unknown_or_skip_group tag m.special_fields is)
                (λ u is' e. rt.unknown_advances tag m.special_fields is e)))))

  unfoldable pub merge_from : DeviceInfo rt → rt.CodedInputStream → Option (DeviceInfo rt)
  unfolding merge_field Merge.merge_from
  merge_from m is = Merge.merge_from rt merge_field m is

  unfoldable pub parse : Bytes → Merged (DeviceInfo rt)
  unfolding merge_field new parse_from_bytes
  parse bytes = parse_from_bytes rt merge_field new bytes

  pub parse-ne-stuck : (bytes : Bytes) → parse bytes ≢ stuck
  unfolding parse
  parse-ne-stuck bytes = parse_from_bytes-ne-stuck rt merge_field merge_field-Advances new bytes
