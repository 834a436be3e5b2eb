-- ===== src/Api/AreaInfo.antt =====
-- src/api/api.rs: `AreaInfo`, as generated for proto/api.proto.
pub mod RoundTrip
use linux_bt_proxy.Prelude.{
  ℕ, ◌≡◌, ◌≢◌, Option, [], ◌∷◌, Bytes, length, length-append, ◌==◌, if◌then◌else◌,
}
use linux_bt_proxy.Api.Runtime.{Protobuf, when, emit, nonempty, nonzero, sum, concat}
use linux_bt_proxy.Api.Runtime.Sizes.{length-emit}
use linux_bt_proxy.Api.Runtime.Merge
use linux_bt_proxy.Api.Runtime.Merge.{
  Merged, stuck, assign, Advances, advancing, assign-Advances, arm-Advances, parse_from_bytes,
  parse_from_bytes-ne-stuck,
}

pub record AreaInfo (rt : Protobuf) : Type 0 where
  pub area_id : ℕ
  pub name : Bytes
  pub special_fields : rt.UnknownFields

module _ (rt : Protobuf) where
  unfoldable pub new : AreaInfo rt
  new = record { area_id = 0; name = []; special_fields = rt.no_unknown }

  unfoldable pub compute_size : AreaInfo rt → ℕ
  compute_size m = sum (
      when (nonzero m.area_id) (rt.uint32_size 1 m.area_id)
      ∷ when (nonempty m.name) (rt.string_size 2 m.name)
      ∷ rt.unknown_fields_size m.special_fields
      ∷ [])

  -- `write_to_with_cached_sizes`
  unfoldable pub write_to : AreaInfo rt → Bytes
  write_to m = concat (
      emit (nonzero m.area_id) (rt.write_uint32 1 m.area_id)
      ∷ emit (nonempty m.name) (rt.write_string 2 m.name)
      ∷ rt.write_unknown_fields m.special_fields
      ∷ [])

  -- What is written has the size computed.
  pub length-write_to : (m : AreaInfo rt) → length (write_to m) ≡ compute_size m
  unfolding write_to compute_size
  length-write_to m =
      simp (length-append, length-emit, rt.length-unknown, rt.length-uint32, rt.length-string)

  -- One round of `merge_from`: the arms of its `match tag`.
  unfoldable pub merge_field :
      ℕ → AreaInfo rt → rt.CodedInputStream → Option (AreaInfo rt × rt.CodedInputStream)
  merge_field tag m is =
      if tag == 8
      then assign rt (λ x. record m { area_id = x }) (rt.read_uint32 is)
      else if tag == 18
      then assign rt (λ x. record m { name = x }) (rt.read_string is)
      else assign rt (λ u. record m { special_fields = u })
          (rt.read_unknown_or_skip_group tag m.special_fields is)

  pub merge_field-Advances :
      (tag : ℕ) (m : AreaInfo rt) (is : rt.CodedInputStream) → Advances rt is (merge_field tag m is)
  unfolding merge_field
  merge_field-Advances tag m is =
      arm-Advances rt (tag == 8) _ is (rt.read_uint32 is) _ (λ a is' e. rt.uint32_advances is e)
        (arm-Advances rt (tag == 18) _ is (rt.read_string is) _ (λ a is' e. rt.string_advances is e)
          (assign-Advances rt (λ u. record m { special_fields = u }) is
            (rt.read_unknown_or_skip_group tag m.special_fields is)
            (advancing rt is (rt.read_unknown_or_skip_group tag m.special_fields is)
              (λ u is' e. rt.unknown_advances tag m.special_fields is e))))

  unfoldable pub merge_from : AreaInfo rt → rt.CodedInputStream → Option (AreaInfo rt)
  unfolding merge_field Merge.merge_from
  merge_from m is = Merge.merge_from rt merge_field m is

  unfoldable pub parse : Bytes → Merged (AreaInfo rt)
  unfolding merge_field new parse_from_bytes
  parse bytes = parse_from_bytes rt merge_field new bytes

  pub parse-ne-stuck : (bytes : Bytes) → parse bytes ≢ stuck
  unfolding parse
  parse-ne-stuck bytes = parse_from_bytes-ne-stuck rt merge_field merge_field-Advances new bytes
