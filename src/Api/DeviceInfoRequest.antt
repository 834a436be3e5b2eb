-- ===== src/Api/DeviceInfoRequest.antt =====
-- src/api/api.rs: `DeviceInfoRequest`, as generated for proto/api.proto.
pub mod RoundTrip
use linux_bt_proxy.Prelude.{ℕ, ◌≡◌, ◌≢◌, Option, [], ◌∷◌, Bytes, length, length-append}
use linux_bt_proxy.Api.Runtime.{Protobuf, sum, concat}
use linux_bt_proxy.Api.Runtime.Merge
use linux_bt_proxy.Api.Runtime.Merge.{
  Merged, stuck, assign, Advances, advancing, assign-Advances, arm-Advances, parse_from_bytes,
  parse_from_bytes-ne-stuck,
}

pub record DeviceInfoRequest (rt : Protobuf) : Type 0 where
  pub special_fields : rt.UnknownFields

module _ (rt : Protobuf) where
  unfoldable pub new : DeviceInfoRequest rt
  new = record { special_fields = rt.no_unknown }

  unfoldable pub compute_size : DeviceInfoRequest rt → ℕ
  compute_size m = sum (rt.unknown_fields_size m.special_fields ∷ [])

  -- `write_to_with_cached_sizes`
  unfoldable pub write_to : DeviceInfoRequest rt → Bytes
  write_to m = concat (rt.write_unknown_fields m.special_fields ∷ [])

  -- What is written has the size computed.
  pub length-write_to : (m : DeviceInfoRequest rt) → length (write_to m) ≡ compute_size m
  unfolding write_to compute_size
  length-write_to m = simp (length-append, rt.length-unknown)

  -- One round of `merge_from`: the arms of its `match tag`.
  unfoldable pub merge_field :
      ℕ
      → DeviceInfoRequest rt
      → rt.CodedInputStream
      → Option (DeviceInfoRequest rt × rt.CodedInputStream)
  merge_field tag m is =
      assign rt (λ u. record m { special_fields = u })
        (rt.read_unknown_or_skip_group tag m.special_fields is)

  pub merge_field-Advances :
      (tag : ℕ) (m : DeviceInfoRequest rt) (is : rt.CodedInputStream)
      → Advances rt is (merge_field tag m is)
  unfolding merge_field
  merge_field-Advances tag m is =
      assign-Advances rt (λ u. record m { special_fields = u }) is
        (rt.read_unknown_or_skip_group tag m.special_fields is)
        (advancing rt is (rt.read_unknown_or_skip_group tag m.special_fields is)
          (λ u is' e. rt.unknown_advances tag m.special_fields is e))

  unfoldable pub merge_from :
      DeviceInfoRequest rt → rt.CodedInputStream → Option (DeviceInfoRequest rt)
  unfolding merge_field Merge.merge_from
  merge_from m is = Merge.merge_from rt merge_field m is

  unfoldable pub parse : Bytes → Merged (DeviceInfoRequest rt)
  unfolding merge_field new parse_from_bytes
  parse bytes = parse_from_bytes rt merge_field new bytes

  pub parse-ne-stuck : (bytes : Bytes) → parse bytes ≢ stuck
  unfolding parse
  parse-ne-stuck bytes = parse_from_bytes-ne-stuck rt merge_field merge_field-Advances new bytes
