-- ===== src/Api/HelloRequest.antt =====
-- src/api/api.rs: `HelloRequest`, as generated for proto/api.proto.
pub mod RoundTrip
use linux_bt_proxy.Prelude.{
  ℕ, ◌≡◌, ◌≢◌, Option, [], ◌∷◌, Bytes, length, length-append, ◌==◌, if◌then◌else◌,
}
use linux_bt_proxy.Api.Runtime.{Protobuf, when, emit, nonempty, nonzero, sum, concat}
use linux_bt_proxy.Api.Runtime.Sizes.{length-emit}
use linux_bt_proxy.Api.Runtime.Merge
use linux_bt_proxy.Api.Runtime.Merge.{
  Merged, stuck, assign, Advances, advancing, assign-Advances, arm-Advances, parse_from_bytes,
  parse_from_bytes-ne-stuck,
}

pub record HelloRequest (rt : Protobuf) : Type 0 where
  pub client_info : Bytes
  pub api_version_major : ℕ
  pub api_version_minor : ℕ
  pub special_fields : rt.UnknownFields

module _ (rt : Protobuf) where
  unfoldable pub new : HelloRequest rt
  new = record {
    client_info = [];
    api_version_major = 0;
    api_version_minor = 0;
    special_fields = rt.no_unknown;
  }

  unfoldable pub compute_size : HelloRequest rt → ℕ
  compute_size m = sum (
      when (nonempty m.client_info) (rt.string_size 1 m.client_info)
      ∷ when (nonzero m.api_version_major) (rt.uint32_size 2 m.api_version_major)
      ∷ when (nonzero m.api_version_minor) (rt.uint32_size 3 m.api_version_minor)
      ∷ rt.unknown_fields_size m.special_fields
      ∷ [])

  -- `write_to_with_cached_sizes`
  unfoldable pub write_to : HelloRequest rt → Bytes
  write_to m = concat (
      emit (nonempty m.client_info) (rt.write_string 1 m.client_info)
      ∷ emit (nonzero m.api_version_major) (rt.write_uint32 2 m.api_version_major)
      ∷ emit (nonzero m.api_version_minor) (rt.write_uint32 3 m.api_version_minor)
      ∷ rt.write_unknown_fields m.special_fields
      ∷ [])

  -- What is written has the size computed.
  pub length-write_to : (m : HelloRequest rt) → length (write_to m) ≡ compute_size m
  unfolding write_to compute_size
  length-write_to m =
      simp (length-append, length-emit, rt.length-unknown, rt.length-string, rt.length-uint32)

  -- One round of `merge_from`: the arms of its `match tag`.
  unfoldable pub merge_field :
      ℕ → HelloRequest rt → rt.CodedInputStream → Option (HelloRequest rt × rt.CodedInputStream)
  merge_field tag m is =
      if tag == 10
      then assign rt (λ x. record m { client_info = x }) (rt.read_string is)
      else if tag == 16
      then assign rt (λ x. record m { api_version_major = x }) (rt.read_uint32 is)
      else if tag == 24
      then assign rt (λ x. record m { api_version_minor = x }) (rt.read_uint32 is)
      else assign rt (λ u. record m { special_fields = u })
          (rt.read_unknown_or_skip_group tag m.special_fields is)

  pub merge_field-Advances :
      (tag : ℕ) (m : HelloRequest rt) (is : rt.CodedInputStream)
      → Advances rt is (merge_field tag m is)
  unfolding merge_field
  merge_field-Advances tag m is =
      arm-Advances rt (tag == 10) _ is (rt.read_string is) _ (λ a is' e. rt.string_advances is e)
        (arm-Advances rt (tag == 16) _ is (rt.read_uint32 is) _ (λ a is' e. rt.uint32_advances is e)
          (arm-Advances rt (tag == 24) _ is (rt.read_uint32 is) _
            (λ a is' e. rt.uint32_advances is e)
            (assign-Advances rt (λ u. record m { special_fields = u }) is
              (rt.read_unknown_or_skip_group tag m.special_fields is)
              (advancing rt is (rt.read_unknown_or_skip_group tag m.special_fields is)
                (λ u is' e. rt.unknown_advances tag m.special_fields is e)))))

  unfoldable pub merge_from : HelloRequest rt → rt.CodedInputStream → Option (HelloRequest rt)
  unfolding merge_field Merge.merge_from
  merge_from m is = Merge.merge_from rt merge_field m is

  unfoldable pub parse : Bytes → Merged (HelloRequest rt)
  unfolding merge_field new parse_from_bytes
  parse bytes = parse_from_bytes rt merge_field new bytes

  pub parse-ne-stuck : (bytes : Bytes) → parse bytes ≢ stuck
  unfolding parse
  parse-ne-stuck bytes = parse_from_bytes-ne-stuck rt merge_field merge_field-Advances new bytes
