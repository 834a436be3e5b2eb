-- ===== src/Api/ConnectResponse.antt =====
-- src/api/api.rs: `ConnectResponse`, as generated for proto/api.proto.
pub mod RoundTrip
use linux_bt_proxy.Prelude.{
  ℕ, ◌+◌, ◌≡◌, ◌≢◌, Bool, false, Option, [], ◌∷◌, Bytes, length, length-append, ◌==◌, if◌then◌else◌,
  arith,
}
use linux_bt_proxy.Api.Runtime.{Protobuf, when, emit, sum, concat}
use linux_bt_proxy.Api.Runtime.Sizes.{length-emit}
use linux_bt_proxy.Api.Runtime.Merge
use linux_bt_proxy.Api.Runtime.Merge.{
  Merged, stuck, assign, Advances, advancing, assign-Advances, arm-Advances, parse_from_bytes,
  parse_from_bytes-ne-stuck,
}

pub record ConnectResponse (rt : Protobuf) : Type 0 where
  pub invalid_password : Bool
  pub special_fields : rt.UnknownFields

module _ (rt : Protobuf) where
  unfoldable pub new : ConnectResponse rt
  new = record { invalid_password = false; special_fields = rt.no_unknown }

  unfoldable pub compute_size : ConnectResponse rt → ℕ
  compute_size m =
      sum (when m.invalid_password (1 + 1) ∷ rt.unknown_fields_size m.special_fields ∷ [])

  -- `write_to_with_cached_sizes`
  unfoldable pub write_to : ConnectResponse rt → Bytes
  write_to m = concat (
      emit m.invalid_password (rt.write_bool 1 m.invalid_password)
      ∷ rt.write_unknown_fields m.special_fields
      ∷ [])

  -- What is written has the size computed.
  pub length-write_to : (m : ConnectResponse rt) → length (write_to m) ≡ compute_size m
  unfolding write_to compute_size
  length-write_to m = simp (
    length-append,
    length-emit,
    rt.length-unknown,
    rt.length-bool_near 1 m.invalid_password (omega arith),
  )

  -- One round of `merge_from`: the arms of its `match tag`.
  unfoldable pub merge_field :
      ℕ
      → ConnectResponse rt
      → rt.CodedInputStream
      → Option (ConnectResponse rt × rt.CodedInputStream)
  merge_field tag m is =
      if tag == 8
      then assign rt (λ x. record m { invalid_password = x }) (rt.read_bool is)
      else assign rt (λ u. record m { special_fields = u })
          (rt.read_unknown_or_skip_group tag m.special_fields is)

  pub merge_field-Advances :
      (tag : ℕ) (m : ConnectResponse rt) (is : rt.CodedInputStream)
      → Advances rt is (merge_field tag m is)
  unfolding merge_field
  merge_field-Advances tag m is =
      arm-Advances rt (tag == 8) _ is (rt.read_bool is) _ (λ a is' e. rt.bool_advances is e)
        (assign-Advances rt (λ u. record m { special_fields = u }) is
          (rt.read_unknown_or_skip_group tag m.special_fields is)
          (advancing rt is (rt.read_unknown_or_skip_group tag m.special_fields is)
            (λ u is' e. rt.unknown_advances tag m.special_fields is e)))

  unfoldable pub merge_from : ConnectResponse rt → rt.CodedInputStream → Option (ConnectResponse rt)
  unfolding merge_field Merge.merge_from
  merge_from m is = Merge.merge_from rt merge_field m is

  unfoldable pub parse : Bytes → Merged (ConnectResponse rt)
  unfolding merge_field new parse_from_bytes
  parse bytes = parse_from_bytes rt merge_field new bytes

  pub parse-ne-stuck : (bytes : Bytes) → parse bytes ≢ stuck
  unfolding parse
  parse-ne-stuck bytes = parse_from_bytes-ne-stuck rt merge_field merge_field-Advances new bytes
