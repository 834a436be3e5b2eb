-- ===== src/Api/BluetoothConnectionsFreeResponse.antt =====
-- src/api/api.rs: `BluetoothConnectionsFreeResponse`, as generated for proto/api.proto.
pub mod RoundTrip
use linux_bt_proxy.Prelude.{
  ℕ, ◌≡◌, ◌≢◌, Option, List, [], ◌∷◌, ◌++◌, Bytes, length, length-append, ◌==◌, if◌then◌else◌,
}
use linux_bt_proxy.Api.Runtime.{Protobuf, when, emit, nonzero, sum, concat}
use linux_bt_proxy.Api.Runtime.Sizes.{length-emit}
use linux_bt_proxy.Api.Runtime.Merge
use linux_bt_proxy.Api.Runtime.Merge.{
  Merged, stuck, assign, Advances, advancing, assign-Advances, arm-Advances, parse_from_bytes,
  parse_from_bytes-ne-stuck,
}

pub record BluetoothConnectionsFreeResponse (rt : Protobuf) : Type 0 where
  pub free : ℕ
  pub limit : ℕ
  pub allocated : List ℕ
  pub special_fields : rt.UnknownFields

module _ (rt : Protobuf) where
  unfoldable pub new : BluetoothConnectionsFreeResponse rt
  new = record { free = 0; limit = 0; allocated = []; special_fields = rt.no_unknown }

  unfoldable pub compute_size : BluetoothConnectionsFreeResponse rt → ℕ
  compute_size m = sum (
      when (nonzero m.free) (rt.uint32_size 1 m.free)
      ∷ when (nonzero m.limit) (rt.uint32_size 2 m.limit)
      ∷ rt.vec_packed_uint64_size 3 m.allocated
      ∷ rt.unknown_fields_size m.special_fields
      ∷ [])

  -- `write_to_with_cached_sizes`
  unfoldable pub write_to : BluetoothConnectionsFreeResponse rt → Bytes
  write_to m = concat (
      emit (nonzero m.free) (rt.write_uint32 1 m.free)
      ∷ emit (nonzero m.limit) (rt.write_uint32 2 m.limit)
      ∷ rt.write_repeated_packed_uint64 3 m.allocated
      ∷ rt.write_unknown_fields m.special_fields
      ∷ [])

  -- What is written has the size computed.
  pub length-write_to :
      (m : BluetoothConnectionsFreeResponse rt) → length (write_to m) ≡ compute_size m
  unfolding write_to compute_size
  length-write_to m =
      simp (length-append, length-emit, rt.length-unknown, rt.length-uint32, rt.length-packed64)

  -- One round of `merge_from`: the arms of its `match tag`.
  unfoldable pub merge_field :
      ℕ
      → BluetoothConnectionsFreeResponse rt
      → rt.CodedInputStream
      → Option (BluetoothConnectionsFreeResponse rt × rt.CodedInputStream)
  merge_field tag m is =
      if tag == 8
      then assign rt (λ x. record m { free = x }) (rt.read_uint32 is)
      else if tag == 16
      then assign rt (λ x. record m { limit = x }) (rt.read_uint32 is)
      else if tag == 26
      then assign rt (λ xs. record m { allocated = m.allocated ++ xs }) (rt.read_packed_uint64 is)
      else if tag == 24
      then assign rt (λ x. record m { allocated = m.allocated ++ x ∷ [] }) (rt.read_uint64 is)
      else assign rt (λ u. record m { special_fields = u })
          (rt.read_unknown_or_skip_group tag m.special_fields is)

  pub merge_field-Advances :
      (tag : ℕ) (m : BluetoothConnectionsFreeResponse rt) (is : rt.CodedInputStream)
      → Advances rt is (merge_field tag m is)
  unfolding merge_field
  merge_field-Advances tag m is =
      arm-Advances rt (tag == 8) _ is (rt.read_uint32 is) _ (λ a is' e. rt.uint32_advances is e)
        (arm-Advances rt (tag == 16) _ is (rt.read_uint32 is) _ (λ a is' e. rt.uint32_advances is e)
          (arm-Advances rt (tag == 26) _ is (rt.read_packed_uint64 is) _
            (λ a is' e. rt.packed_uint64_advances is e)
            (arm-Advances rt (tag == 24) _ is (rt.read_uint64 is) _
              (λ a is' e. rt.uint64_advances is e)
              (assign-Advances rt (λ u. record m { special_fields = u }) is
                (rt.read_unknown_or_skip_group tag m.special_fields is)
                (advancing rt is (rt.read_unknown_or_skip_group tag m.special_fields is)
                  (λ u is' e. rt.unknown_advances tag m.special_fields is e))))))

  unfoldable pub merge_from :
      BluetoothConnectionsFreeResponse rt
      → rt.CodedInputStream
      → Option (BluetoothConnectionsFreeResponse rt)
  unfolding merge_field Merge.merge_from
  merge_from m is = Merge.merge_from rt merge_field m is

  unfoldable pub parse : Bytes → Merged (BluetoothConnectionsFreeResponse rt)
  unfolding merge_field new parse_from_bytes
  parse bytes = parse_from_bytes rt merge_field new bytes

  pub parse-ne-stuck : (bytes : Bytes) → parse bytes ≢ stuck
  unfolding parse
  parse-ne-stuck bytes = parse_from_bytes-ne-stuck rt merge_field merge_field-Advances new bytes
