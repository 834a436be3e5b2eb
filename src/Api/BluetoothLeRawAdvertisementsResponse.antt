-- ===== src/Api/BluetoothLeRawAdvertisementsResponse.antt =====
-- src/api/api.rs: `BluetoothLERawAdvertisementsResponse`, as generated for proto/api.proto.
pub mod RoundTrip
use linux_bt_proxy.Api.BluetoothLeRawAdvertisement
use linux_bt_proxy.Api.BluetoothLeRawAdvertisement.{BluetoothLeRawAdvertisement}
use linux_bt_proxy.Prelude.{
  ℕ, ◌+◌, ◌%◌, ◌^◌, ◌≤◌, ◌<◌, ◌≡◌, ◌≢◌, refl, Bool, true, false, Option, none, some, List, [], ◌∷◌,
  ◌++◌, Bytes, length, length-append, All, ◌==◌, if◌then◌else◌, arith, Bool-cases, inl, inr,
}
use linux_bt_proxy.Prelude.Int.{ℤ, pos}
use linux_bt_proxy.Api.Runtime.{
  Protobuf, when, emit, nonempty, nonzero, nonzero_ℤ, total, emit_all, of_option, near_size,
  far_size, message_field, sum, concat,
}
use linux_bt_proxy.Api.Runtime.Sizes.{length-emit_all, All-pointwise, length-near, length-far}
use linux_bt_proxy.Api.Runtime.Merge
use linux_bt_proxy.Api.Runtime.Merge.{
  Merged, stuck, assign, Advances, advancing, assign-Advances, arm-Advances, parse_from_bytes,
  parse_from_bytes-ne-stuck,
}

pub record BluetoothLeRawAdvertisementsResponse (rt : Protobuf) : Type 0 where
  pub advertisements : List (BluetoothLeRawAdvertisement rt)
  pub special_fields : rt.UnknownFields

module _ (rt : Protobuf) where
  unfoldable pub new : BluetoothLeRawAdvertisementsResponse rt
  new = record { advertisements = []; special_fields = rt.no_unknown }

  unfoldable pub compute_size : BluetoothLeRawAdvertisementsResponse rt → ℕ
  compute_size m = sum (
      total (near_size rt (BluetoothLeRawAdvertisement.compute_size rt)) m.advertisements
      ∷ rt.unknown_fields_size m.special_fields
      ∷ [])

  -- `write_to_with_cached_sizes`
  unfoldable pub write_to : BluetoothLeRawAdvertisementsResponse rt → Bytes
  write_to m = concat (
      emit_all
        (message_field rt 1 (BluetoothLeRawAdvertisement.compute_size rt)
          (BluetoothLeRawAdvertisement.write_to rt))
        m.advertisements
      ∷ rt.write_unknown_fields m.special_fields
      ∷ [])

  -- The sizes of the messages inside, which are cached as `u32`s, do not wrap.
  abbrev pub Fits : BluetoothLeRawAdvertisementsResponse rt → Type 0
  Fits m = All (λ v. BluetoothLeRawAdvertisement.compute_size rt v < 2 ^ 32) m.advertisements

  -- What is written has the size computed, if no size inside wraps.
  pub length-write_to :
      (m : BluetoothLeRawAdvertisementsResponse rt) → Fits m → length (write_to m) ≡ compute_size m
  unfolding write_to compute_size
  length-write_to m fits = simp (
    length-append,
    rt.length-unknown,
    length-near rt 1 (BluetoothLeRawAdvertisement.compute_size rt)
        (BluetoothLeRawAdvertisement.write_to rt) (omega arith) m.advertisements
        (BluetoothLeRawAdvertisement.length-write_to rt) fits,
  )

  -- One round of `merge_from`: the arms of its `match tag`.
  unfoldable pub merge_field :
      ℕ
      → BluetoothLeRawAdvertisementsResponse rt
      → rt.CodedInputStream
      → Option (BluetoothLeRawAdvertisementsResponse rt × rt.CodedInputStream)
  merge_field tag m is =
      if tag == 10
      then assign rt (λ x. record m { advertisements = m.advertisements ++ x ∷ [] })
          (rt.read_message (BluetoothLeRawAdvertisement.merge_from rt)
            (BluetoothLeRawAdvertisement.new rt) is)
      else assign rt (λ u. record m { special_fields = u })
          (rt.read_unknown_or_skip_group tag m.special_fields is)

  pub merge_field-Advances :
      (tag : ℕ) (m : BluetoothLeRawAdvertisementsResponse rt) (is : rt.CodedInputStream)
      → Advances rt is (merge_field tag m is)
  unfolding merge_field
  merge_field-Advances tag m is =
      arm-Advances rt (tag == 10) _ is
        (rt.read_message (BluetoothLeRawAdvertisement.merge_from rt)
          (BluetoothLeRawAdvertisement.new rt) is)
        _
        (λ a is' e.
          rt.message_advances (BluetoothLeRawAdvertisement.merge_from rt)
            (BluetoothLeRawAdvertisement.new rt) is e)
        (assign-Advances rt (λ u. record m { special_fields = u }) is
          (rt.read_unknown_or_skip_group tag m.special_fields is)
          (advancing rt is (rt.read_unknown_or_skip_group tag m.special_fields is)
            (λ u is' e. rt.unknown_advances tag m.special_fields is e)))

  unfoldable pub merge_from :
      BluetoothLeRawAdvertisementsResponse rt
      → rt.CodedInputStream
      → Option (BluetoothLeRawAdvertisementsResponse rt)
  unfolding merge_field Merge.merge_from
  merge_from m is = Merge.merge_from rt merge_field m is

  unfoldable pub parse : Bytes → Merged (BluetoothLeRawAdvertisementsResponse rt)
  unfolding merge_field new parse_from_bytes
  parse bytes = parse_from_bytes rt merge_field new bytes

  pub parse-ne-stuck : (bytes : Bytes) → parse bytes ≢ stuck
  unfolding parse
  parse-ne-stuck bytes = parse_from_bytes-ne-stuck rt merge_field merge_field-Advances new bytes
