-- ===== src/Api/DeviceInfoResponse.antt =====
-- src/api/api.rs: `DeviceInfoResponse`, as generated for proto/api.proto.
pub mod Stages
pub mod RoundTrip
pub mod Reading
use linux_bt_proxy.Api.DeviceInfo
use linux_bt_proxy.Api.DeviceInfo.{DeviceInfo}
use linux_bt_proxy.Api.AreaInfo
use linux_bt_proxy.Api.AreaInfo.{AreaInfo}
use linux_bt_proxy.Prelude.{
  ℕ, ◌+◌, ◌^◌, ◌<◌, ◌≡◌, ◌≢◌, Bool, false, Option, none, List, [], ◌∷◌, ◌++◌, Bytes, length,
  length-append, All, ◌==◌, if◌then◌else◌, arith,
}
use linux_bt_proxy.Api.Runtime.{
  Protobuf, when, emit, nonempty, nonzero, total, emit_all, of_option, far_size, message_field, sum,
  concat,
}
use linux_bt_proxy.Api.Runtime.Sizes.{length-emit, length-far}
use linux_bt_proxy.Api.Runtime.Merge
use linux_bt_proxy.Api.Runtime.Merge.{
  Merged, stuck, assign, Advances, advancing, assign-Advances, arm-Advances, parse_from_bytes,
  parse_from_bytes-ne-stuck,
}

pub record DeviceInfoResponse (rt : Protobuf) : Type 0 where
  pub uses_password : Bool
  pub name : Bytes
  pub mac_address : Bytes
  pub esphome_version : Bytes
  pub compilation_time : Bytes
  pub model : Bytes
  pub has_deep_sleep : Bool
  pub project_name : Bytes
  pub project_version : Bytes
  pub webserver_port : ℕ
  pub legacy_bluetooth_proxy_version : ℕ
  pub bluetooth_proxy_feature_flags : ℕ
  pub manufacturer : Bytes
  pub friendly_name : Bytes
  pub legacy_voice_assistant_version : ℕ
  pub voice_assistant_feature_flags : ℕ
  pub suggested_area : Bytes
  pub bluetooth_mac_address : Bytes
  pub api_encryption_supported : Bool
  pub devices : List (DeviceInfo rt)
  pub areas : List (AreaInfo rt)
  pub area : Option (AreaInfo rt)
  pub special_fields : rt.UnknownFields

module _ (rt : Protobuf) where
  unfoldable pub new : DeviceInfoResponse rt
  new = record {
    uses_password = false;
    name = [];
    mac_address = [];
    esphome_version = [];
    compilation_time = [];
    model = [];
    has_deep_sleep = false;
    project_name = [];
    project_version = [];
    webserver_port = 0;
    legacy_bluetooth_proxy_version = 0;
    bluetooth_proxy_feature_flags = 0;
    manufacturer = [];
    friendly_name = [];
    legacy_voice_assistant_version = 0;
    voice_assistant_feature_flags = 0;
    suggested_area = [];
    bluetooth_mac_address = [];
    api_encryption_supported = false;
    devices = [];
    areas = [];
    area = none;
    special_fields = rt.no_unknown;
  }

  unfoldable pub compute_size : DeviceInfoResponse rt → ℕ
  compute_size m = sum (
      when m.uses_password (1 + 1)
      ∷ when (nonempty m.name) (rt.string_size 2 m.name)
      ∷ when (nonempty m.mac_address) (rt.string_size 3 m.mac_address)
      ∷ when (nonempty m.esphome_version) (rt.string_size 4 m.esphome_version)
      ∷ when (nonempty m.compilation_time) (rt.string_size 5 m.compilation_time)
      ∷ when (nonempty m.model) (rt.string_size 6 m.model)
      ∷ when m.has_deep_sleep (1 + 1)
      ∷ when (nonempty m.project_name) (rt.string_size 8 m.project_name)
      ∷ when (nonempty m.project_version) (rt.string_size 9 m.project_version)
      ∷ when (nonzero m.webserver_port) (rt.uint32_size 10 m.webserver_port)
      ∷ when (nonzero m.legacy_bluetooth_proxy_version)
          (rt.uint32_size 11 m.legacy_bluetooth_proxy_version)
      ∷ when (nonzero m.bluetooth_proxy_feature_flags)
          (rt.uint32_size 15 m.bluetooth_proxy_feature_flags)
      ∷ when (nonempty m.manufacturer) (rt.string_size 12 m.manufacturer)
      ∷ when (nonempty m.friendly_name) (rt.string_size 13 m.friendly_name)
      ∷ when (nonzero m.legacy_voice_assistant_version)
          (rt.uint32_size 14 m.legacy_voice_assistant_version)
      ∷ when (nonzero m.voice_assistant_feature_flags)
          (rt.uint32_size 17 m.voice_assistant_feature_flags)
      ∷ when (nonempty m.suggested_area) (rt.string_size 16 m.suggested_area)
      ∷ when (nonempty m.bluetooth_mac_address) (rt.string_size 18 m.bluetooth_mac_address)
      ∷ when m.api_encryption_supported (2 + 1)
      ∷ total (far_size rt (DeviceInfo.compute_size rt)) m.devices
      ∷ total (far_size rt (AreaInfo.compute_size rt)) m.areas
      ∷ total (far_size rt (AreaInfo.compute_size rt)) (of_option m.area)
      ∷ rt.unknown_fields_size m.special_fields
      ∷ [])

  -- `write_to_with_cached_sizes`
  unfoldable pub write_to : DeviceInfoResponse rt → Bytes
  write_to m = concat (
      emit m.uses_password (rt.write_bool 1 m.uses_password)
      ∷ emit (nonempty m.name) (rt.write_string 2 m.name)
      ∷ emit (nonempty m.mac_address) (rt.write_string 3 m.mac_address)
      ∷ emit (nonempty m.esphome_version) (rt.write_string 4 m.esphome_version)
      ∷ emit (nonempty m.compilation_time) (rt.write_string 5 m.compilation_time)
      ∷ emit (nonempty m.model) (rt.write_string 6 m.model)
      ∷ emit m.has_deep_sleep (rt.write_bool 7 m.has_deep_sleep)
      ∷ emit (nonempty m.project_name) (rt.write_string 8 m.project_name)
      ∷ emit (nonempty m.project_version) (rt.write_string 9 m.project_version)
      ∷ emit (nonzero m.webserver_port) (rt.write_uint32 10 m.webserver_port)
      ∷ emit (nonzero m.legacy_bluetooth_proxy_version)
          (rt.write_uint32 11 m.legacy_bluetooth_proxy_version)
      ∷ emit (nonzero m.bluetooth_proxy_feature_flags)
          (rt.write_uint32 15 m.bluetooth_proxy_feature_flags)
      ∷ emit (nonempty m.manufacturer) (rt.write_string 12 m.manufacturer)
      ∷ emit (nonempty m.friendly_name) (rt.write_string 13 m.friendly_name)
      ∷ emit (nonzero m.legacy_voice_assistant_version)
          (rt.write_uint32 14 m.legacy_voice_assistant_version)
      ∷ emit (nonzero m.voice_assistant_feature_flags)
          (rt.write_uint32 17 m.voice_assistant_feature_flags)
      ∷ emit (nonempty m.suggested_area) (rt.write_string 16 m.suggested_area)
      ∷ emit (nonempty m.bluetooth_mac_address) (rt.write_string 18 m.bluetooth_mac_address)
      ∷ emit m.api_encryption_supported (rt.write_bool 19 m.api_encryption_supported)
      ∷ emit_all (message_field rt 20 (DeviceInfo.compute_size rt) (DeviceInfo.write_to rt))
          m.devices
      ∷ emit_all (message_field rt 21 (AreaInfo.compute_size rt) (AreaInfo.write_to rt)) m.areas
      ∷ emit_all (message_field rt 22 (AreaInfo.compute_size rt) (AreaInfo.write_to rt))
          (of_option m.area)
      ∷ rt.write_unknown_fields m.special_fields
      ∷ [])

  -- The sizes of the messages inside, which are cached as `u32`s, do not wrap.
  abbrev pub Fits : DeviceInfoResponse rt → Type 0
  Fits m =
      All (λ v. DeviceInfo.compute_size rt v < 2 ^ 32) m.devices
      × All (λ v. AreaInfo.compute_size rt v < 2 ^ 32) m.areas
      × All (λ v. AreaInfo.compute_size rt v < 2 ^ 32) (of_option m.area)

  -- What is written has the size computed, if no size inside wraps.
  pub length-write_to : (m : DeviceInfoResponse rt) → Fits m → length (write_to m) ≡ compute_size m
  unfolding write_to compute_size
  length-write_to m fits = simp (
    length-append,
    length-emit,
    rt.length-unknown,
    rt.length-bool_near 1 m.uses_password (omega arith),
    rt.length-string,
    rt.length-bool_near 7 m.has_deep_sleep (omega arith),
    rt.length-uint32,
    rt.length-bool_far 19 m.api_encryption_supported (omega arith) (omega arith),
    length-far rt 20 (DeviceInfo.compute_size rt) (DeviceInfo.write_to rt) (omega arith)
        (omega arith) m.devices (DeviceInfo.length-write_to rt) fits.0,
    length-far rt 21 (AreaInfo.compute_size rt) (AreaInfo.write_to rt) (omega arith) (omega arith)
        m.areas (AreaInfo.length-write_to rt) fits.1,
    length-far rt 22 (AreaInfo.compute_size rt) (AreaInfo.write_to rt) (omega arith) (omega arith)
        (of_option m.area) (AreaInfo.length-write_to rt) fits.2,
  )
