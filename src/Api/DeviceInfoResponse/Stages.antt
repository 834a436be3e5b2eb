-- ===== src/Api/DeviceInfoResponse/Stages.antt =====
-- src/api/api.rs: the fields of a `DeviceInfoResponse` one behind another, and the loop of `merge_from`
-- over the first of them.
use linux_bt_proxy.Prelude.{◌^◌, ◌<◌, ◌≡◌, refl, ◌∙◌, [], ◌++◌, Bytes, All, arith}
use linux_bt_proxy.Api.Runtime.{
  Protobuf, emit, emit_all, message_field, nonempty, nonzero, of_option,
}
use linux_bt_proxy.Api.Runtime.Merge.{Merged, merged, finished, parse_from_bytes}
use linux_bt_proxy.Api.Runtime.Merge
use linux_bt_proxy.Api.Runtime.ReadsBack.{ReadsBack}
use linux_bt_proxy.Api.Runtime.Fields.{IsText, merge-bool, merge-uint32, merge-string}
use linux_bt_proxy.Api.AreaInfo
use linux_bt_proxy.Api.AreaInfo.{AreaInfo}
use linux_bt_proxy.Api.AreaInfo.RoundTrip as Area
use linux_bt_proxy.Api.DeviceInfo
use linux_bt_proxy.Api.DeviceInfo.{DeviceInfo}
use linux_bt_proxy.Api.DeviceInfo.RoundTrip as Device
use linux_bt_proxy.Api.DeviceInfoResponse.{DeviceInfoResponse, new, write_to}
use linux_bt_proxy.Api.DeviceInfoResponse.Reading.{merge_field, merge_field-Advances}

module _ (rt : Protobuf) (back : ReadsBack rt) where
  -- A message inside, with the bytes that it takes.
  abbrev pub IsDeviceInfo : DeviceInfo rt → Type 0
  IsDeviceInfo v = Device.IsTyped rt back v × (DeviceInfo.compute_size rt v < 2 ^ 31)

  abbrev pub IsAreaInfo : AreaInfo rt → Type 0
  IsAreaInfo v = Area.IsTyped rt back v × (AreaInfo.compute_size rt v < 2 ^ 31)

  abbrev pub IsNamed : DeviceInfoResponse rt → Type 0
  IsNamed m =
      IsText back m.name
      × IsText back m.mac_address
      × IsText back m.esphome_version
      × IsText back m.compilation_time
      × IsText back m.model

  abbrev pub IsVersioned : DeviceInfoResponse rt → Type 0
  IsVersioned m =
      IsText back m.project_name
      × IsText back m.project_version
      × (m.webserver_port < 2 ^ 32)
      × (m.legacy_bluetooth_proxy_version < 2 ^ 32)
      × (m.bluetooth_proxy_feature_flags < 2 ^ 32)
      × IsText back m.manufacturer

  abbrev pub IsBehind : DeviceInfoResponse rt → Type 0
  IsBehind m =
      IsText back m.friendly_name
      × (m.legacy_voice_assistant_version < 2 ^ 32)
      × (m.voice_assistant_feature_flags < 2 ^ 32)
      × IsText back m.suggested_area
      × IsText back m.bluetooth_mac_address

  abbrev pub IsFilled : DeviceInfoResponse rt → Type 0
  IsFilled m =
      All IsDeviceInfo m.devices × All IsAreaInfo m.areas × All IsAreaInfo (of_option m.area)

  -- The fields are what their types hold, and there is none that is unknown.
  abbrev pub IsTyped : DeviceInfoResponse rt → Type 0
  IsTyped m =
      IsNamed m × IsVersioned m × IsBehind m × IsFilled m × (m.special_fields ≡ rt.no_unknown)

  module _ (m : DeviceInfoResponse rt) where
    abbrev pub known : DeviceInfoResponse rt
    known = record m { special_fields = rt.no_unknown }

    abbrev pub rest4 : Bytes
    rest4 = rt.write_unknown_fields rt.no_unknown ++ []

    abbrev pub rest3 : Bytes
    rest3 =
        emit_all (message_field rt 20 (DeviceInfo.compute_size rt) (DeviceInfo.write_to rt))
          m.devices
        ++ (emit_all (message_field rt 21 (AreaInfo.compute_size rt) (AreaInfo.write_to rt)) m.areas
            ++ (emit_all (message_field rt 22 (AreaInfo.compute_size rt) (AreaInfo.write_to rt))
                  (of_option m.area)
                ++ rest4))

    abbrev pub rest2 : Bytes
    rest2 =
        emit (nonempty m.friendly_name) (rt.write_string 13 m.friendly_name)
        ++ (emit (nonzero m.legacy_voice_assistant_version)
              (rt.write_uint32 14 m.legacy_voice_assistant_version)
            ++ (emit (nonzero m.voice_assistant_feature_flags)
                  (rt.write_uint32 17 m.voice_assistant_feature_flags)
                ++ (emit (nonempty m.suggested_area) (rt.write_string 16 m.suggested_area)
                    ++ (emit (nonempty m.bluetooth_mac_address)
                          (rt.write_string 18 m.bluetooth_mac_address)
                        ++ (emit m.api_encryption_supported
                              (rt.write_bool 19 m.api_encryption_supported)
                            ++ rest3)))))

    abbrev pub rest1 : Bytes
    rest1 =
        emit (nonempty m.project_name) (rt.write_string 8 m.project_name)
        ++ (emit (nonempty m.project_version) (rt.write_string 9 m.project_version)
            ++ (emit (nonzero m.webserver_port) (rt.write_uint32 10 m.webserver_port)
                ++ (emit (nonzero m.legacy_bluetooth_proxy_version)
                      (rt.write_uint32 11 m.legacy_bluetooth_proxy_version)
                    ++ (emit (nonzero m.bluetooth_proxy_feature_flags)
                          (rt.write_uint32 15 m.bluetooth_proxy_feature_flags)
                        ++ (emit (nonempty m.manufacturer) (rt.write_string 12 m.manufacturer)
                            ++ rest2)))))

    abbrev pub stage1 : DeviceInfoResponse rt
    stage1 = record (new rt) {
      uses_password = m.uses_password;
      name = m.name;
      mac_address = m.mac_address;
      esphome_version = m.esphome_version;
      compilation_time = m.compilation_time;
      model = m.model;
      has_deep_sleep = m.has_deep_sleep;
    }

    abbrev pub stage2 : DeviceInfoResponse rt
    stage2 = record stage1 {
      project_name = m.project_name;
      project_version = m.project_version;
      webserver_port = m.webserver_port;
      legacy_bluetooth_proxy_version = m.legacy_bluetooth_proxy_version;
      bluetooth_proxy_feature_flags = m.bluetooth_proxy_feature_flags;
      manufacturer = m.manufacturer;
    }

    abbrev pub stage3 : DeviceInfoResponse rt
    stage3 = record stage2 {
      friendly_name = m.friendly_name;
      legacy_voice_assistant_version = m.legacy_voice_assistant_version;
      voice_assistant_feature_flags = m.voice_assistant_feature_flags;
      suggested_area = m.suggested_area;
      bluetooth_mac_address = m.bluetooth_mac_address;
      api_encryption_supported = m.api_encryption_supported;
    }

    -- The names and versions in front.
    pub merge-names :
        IsNamed m
        → Merge.merge rt (merge_field rt) (new rt) (rt.of_bytes (write_to rt known))
          ≡ Merge.merge rt (merge_field rt) stage1 (rt.of_bytes rest1)
    unfolding merge_field new write_to
    merge-names (name, mac_address, esphome_version, compilation_time, model) =
        let m1 : DeviceInfoResponse rt = record (new rt) { uses_password = m.uses_password } in
        let m2 : DeviceInfoResponse rt = record m1 { name = m.name } in
        let m3 : DeviceInfoResponse rt = record m2 { mac_address = m.mac_address } in
        let m4 : DeviceInfoResponse rt = record m3 { esphome_version = m.esphome_version } in
        let m5 : DeviceInfoResponse rt = record m4 { compilation_time = m.compilation_time } in
        let m6 : DeviceInfoResponse rt = record m5 { model = m.model } in
        let bool_field = merge-bool rt back (merge_field rt) (merge_field-Advances rt) in
        let string_field = merge-string rt back (merge_field rt) (merge_field-Advances rt) in
        bool_field 1 m.uses_password (λ x. record (new rt) { uses_password = x }) _
          (omega arith, omega arith) (λ is. refl)
        ∙ string_field 2 m.name (λ x. record m1 { name = x }) _ (omega arith, omega arith) name
            (λ is. refl)
        ∙ string_field 3 m.mac_address (λ x. record m2 { mac_address = x }) _
            (omega arith, omega arith) mac_address (λ is. refl)
        ∙ string_field 4 m.esphome_version (λ x. record m3 { esphome_version = x }) _
            (omega arith, omega arith) esphome_version (λ is. refl)
        ∙ string_field 5 m.compilation_time (λ x. record m4 { compilation_time = x }) _
            (omega arith, omega arith) compilation_time (λ is. refl)
        ∙ string_field 6 m.model (λ x. record m5 { model = x }) _ (omega arith, omega arith) model
            (λ is. refl)
        ∙ bool_field 7 m.has_deep_sleep (λ x. record m6 { has_deep_sleep = x }) _
            (omega arith, omega arith) (λ is. refl)

    -- The project, the port and the proxy's features.
    pub merge-versions :
        IsVersioned m
        → Merge.merge rt (merge_field rt) stage1 (rt.of_bytes rest1)
          ≡ Merge.merge rt (merge_field rt) stage2 (rt.of_bytes rest2)
    unfolding merge_field new write_to
    merge-versions
          (
            project_name, project_version, webserver_port, legacy_bluetooth_proxy_version,
            bluetooth_proxy_feature_flags, manufacturer,
          ) =
        let m1 : DeviceInfoResponse rt = record stage1 { project_name = m.project_name } in
        let m2 : DeviceInfoResponse rt = record m1 { project_version = m.project_version } in
        let m3 : DeviceInfoResponse rt = record m2 { webserver_port = m.webserver_port } in
        let m4 : DeviceInfoResponse rt = record m3 {
          legacy_bluetooth_proxy_version = m.legacy_bluetooth_proxy_version;
        } in
        let m5 : DeviceInfoResponse rt = record m4 {
          bluetooth_proxy_feature_flags = m.bluetooth_proxy_feature_flags;
        } in
        let string_field = merge-string rt back (merge_field rt) (merge_field-Advances rt) in
        let uint32_field = merge-uint32 rt back (merge_field rt) (merge_field-Advances rt) in
        string_field 8 m.project_name (λ x. record stage1 { project_name = x }) _
          (omega arith, omega arith) project_name (λ is. refl)
        ∙ string_field 9 m.project_version (λ x. record m1 { project_version = x }) _
            (omega arith, omega arith) project_version (λ is. refl)
        ∙ uint32_field 10 m.webserver_port (λ x. record m2 { webserver_port = x }) _
            (omega arith, omega arith) webserver_port (λ is. refl)
        ∙ uint32_field 11 m.legacy_bluetooth_proxy_version
            (λ x. record m3 { legacy_bluetooth_proxy_version = x }) _ (omega arith, omega arith)
            legacy_bluetooth_proxy_version (λ is. refl)
        ∙ uint32_field 15 m.bluetooth_proxy_feature_flags
            (λ x. record m4 { bluetooth_proxy_feature_flags = x }) _ (omega arith, omega arith)
            bluetooth_proxy_feature_flags (λ is. refl)
        ∙ string_field 12 m.manufacturer (λ x. record m5 { manufacturer = x }) _
            (omega arith, omega arith) manufacturer (λ is. refl)
