-- ===== src/Api/DeviceInfoResponse/RoundTrip.antt =====
-- src/api/api.rs: what a `DeviceInfoResponse` wrote is read back.
use linux_bt_proxy.Prelude.{◌^◌, ◌<◌, ◌≡◌, refl, sym, ◌∙◌, some, arith}
use mathlib.Core.Path.{subst}
use linux_bt_proxy.Api.Runtime.{Protobuf, of_option}
use linux_bt_proxy.Api.Runtime.Sizes.{All-map}
use linux_bt_proxy.Api.Runtime.Merge.{Merged, merged, finished, parse_from_bytes}
use linux_bt_proxy.Api.Runtime.Merge
use linux_bt_proxy.Api.Runtime.ReadsBack.{ReadsBack}
use linux_bt_proxy.Api.Runtime.RoundTrip.{merge-unknown}
use linux_bt_proxy.Api.Runtime.Fields
use linux_bt_proxy.Api.Runtime.Fields.{
  IsText, merge-bool, merge-uint32, merge-string, merge-messages, merge-singular,
}
use linux_bt_proxy.Api.AreaInfo
use linux_bt_proxy.Api.AreaInfo.{AreaInfo}
use linux_bt_proxy.Api.AreaInfo.RoundTrip as Area
use linux_bt_proxy.Api.DeviceInfo
use linux_bt_proxy.Api.DeviceInfo.{DeviceInfo}
use linux_bt_proxy.Api.DeviceInfo.RoundTrip as Device
use linux_bt_proxy.Api.DeviceInfoResponse.{DeviceInfoResponse, new, write_to}
use linux_bt_proxy.Api.DeviceInfoResponse.Reading.{merge_field, merge_field-Advances, parse}
use linux_bt_proxy.Api.DeviceInfoResponse.Stages.{
  IsBehind, IsFilled, IsTyped, IsDeviceInfo, IsAreaInfo, known, rest2, rest3, stage2, stage3,
  merge-names, merge-versions,
}

module _ (rt : Protobuf) (back : ReadsBack rt) where
  inside_device :
      (v : DeviceInfo rt)
      → IsDeviceInfo rt back v
      → (DeviceInfo.compute_size rt v < 2 ^ 31)
        × (DeviceInfo.merge_from rt (DeviceInfo.new rt) (rt.of_bytes (DeviceInfo.write_to rt v))
            ≡ some v)
  inside_device v (typed, small) = (small, Device.merge_from-write_to rt back v typed)

  inside_area :
      (v : AreaInfo rt)
      → IsAreaInfo rt back v
      → (AreaInfo.compute_size rt v < 2 ^ 31)
        × (AreaInfo.merge_from rt (AreaInfo.new rt) (rt.of_bytes (AreaInfo.write_to rt v)) ≡ some v)
  inside_area v (typed, small) = (small, Area.merge_from-write_to rt back v typed)

  module _ (m : DeviceInfoResponse rt) where
    -- The friendly name and what follows it.
    merge-rest_names :
        IsBehind rt back m
        → Merge.merge rt (merge_field rt) (stage2 rt back m) (rt.of_bytes (rest2 rt back m))
          ≡ Merge.merge rt (merge_field rt) (stage3 rt back m) (rt.of_bytes (rest3 rt back m))
    unfolding merge_field new write_to
    merge-rest_names
          (
            friendly_name, legacy_voice_assistant_version, voice_assistant_feature_flags,
            suggested_area, bluetooth_mac_address,
          ) =
        let m1 : DeviceInfoResponse rt = record (stage2 rt back m) {
          friendly_name = m.friendly_name;
        } in
        let m2 : DeviceInfoResponse rt = record m1 {
          legacy_voice_assistant_version = m.legacy_voice_assistant_version;
        } in
        let m3 : DeviceInfoResponse rt = record m2 {
          voice_assistant_feature_flags = m.voice_assistant_feature_flags;
        } in
        let m4 : DeviceInfoResponse rt = record m3 { suggested_area = m.suggested_area } in
        let m5 : DeviceInfoResponse rt = record m4 {
          bluetooth_mac_address = m.bluetooth_mac_address;
        } in
        let string_field = merge-string rt back (merge_field rt) (merge_field-Advances rt) in
        let uint32_field = merge-uint32 rt back (merge_field rt) (merge_field-Advances rt) in
        let bool_field = merge-bool rt back (merge_field rt) (merge_field-Advances rt) in
        string_field 13 m.friendly_name (λ x. record (stage2 rt back m) { friendly_name = x }) _
          (omega arith, omega arith) friendly_name (λ is. refl)
        ∙ uint32_field 14 m.legacy_voice_assistant_version
            (λ x. record m1 { legacy_voice_assistant_version = x }) _ (omega arith, omega arith)
            legacy_voice_assistant_version (λ is. refl)
        ∙ uint32_field 17 m.voice_assistant_feature_flags
            (λ x. record m2 { voice_assistant_feature_flags = x }) _ (omega arith, omega arith)
            voice_assistant_feature_flags (λ is. refl)
        ∙ string_field 16 m.suggested_area (λ x. record m3 { suggested_area = x }) _
            (omega arith, omega arith) suggested_area (λ is. refl)
        ∙ string_field 18 m.bluetooth_mac_address (λ x. record m4 { bluetooth_mac_address = x }) _
            (omega arith, omega arith) bluetooth_mac_address (λ is. refl)
        ∙ bool_field 19 m.api_encryption_supported (λ x. record m5 { api_encryption_supported = x })
            _ (omega arith, omega arith) (λ is. refl)

    -- The messages inside.
    merge-inside :
        IsFilled rt back m
        → Merge.merge rt (merge_field rt) (stage3 rt back m) (rt.of_bytes (rest3 rt back m))
          ≡ merged (known rt back m)
    unfolding merge_field new write_to
    merge-inside (devices, areas, area) =
        let m1 : DeviceInfoResponse rt = record (stage3 rt back m) { devices = m.devices } in
        let m2 : DeviceInfoResponse rt = record m1 { areas = m.areas } in
        let (_, ends) = back.ends in
        merge-messages rt back (merge_field rt) (merge_field-Advances rt) (DeviceInfo.merge_from rt)
          (DeviceInfo.new rt) (DeviceInfo.compute_size rt) (DeviceInfo.write_to rt)
          (DeviceInfo.length-write_to rt) 20 m.devices
          (λ x. record (stage3 rt back m) { devices = x }) _ (omega arith, omega arith)
          (All-map (IsDeviceInfo rt back)
            (Fields.IsInside rt back (merge_field rt) (merge_field-Advances rt)
              (DeviceInfo.merge_from rt) (DeviceInfo.new rt) (DeviceInfo.compute_size rt)
              (DeviceInfo.write_to rt) (DeviceInfo.length-write_to rt))
            m.devices inside_device devices)
          (λ ys is. refl)
        ∙ merge-messages rt back (merge_field rt) (merge_field-Advances rt) (AreaInfo.merge_from rt)
            (AreaInfo.new rt) (AreaInfo.compute_size rt) (AreaInfo.write_to rt)
            (AreaInfo.length-write_to rt) 21 m.areas (λ x. record m1 { areas = x }) _
            (omega arith, omega arith)
            (All-map (IsAreaInfo rt back)
              (Fields.IsInside rt back (merge_field rt) (merge_field-Advances rt)
                (AreaInfo.merge_from rt) (AreaInfo.new rt) (AreaInfo.compute_size rt)
                (AreaInfo.write_to rt) (AreaInfo.length-write_to rt))
              m.areas inside_area areas)
            (λ ys is. refl)
        ∙ merge-singular rt back (merge_field rt) (merge_field-Advances rt) (AreaInfo.merge_from rt)
            (AreaInfo.new rt) (AreaInfo.compute_size rt) (AreaInfo.write_to rt)
            (AreaInfo.length-write_to rt) 22 m.area (λ x. record m2 { area = x }) _
            (omega arith, omega arith)
            (All-map (IsAreaInfo rt back)
              (Fields.IsInside rt back (merge_field rt) (merge_field-Advances rt)
                (AreaInfo.merge_from rt) (AreaInfo.new rt) (AreaInfo.compute_size rt)
                (AreaInfo.write_to rt) (AreaInfo.length-write_to rt))
              (of_option m.area) inside_area area)
            (λ is. refl)
        ∙ merge-unknown rt (merge_field rt) (merge_field-Advances rt) (known rt back m) ends
            back.no_unknown_back

    merge-known :
        IsTyped rt back m
        → Merge.merge rt (merge_field rt) (new rt) (rt.of_bytes (write_to rt (known rt back m)))
          ≡ merged (known rt back m)
    merge-known (named, versioned, behind, filled, _) =
        merge-names rt back m named
        ∙ merge-versions rt back m versioned
        ∙ merge-rest_names behind
        ∙ merge-inside filled

  -- A device-info response whose fields, and those of the devices and areas inside, are in their types'
  -- ranges and that holds no unknown field is read back whole from the bytes that it wrote.
  pub parse-write_to_info :
      (m : DeviceInfoResponse rt) → IsTyped rt back m → parse rt (write_to rt m) ≡ merged m
  unfolding parse parse_from_bytes
  parse-write_to_info m typed =
      subst (λ h. Merge.merge rt (merge_field rt) (new rt) (rt.of_bytes (write_to rt h)) ≡ merged h)
        (λ i. record m { special_fields = sym typed.4 i }) (merge-known m typed)
