-- ===== src/Api/DeviceInfoResponse/Reading.antt =====
-- src/api/api.rs: how a `DeviceInfoResponse` is read.
use linux_bt_proxy.Api.DeviceInfo
use linux_bt_proxy.Api.DeviceInfo.{DeviceInfo}
use linux_bt_proxy.Api.AreaInfo
use linux_bt_proxy.Api.AreaInfo.{AreaInfo}
use linux_bt_proxy.Prelude.{ℕ, ◌≢◌, Option, [], ◌∷◌, ◌++◌, Bytes, ◌==◌, if◌then◌else◌}
use linux_bt_proxy.Api.Runtime.{Protobuf}
use linux_bt_proxy.Api.Runtime.Merge
use linux_bt_proxy.Api.Runtime.Merge.{
  Merged, stuck, assign, Advances, advancing, assign-Advances, arm-Advances, parse_from_bytes,
  parse_from_bytes-ne-stuck,
}
use linux_bt_proxy.Api.DeviceInfoResponse.{DeviceInfoResponse, new}

module _ (rt : Protobuf) where
  -- One round of `merge_from`: the arms of its `match tag`.
  unfoldable pub merge_field :
      ℕ
      → DeviceInfoResponse rt
      → rt.CodedInputStream
      → Option (DeviceInfoResponse rt × rt.CodedInputStream)
  merge_field tag m is =
      if tag == 8
      then assign rt (λ x. record m { uses_password = x }) (rt.read_bool is)
      else if tag == 18
      then assign rt (λ x. record m { name = x }) (rt.read_string is)
      else if tag == 26
      then assign rt (λ x. record m { mac_address = x }) (rt.read_string is)
      else if tag == 34
      then assign rt (λ x. record m { esphome_version = x }) (rt.read_string is)
      else if tag == 42
      then assign rt (λ x. record m { compilation_time = x }) (rt.read_string is)
      else if tag == 50
      then assign rt (λ x. record m { model = x }) (rt.read_string is)
      else if tag == 56
      then assign rt (λ x. record m { has_deep_sleep = x }) (rt.read_bool is)
      else if tag == 66
      then assign rt (λ x. record m { project_name = x }) (rt.read_string is)
      else if tag == 74
      then assign rt (λ x. record m { project_version = x }) (rt.read_string is)
      else if tag == 80
      then assign rt (λ x. record m { webserver_port = x }) (rt.read_uint32 is)
      else if tag == 88
      then assign rt (λ x. record m { legacy_bluetooth_proxy_version = x }) (rt.read_uint32 is)
      else if tag == 120
      then assign rt (λ x. record m { bluetooth_proxy_feature_flags = x }) (rt.read_uint32 is)
      else if tag == 98
      then assign rt (λ x. record m { manufacturer = x }) (rt.read_string is)
      else if tag == 106
      then assign rt (λ x. record m { friendly_name = x }) (rt.read_string is)
      else if tag == 112
      then assign rt (λ x. record m { legacy_voice_assistant_version = x }) (rt.read_uint32 is)
      else if tag == 136
      then assign rt (λ x. record m { voice_assistant_feature_flags = x }) (rt.read_uint32 is)
      else if tag == 130
      then assign rt (λ x. record m { suggested_area = x }) (rt.read_string is)
      else if tag == 146
      then assign rt (λ x. record m { bluetooth_mac_address = x }) (rt.read_string is)
      else if tag == 152
      then assign rt (λ x. record m { api_encryption_supported = x }) (rt.read_bool is)
      else if tag == 162
      then assign rt (λ x. record m { devices = m.devices ++ x ∷ [] })
          (rt.read_message (DeviceInfo.merge_from rt) (DeviceInfo.new rt) is)
      else if tag == 170
      then assign rt (λ x. record m { areas = m.areas ++ x ∷ [] })
          (rt.read_message (AreaInfo.merge_from rt) (AreaInfo.new rt) is)
      else if tag == 178
      then assign rt (λ x. record m { area = x })
          (rt.read_singular_message_into_field (AreaInfo.merge_from rt) (AreaInfo.new rt) m.area is)
      else assign rt (λ u. record m { special_fields = u })
          (rt.read_unknown_or_skip_group tag m.special_fields is)

  pub merge_field-Advances :
      (tag : ℕ) (m : DeviceInfoResponse rt) (is : rt.CodedInputStream)
      → Advances rt is (merge_field tag m is)
  unfolding merge_field
  merge_field-Advances tag m is =
      arm-Advances rt (tag == 8) _ is (rt.read_bool is) _ (λ a is' e. rt.bool_advances is e)
        (arm-Advances rt (tag == 18) _ is (rt.read_string is) _ (λ a is' e. rt.string_advances is e)
          (arm-Advances rt (tag == 26) _ is (rt.read_string is) _
            (λ a is' e. rt.string_advances is e)
            (arm-Advances rt (tag == 34) _ is (rt.read_string is) _
              (λ a is' e. rt.string_advances is e)
              (arm-Advances rt (tag == 42) _ is (rt.read_string is) _
                (λ a is' e. rt.string_advances is e)
                (arm-Advances rt (tag == 50) _ is (rt.read_string is) _
                  (λ a is' e. rt.string_advances is e)
                  (arm-Advances rt (tag == 56) _ is (rt.read_bool is) _
                    (λ a is' e. rt.bool_advances is e)
                    (arm-Advances rt (tag == 66) _ is (rt.read_string is) _
                      (λ a is' e. rt.string_advances is e)
                      (arm-Advances rt (tag == 74) _ is (rt.read_string is) _
                        (λ a is' e. rt.string_advances is e)
                        (arm-Advances rt (tag == 80) _ is (rt.read_uint32 is) _
                          (λ a is' e. rt.uint32_advances is e)
                          (arm-Advances rt (tag == 88) _ is (rt.read_uint32 is) _
                            (λ a is' e. rt.uint32_advances is e)
                            (arm-Advances rt (tag == 120) _ is (rt.read_uint32 is) _
                              (λ a is' e. rt.uint32_advances is e)
                              (arm-Advances rt (tag == 98) _ is (rt.read_string is) _
                                (λ a is' e. rt.string_advances is e)
                                (arm-Advances rt (tag == 106) _ is (rt.read_string is) _
                                  (λ a is' e. rt.string_advances is e)
                                  (arm-Advances rt (tag == 112) _ is (rt.read_uint32 is) _
                                    (λ a is' e. rt.uint32_advances is e)
                                    (arm-Advances rt (tag == 136) _ is (rt.read_uint32 is) _
                                      (λ a is' e. rt.uint32_advances is e)
                                      (arm-Advances rt (tag == 130) _ is (rt.read_string is) _
                                        (λ a is' e. rt.string_advances is e)
                                        (arm-Advances rt (tag == 146) _ is (rt.read_string is) _
                                          (λ a is' e. rt.string_advances is e)
                                          (arm-Advances rt (tag == 152) _ is (rt.read_bool is) _
                                            (λ a is' e. rt.bool_advances is e)
                                            (arm-Advances rt (tag == 162) _ is
                                              (rt.read_message (DeviceInfo.merge_from rt)
                                                (DeviceInfo.new rt) is)
                                              _
                                              (λ a is' e.
                                                rt.message_advances (DeviceInfo.merge_from rt)
                                                  (DeviceInfo.new rt) is e)
                                              (arm-Advances rt (tag == 170) _ is
                                                (rt.read_message (AreaInfo.merge_from rt)
                                                  (AreaInfo.new rt) is)
                                                _
                                                (λ a is' e.
                                                  rt.message_advances (AreaInfo.merge_from rt)
                                                    (AreaInfo.new rt) is e)
                                                (arm-Advances rt (tag == 178) _ is
                                                  (rt.read_singular_message_into_field
                                                    (AreaInfo.merge_from rt) (AreaInfo.new rt)
                                                    m.area is)
                                                  _
                                                  (λ a is' e.
                                                    rt.singular_advances (AreaInfo.merge_from rt)
                                                      (AreaInfo.new rt) m.area is e)
                                                  (assign-Advances rt
                                                    (λ u. record m { special_fields = u }) is
                                                    (rt.read_unknown_or_skip_group tag
                                                      m.special_fields is)
                                                    (advancing rt is
                                                      (rt.read_unknown_or_skip_group tag
                                                        m.special_fields is)
                                                      (λ u is' e.
                                                        rt.unknown_advances tag m.special_fields is
                                                          e))))))))))))))))))))))))

  unfoldable pub merge_from :
      DeviceInfoResponse rt → rt.CodedInputStream → Option (DeviceInfoResponse rt)
  unfolding merge_field Merge.merge_from
  merge_from m is = Merge.merge_from rt merge_field m is

  unfoldable pub parse : Bytes → Merged (DeviceInfoResponse rt)
  unfolding merge_field new parse_from_bytes
  parse bytes = parse_from_bytes rt merge_field (new rt) bytes

  pub parse-ne-stuck : (bytes : Bytes) → parse bytes ≢ stuck
  unfolding parse
  parse-ne-stuck bytes =
      parse_from_bytes-ne-stuck rt merge_field merge_field-Advances (new rt) bytes
