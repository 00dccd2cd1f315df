-- ===== src/Config/RoundTrip/Targets.antt =====
-- Poll targets, subscriptions and the notification server of src/bms_2030_5_client/runtime_config.py,
-- written and read again.
use ieee2030_5_cold_client.Prelude.{◌≡◌, refl, true}
use ieee2030_5_cold_client.Prelude.Int.{ℤ}
use ieee2030_5_cold_client.Config.Values.{
  Float, int, float, dict, loaded, Python, converted, truthy,
}
use ieee2030_5_cold_client.Config.Checks.{
  validate_enum, validate_port, validate_type, warn_tls_path,
}
use ieee2030_5_cold_client.Config.Parts.{
  section, section_if, int_or_null, float_or_null, dict_or_null, parse_formats, modbus_data_types,
}
use ieee2030_5_cold_client.Config.Targets.{
  ParseConfig, parse_from_dict, parse_to_dict, TransformConfig, transform_from_dict,
  transform_to_dict, ModbusWriteConfig, modbus_write_from_dict, modbus_write_to_dict,
  PollTargetConfig, poll_target_from_dict, poll_target_to_dict, conditions_to_dict,
  SubscriptionConfig, subscription_from_dict, subscription_to_dict, NotificationServerConfig,
  notification_server_from_dict, notification_server_to_dict,
}
use ieee2030_5_cold_client.Config.Targets.{conditions_of}
use ieee2030_5_cold_client.Config.Valid.Targets.{
  IsParseConfig, IsModbusWriteConfig, IsPollTargetConfig, IsSubscriptionConfig,
  IsNotificationServerConfig,
}
use ieee2030_5_cold_client.Config.Accepts.{
  bind-Ends, validate_enum-loaded, warn_tls_path-loaded, validate_port-loaded, validate_int-loaded,
  validate_float-loaded, section-loaded, section_if-loaded, conditions_of-loaded,
}

pub parse_from_dict-parse_to_dict :
    (c : ParseConfig) → IsParseConfig c → parse_from_dict (parse_to_dict c) ≡ loaded c
unfolding parse_from_dict parse_to_dict
parse_from_dict-parse_to_dict c h_format =
    (bind-Ends (validate_enum c.format parse_formats "parse.format") c.format _
      (validate_enum-loaded c.format parse_formats "parse.format" h_format)
      (record { same = refl })).same

pub transform_from_dict-transform_to_dict :
    (c : TransformConfig) → transform_from_dict (transform_to_dict c) ≡ loaded c
unfolding transform_from_dict transform_to_dict
transform_from_dict-transform_to_dict c = refl

pub modbus_write_from_dict-modbus_write_to_dict :
    (p : Python) (int_law : (z : ℤ) → p.int_of (int z) ≡ converted z)
    (float_law : (x : Float) → p.float_of (float x) ≡ converted x) (c : ModbusWriteConfig)
    → IsModbusWriteConfig c
    → modbus_write_from_dict p (modbus_write_to_dict c) ≡ loaded c
unfolding modbus_write_from_dict modbus_write_to_dict
modbus_write_from_dict-modbus_write_to_dict p int_law float_law c h_datatype =
    (bind-Ends (validate_enum c.datatype modbus_data_types "modbus_write.datatype") c.datatype _
      (validate_enum-loaded c.datatype modbus_data_types "modbus_write.datatype" h_datatype)
      (bind-Ends (validate_type p.int_of (int_or_null c.address) "modbus_write.address") c.address _
        (validate_int-loaded p int_law c.address "modbus_write.address")
        (bind-Ends (validate_type p.float_of (float_or_null c.scale) "modbus_write.scale") c.scale _
          (validate_float-loaded p float_law c.scale "modbus_write.scale")
          (bind-Ends (validate_type p.float_of (float_or_null c.offset) "modbus_write.offset")
            c.offset _ (validate_float-loaded p float_law c.offset "modbus_write.offset")
            (record { same = refl }))))).same

pub modbus_write_truthy : (c : ModbusWriteConfig) → truthy (dict (modbus_write_to_dict c)) ≡ true
unfolding modbus_write_to_dict
modbus_write_truthy c = refl

pub poll_target_from_dict-poll_target_to_dict :
    (p : Python) (int_law : (z : ℤ) → p.int_of (int z) ≡ converted z)
    (float_law : (x : Float) → p.float_of (float x) ≡ converted x) (c : PollTargetConfig)
    → IsPollTargetConfig c
    → poll_target_from_dict p (poll_target_to_dict c) ≡ loaded c
unfolding poll_target_from_dict poll_target_to_dict
poll_target_from_dict-poll_target_to_dict p int_law float_law c (h_parse, h_modbus_write) =
    (bind-Ends (section (parse_from_dict) (dict (parse_to_dict c.parse))) (c.parse) _
      (section-loaded (parse_from_dict) (parse_to_dict c.parse) (c.parse)
        (parse_from_dict-parse_to_dict c.parse h_parse))
      (bind-Ends (section (transform_from_dict) (dict (transform_to_dict c.transform)))
        (c.transform) _
        (section-loaded (transform_from_dict) (transform_to_dict c.transform) (c.transform)
          (transform_from_dict-transform_to_dict c.transform))
        (bind-Ends
          (section_if (modbus_write_from_dict p) (dict_or_null modbus_write_to_dict c.modbus_write))
          c.modbus_write _
          (section_if-loaded (modbus_write_from_dict p) modbus_write_to_dict (IsModbusWriteConfig)
            (λ (e : ModbusWriteConfig) h.
              modbus_write_from_dict-modbus_write_to_dict p int_law float_law e h)
            modbus_write_truthy c.modbus_write h_modbus_write)
          (record { same = refl })))).same

pub subscription_from_dict-subscription_to_dict :
    (p : Python) (int_law : (z : ℤ) → p.int_of (int z) ≡ converted z)
    (float_law : (x : Float) → p.float_of (float x) ≡ converted x) (c : SubscriptionConfig)
    → IsSubscriptionConfig c
    → subscription_from_dict p (subscription_to_dict c) ≡ loaded c
unfolding subscription_from_dict subscription_to_dict
subscription_from_dict-subscription_to_dict p int_law float_law c (h_parse, h_modbus_write) =
    (bind-Ends (conditions_of (dict_or_null conditions_to_dict c.conditions)) c.conditions _
      (conditions_of-loaded c.conditions)
      (bind-Ends (section (parse_from_dict) (dict (parse_to_dict c.parse))) (c.parse) _
        (section-loaded (parse_from_dict) (parse_to_dict c.parse) (c.parse)
          (parse_from_dict-parse_to_dict c.parse h_parse))
        (bind-Ends
          (section_if (modbus_write_from_dict p) (dict_or_null modbus_write_to_dict c.modbus_write))
          c.modbus_write _
          (section_if-loaded (modbus_write_from_dict p) modbus_write_to_dict (IsModbusWriteConfig)
            (λ (e : ModbusWriteConfig) h.
              modbus_write_from_dict-modbus_write_to_dict p int_law float_law e h)
            modbus_write_truthy c.modbus_write h_modbus_write)
          (record { same = refl })))).same

pub notification_server_from_dict-notification_server_to_dict :
    (p : Python) (int_law : (z : ℤ) → p.int_of (int z) ≡ converted z) (c : NotificationServerConfig)
    → IsNotificationServerConfig c
    → notification_server_from_dict p (notification_server_to_dict c) ≡ loaded c
unfolding notification_server_from_dict notification_server_to_dict
notification_server_from_dict-notification_server_to_dict p int_law c
      (h_listen_port, h_tls_server_cert_path, h_tls_server_key_path) =
    (bind-Ends (validate_port p (int c.listen_port) "notification_server.listen_port") c.listen_port
      _
      (validate_port-loaded p int_law c.listen_port "notification_server.listen_port" h_listen_port)
      (bind-Ends (warn_tls_path c.tls_server_cert_path) c.tls_server_cert_path _
        (warn_tls_path-loaded c.tls_server_cert_path h_tls_server_cert_path)
        (bind-Ends (warn_tls_path c.tls_server_key_path) c.tls_server_key_path _
          (warn_tls_path-loaded c.tls_server_key_path h_tls_server_key_path)
          (record { same = refl })))).same
