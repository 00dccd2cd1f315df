-- ===== src/Config/Valid/Targets.antt =====
-- What the readers of src/bms_2030_5_client/runtime_config.py let through: poll targets, subscriptions, notifications.
use ieee2030_5_cold_client.Prelude.{◌≡◌, true}
use ieee2030_5_cold_client.Prelude.Int.{pos}
use ieee2030_5_cold_client.Config.Values.{
  null, int, float, text, dict, Fields, no_fields, Python, get, whole,
}
use ieee2030_5_cold_client.Config.Checks.{
  path_ok, in_port, is_member, validate_enum, validate_port, validate_type, warn_tls_path,
}
use ieee2030_5_cold_client.Config.Parts.{section, section_if, parse_formats, modbus_data_types}
use ieee2030_5_cold_client.Config.Targets.{
  ParseConfig, parse_from_dict, transform_from_dict, ModbusWriteConfig, modbus_write_from_dict,
  PollTargetConfig, poll_target_from_dict, SubscriptionConfig, subscription_from_dict,
  NotificationServerConfig, notification_server_from_dict,
}
use ieee2030_5_cold_client.Config.Targets.{conditions_of}
use ieee2030_5_cold_client.Config.Checked.{
  Yields, loaded-Yields, any-Yields, bind-Yields, validate_port-Yields, validate_enum-Yields,
  warn_tls_path-Yields, section-Yields, section_if-Yields, WhereSome,
}

abbrev pub IsParseConfig : ParseConfig → Type 0
IsParseConfig c = is_member parse_formats c.format ≡ true

pub parse_from_dict-IsParseConfig : (d : Fields) → Yields (IsParseConfig) (parse_from_dict d)
unfolding parse_from_dict
parse_from_dict-IsParseConfig d =
    bind-Yields (validate_enum (get "format" (text "sep_xml") d) parse_formats "parse.format")
      (validate_enum-Yields (get "format" (text "sep_xml") d) parse_formats "parse.format")
      (λ format h_format. loaded-Yields (h_format))

abbrev pub IsModbusWriteConfig : ModbusWriteConfig → Type 0
IsModbusWriteConfig c = is_member modbus_data_types c.datatype ≡ true

pub modbus_write_from_dict-IsModbusWriteConfig :
    (p : Python) (d : Fields) → Yields (IsModbusWriteConfig) (modbus_write_from_dict p d)
unfolding modbus_write_from_dict
modbus_write_from_dict-IsModbusWriteConfig p d =
    bind-Yields
      (validate_enum (get "datatype" (text "int16") d) modbus_data_types "modbus_write.datatype")
      (validate_enum-Yields (get "datatype" (text "int16") d) modbus_data_types
        "modbus_write.datatype")
      (λ datatype h_datatype.
        bind-Yields (validate_type p.int_of (get "address" (int (pos 0)) d) "modbus_write.address")
          (any-Yields
            (validate_type p.int_of (get "address" (int (pos 0)) d) "modbus_write.address"))
          (λ address h_address.
            bind-Yields
              (validate_type p.float_of (get "scale" (float (whole 1)) d) "modbus_write.scale")
              (any-Yields
                (validate_type p.float_of (get "scale" (float (whole 1)) d) "modbus_write.scale"))
              (λ scale h_scale.
                bind-Yields
                  (validate_type p.float_of (get "offset" (float (whole 0)) d)
                    "modbus_write.offset")
                  (any-Yields (
                    validate_type p.float_of (get "offset" (float (whole 0)) d)
                      "modbus_write.offset"))
                  (λ offset h_offset. loaded-Yields (h_datatype)))))

abbrev pub IsPollTargetConfig : PollTargetConfig → Type 0
IsPollTargetConfig c = (IsParseConfig c.parse) × (WhereSome (IsModbusWriteConfig) c.modbus_write)

pub poll_target_from_dict-IsPollTargetConfig :
    (p : Python) (d : Fields) → Yields (IsPollTargetConfig) (poll_target_from_dict p d)
unfolding poll_target_from_dict
poll_target_from_dict-IsPollTargetConfig p d =
    bind-Yields (section (parse_from_dict) (get "parse" (dict no_fields) d))
      (section-Yields (get "parse" (dict no_fields) d) (λ e. parse_from_dict-IsParseConfig e))
      (λ parse h_parse.
        bind-Yields (section (transform_from_dict) (get "transform" (dict no_fields) d))
          (any-Yields (section (transform_from_dict) (get "transform" (dict no_fields) d)))
          (λ transform h_transform.
            bind-Yields (section_if (modbus_write_from_dict p) (get "modbus_write" null d))
              (section_if-Yields (get "modbus_write" null d)
                (λ e. modbus_write_from_dict-IsModbusWriteConfig p e))
              (λ modbus_write h_modbus_write. loaded-Yields (h_parse, h_modbus_write))))

abbrev pub IsSubscriptionConfig : SubscriptionConfig → Type 0
IsSubscriptionConfig c = (IsParseConfig c.parse) × (WhereSome (IsModbusWriteConfig) c.modbus_write)

pub subscription_from_dict-IsSubscriptionConfig :
    (p : Python) (d : Fields) → Yields (IsSubscriptionConfig) (subscription_from_dict p d)
unfolding subscription_from_dict
subscription_from_dict-IsSubscriptionConfig p d =
    bind-Yields (conditions_of (get "conditions" null d))
      (any-Yields (conditions_of (get "conditions" null d)))
      (λ conditions h_conditions.
        bind-Yields (section (parse_from_dict) (get "parse" (dict no_fields) d))
          (section-Yields (get "parse" (dict no_fields) d) (λ e. parse_from_dict-IsParseConfig e))
          (λ parse h_parse.
            bind-Yields (section_if (modbus_write_from_dict p) (get "modbus_write" null d))
              (section_if-Yields (get "modbus_write" null d)
                (λ e. modbus_write_from_dict-IsModbusWriteConfig p e))
              (λ modbus_write h_modbus_write. loaded-Yields (h_parse, h_modbus_write))))

abbrev pub IsNotificationServerConfig : NotificationServerConfig → Type 0
IsNotificationServerConfig c =
    (in_port c.listen_port ≡ true)
    × (path_ok c.tls_server_cert_path ≡ true)
    × (path_ok c.tls_server_key_path ≡ true)

pub notification_server_from_dict-IsNotificationServerConfig :
    (p : Python) (d : Fields)
    → Yields (IsNotificationServerConfig) (notification_server_from_dict p d)
unfolding notification_server_from_dict
notification_server_from_dict-IsNotificationServerConfig p d =
    bind-Yields
      (validate_port p (get "listen_port" (int (pos 8443)) d) "notification_server.listen_port")
      (validate_port-Yields p (get "listen_port" (int (pos 8443)) d)
        "notification_server.listen_port")
      (λ listen_port h_listen_port.
        bind-Yields (warn_tls_path (get "tls_server_cert_path" (text "certs/server.crt") d))
          (warn_tls_path-Yields (get "tls_server_cert_path" (text "certs/server.crt") d))
          (λ tls_server_cert_path h_tls_server_cert_path.
            bind-Yields (warn_tls_path (get "tls_server_key_path" (text "certs/server.key") d))
              (warn_tls_path-Yields (get "tls_server_key_path" (text "certs/server.key") d))
              (λ tls_server_key_path h_tls_server_key_path.
                loaded-Yields (h_listen_port, h_tls_server_cert_path, h_tls_server_key_path))))
