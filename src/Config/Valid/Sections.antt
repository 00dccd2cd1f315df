-- ===== src/Config/Valid/Sections.antt =====
-- What the readers of src/bms_2030_5_client/runtime_config.py let through: the server profiles and Modbus.
use ieee2030_5_cold_client.Prelude.{◌≡◌, refl, true}
use ieee2030_5_cold_client.Prelude.Int.{pos}
use ieee2030_5_cold_client.Config.Values.{
  int, float, text, dict, Fields, no_fields, Python, get, whole,
}
use ieee2030_5_cold_client.Config.Checks.{
  path_ok, url_ok, in_port, is_positive, is_member, validate_enum, validate_port, validate_url,
  validate_type, validate_positive, warn_tls_path,
}
use ieee2030_5_cold_client.Config.Parts.{section, section_or, content_types, modbus_modes}
use ieee2030_5_cold_client.Config.Sections.{
  TlsConfig, tls_from_dict, ProfileConfig, profile_from_dict, modbus_defaults_from_dict,
  registers_from_dict, ModbusConfig, modbus_from_dict,
}
use ieee2030_5_cold_client.Config.Sections.{default_tls}
use ieee2030_5_cold_client.Config.Checked.{
  Yields, loaded-Yields, any-Yields, bind-Yields, validate_port-Yields, validate_positive-Yields,
  validate_enum-Yields, warn_tls_path-Yields, validate_url-Yields, section_or-Yields,
}

abbrev pub IsTlsConfig : TlsConfig → Type 0
IsTlsConfig c =
    (path_ok c.client_cert_path ≡ true)
    × (path_ok c.client_key_path ≡ true)
    × (path_ok c.ca_bundle_path ≡ true)

pub tls_from_dict-IsTlsConfig : (d : Fields) → Yields (IsTlsConfig) (tls_from_dict d)
unfolding tls_from_dict
tls_from_dict-IsTlsConfig d =
    bind-Yields (warn_tls_path (get "client_cert_path" (text "certs/client.crt") d))
      (warn_tls_path-Yields (get "client_cert_path" (text "certs/client.crt") d))
      (λ client_cert_path h_client_cert_path.
        bind-Yields (warn_tls_path (get "client_key_path" (text "certs/client.key") d))
          (warn_tls_path-Yields (get "client_key_path" (text "certs/client.key") d))
          (λ client_key_path h_client_key_path.
            bind-Yields (warn_tls_path (get "ca_bundle_path" (text "certs/ca.crt") d))
              (warn_tls_path-Yields (get "ca_bundle_path" (text "certs/ca.crt") d))
              (λ ca_bundle_path h_ca_bundle_path.
                loaded-Yields (h_client_cert_path, h_client_key_path, h_ca_bundle_path))))

abbrev pub IsProfileConfig : Python → ProfileConfig → Type 0
IsProfileConfig p c =
    (url_ok (p.url_parts c.server_base_url) ≡ true)
    × (IsTlsConfig c.tls)
    × (is_member content_types c.content_type_preference ≡ true)

pub profile_from_dict-IsProfileConfig :
    (p : Python) (d : Fields) → Yields (IsProfileConfig p) (profile_from_dict p d)
unfolding profile_from_dict
profile_from_dict-IsProfileConfig p d =
    bind-Yields
      (validate_url p (get "server_base_url" (text "https://localhost:7443") d)
        "profile.server_base_url")
      (validate_url-Yields p (get "server_base_url" (text "https://localhost:7443") d)
        "profile.server_base_url")
      (λ server_base_url h_server_base_url.
        bind-Yields
          (validate_enum (get "content_type_preference" (text "application/sep+xml") d)
            content_types "profile.content_type_preference")
          (validate_enum-Yields (get "content_type_preference" (text "application/sep+xml") d)
            content_types "profile.content_type_preference")
          (λ content_type_preference h_content_type_preference.
            bind-Yields (section_or default_tls (tls_from_dict) (get "tls" (dict no_fields) d))
              (section_or-Yields default_tls (get "tls" (dict no_fields) d) (refl, refl, refl)
                (λ e. tls_from_dict-IsTlsConfig e))
              (λ tls h_tls.
                bind-Yields (validate_type p.int_of (get "pin" (int (pos 12345)) d) "profile.pin")
                  (any-Yields
                    (validate_type p.int_of (get "pin" (int (pos 12345)) d) "profile.pin"))
                  (λ pin h_pin.
                    loaded-Yields (h_server_base_url, h_tls, h_content_type_preference)))))

abbrev pub IsModbusConfig : ModbusConfig → Type 0
IsModbusConfig c =
    (is_member modbus_modes c.mode ≡ true)
    × (in_port c.port ≡ true)
    × (is_positive c.timeout ≡ true)

pub modbus_from_dict-IsModbusConfig :
    (p : Python) (d : Fields) → Yields (IsModbusConfig) (modbus_from_dict p d)
unfolding modbus_from_dict
modbus_from_dict-IsModbusConfig p d =
    bind-Yields (validate_enum (get "mode" (text "tcp") d) modbus_modes "modbus.mode")
      (validate_enum-Yields (get "mode" (text "tcp") d) modbus_modes "modbus.mode")
      (λ mode h_mode.
        bind-Yields (validate_port p (get "port" (int (pos 502)) d) "modbus.port")
          (validate_port-Yields p (get "port" (int (pos 502)) d) "modbus.port")
          (λ port h_port.
            bind-Yields (validate_type p.int_of (get "unit_id" (int (pos 1)) d) "modbus.unit_id")
              (any-Yields (validate_type p.int_of (get "unit_id" (int (pos 1)) d) "modbus.unit_id"))
              (λ unit_id h_unit_id.
                bind-Yields
                  (validate_positive p (get "timeout" (float (whole 5)) d) "modbus.timeout")
                  (validate_positive-Yields p (get "timeout" (float (whole 5)) d) "modbus.timeout")
                  (λ timeout h_timeout.
                    bind-Yields
                      (section (modbus_defaults_from_dict) (get "defaults" (dict no_fields) d))
                      (any-Yields
                        (section (modbus_defaults_from_dict) (get "defaults" (dict no_fields) d)))
                      (λ defaults h_defaults.
                        bind-Yields
                          (validate_type p.int_of (get "rack_count" (int (pos 4)) d)
                            "modbus.rack_count")
                          (any-Yields (
                            validate_type p.int_of (get "rack_count" (int (pos 4)) d)
                              "modbus.rack_count"))
                          (λ rack_count h_rack_count.
                            bind-Yields
                              (section (registers_from_dict) (get "registers" (dict no_fields) d))
                              (any-Yields (
                                section (registers_from_dict) (get "registers" (dict no_fields) d)))
                              (λ registers h_registers.
                                loaded-Yields (h_mode, h_port, h_timeout))))))))
