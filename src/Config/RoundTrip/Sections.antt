-- ===== src/Config/RoundTrip/Sections.antt =====
-- The server profiles and Modbus of src/bms_2030_5_client/runtime_config.py,
-- written and read again.
use ieee2030_5_cold_client.Prelude.{◌≡◌, refl, true}
use ieee2030_5_cold_client.Prelude.Int.{ℤ}
use ieee2030_5_cold_client.Config.Values.{
  Float, int, float, dict, loaded, Python, converted, truthy,
}
use ieee2030_5_cold_client.Config.Checks.{
  validate_enum, validate_port, validate_url, validate_type, validate_positive, warn_tls_path,
}
use ieee2030_5_cold_client.Config.Parts.{
  section, section_or, int_or_null, content_types, modbus_modes,
}
use ieee2030_5_cold_client.Config.Sections.{
  TlsConfig, tls_from_dict, tls_to_dict, ProfileConfig, profile_from_dict, profile_to_dict,
  ModbusDefaults, modbus_defaults_from_dict, modbus_defaults_to_dict, RegisterSystemConfig,
  register_system_from_dict, register_system_to_dict, RegisterRackConfig, register_rack_from_dict,
  register_rack_to_dict, RegistersConfig, registers_from_dict, registers_to_dict, ModbusConfig,
  modbus_from_dict, modbus_to_dict,
}
use ieee2030_5_cold_client.Config.Sections.{default_tls}
use ieee2030_5_cold_client.Config.Valid.Sections.{IsTlsConfig, IsProfileConfig, IsModbusConfig}
use ieee2030_5_cold_client.Config.Accepts.{
  bind-Ends, validate_enum-loaded, warn_tls_path-loaded, validate_url-loaded, validate_port-loaded,
  validate_int-loaded, validate_positive-loaded, section-loaded, section_or-loaded,
}

pub tls_from_dict-tls_to_dict :
    (c : TlsConfig) → IsTlsConfig c → tls_from_dict (tls_to_dict c) ≡ loaded c
unfolding tls_from_dict tls_to_dict
tls_from_dict-tls_to_dict c (h_client_cert_path, h_client_key_path, h_ca_bundle_path) =
    (bind-Ends (warn_tls_path c.client_cert_path) c.client_cert_path _
      (warn_tls_path-loaded c.client_cert_path h_client_cert_path)
      (bind-Ends (warn_tls_path c.client_key_path) c.client_key_path _
        (warn_tls_path-loaded c.client_key_path h_client_key_path)
        (bind-Ends (warn_tls_path c.ca_bundle_path) c.ca_bundle_path _
          (warn_tls_path-loaded c.ca_bundle_path h_ca_bundle_path) (record { same = refl })))).same

pub tls_truthy : (c : TlsConfig) → truthy (dict (tls_to_dict c)) ≡ true
unfolding tls_to_dict
tls_truthy c = refl

pub profile_from_dict-profile_to_dict :
    (p : Python) (int_law : (z : ℤ) → p.int_of (int z) ≡ converted z) (c : ProfileConfig)
    → IsProfileConfig p c
    → profile_from_dict p (profile_to_dict c) ≡ loaded c
unfolding profile_from_dict profile_to_dict
profile_from_dict-profile_to_dict p int_law c
      (h_server_base_url, h_tls, h_content_type_preference) =
    (bind-Ends (validate_url p c.server_base_url "profile.server_base_url") c.server_base_url _
      (validate_url-loaded p c.server_base_url "profile.server_base_url" h_server_base_url)
      (bind-Ends
        (validate_enum c.content_type_preference content_types "profile.content_type_preference")
        c.content_type_preference _
        (validate_enum-loaded c.content_type_preference content_types
          "profile.content_type_preference" h_content_type_preference)
        (bind-Ends (section_or default_tls (tls_from_dict) (dict (tls_to_dict c.tls))) c.tls _
          (section_or-loaded (tls_from_dict) (tls_to_dict c.tls) default_tls c.tls
            (tls_truthy c.tls) (tls_from_dict-tls_to_dict c.tls h_tls))
          (bind-Ends (validate_type p.int_of (int_or_null c.pin) "profile.pin") c.pin _
            (validate_int-loaded p int_law c.pin "profile.pin") (record { same = refl }))))).same

pub modbus_defaults_from_dict-modbus_defaults_to_dict :
    (c : ModbusDefaults) → modbus_defaults_from_dict (modbus_defaults_to_dict c) ≡ loaded c
unfolding modbus_defaults_from_dict modbus_defaults_to_dict
modbus_defaults_from_dict-modbus_defaults_to_dict c = refl

pub register_system_from_dict-register_system_to_dict :
    (c : RegisterSystemConfig) → register_system_from_dict (register_system_to_dict c) ≡ loaded c
unfolding register_system_from_dict register_system_to_dict
register_system_from_dict-register_system_to_dict c = refl

pub register_rack_from_dict-register_rack_to_dict :
    (c : RegisterRackConfig) → register_rack_from_dict (register_rack_to_dict c) ≡ loaded c
unfolding register_rack_from_dict register_rack_to_dict
register_rack_from_dict-register_rack_to_dict c = refl

pub registers_from_dict-registers_to_dict :
    (c : RegistersConfig) → registers_from_dict (registers_to_dict c) ≡ loaded c
unfolding registers_from_dict registers_to_dict
registers_from_dict-registers_to_dict c =
    (bind-Ends (section (register_system_from_dict) (dict (register_system_to_dict c.system)))
      (c.system) _
      (section-loaded (register_system_from_dict) (register_system_to_dict c.system) (c.system)
        (register_system_from_dict-register_system_to_dict c.system))
      (bind-Ends (section (register_rack_from_dict) (dict (register_rack_to_dict c.rack))) (c.rack)
        _
        (section-loaded (register_rack_from_dict) (register_rack_to_dict c.rack) (c.rack)
          (register_rack_from_dict-register_rack_to_dict c.rack))
        (record { same = refl }))).same

pub modbus_from_dict-modbus_to_dict :
    (p : Python) (int_law : (z : ℤ) → p.int_of (int z) ≡ converted z)
    (float_law : (x : Float) → p.float_of (float x) ≡ converted x) (c : ModbusConfig)
    → IsModbusConfig c
    → modbus_from_dict p (modbus_to_dict c) ≡ loaded c
unfolding modbus_from_dict modbus_to_dict
modbus_from_dict-modbus_to_dict p int_law float_law c (h_mode, h_port, h_timeout) =
    (bind-Ends (validate_enum c.mode modbus_modes "modbus.mode") c.mode _
      (validate_enum-loaded c.mode modbus_modes "modbus.mode" h_mode)
      (bind-Ends (validate_port p (int c.port) "modbus.port") c.port _
        (validate_port-loaded p int_law c.port "modbus.port" h_port)
        (bind-Ends (validate_type p.int_of (int_or_null c.unit_id) "modbus.unit_id") c.unit_id _
          (validate_int-loaded p int_law c.unit_id "modbus.unit_id")
          (bind-Ends (validate_positive p (float c.timeout) "modbus.timeout") c.timeout _
            (validate_positive-loaded p float_law c.timeout "modbus.timeout" h_timeout)
            (bind-Ends
              (section (modbus_defaults_from_dict) (dict (modbus_defaults_to_dict c.defaults)))
              (c.defaults) _
              (section-loaded (modbus_defaults_from_dict) (modbus_defaults_to_dict c.defaults)
                (c.defaults) (modbus_defaults_from_dict-modbus_defaults_to_dict c.defaults))
              (bind-Ends (validate_type p.int_of (int_or_null c.rack_count) "modbus.rack_count")
                c.rack_count _ (validate_int-loaded p int_law c.rack_count "modbus.rack_count")
                (bind-Ends (section (registers_from_dict) (dict (registers_to_dict c.registers)))
                  (c.registers) _
                  (section-loaded (registers_from_dict) (registers_to_dict c.registers)
                    (c.registers) (registers_from_dict-registers_to_dict c.registers))
                  (record { same = refl })))))))).same
