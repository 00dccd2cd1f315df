-- ===== src/Tests/Configs.antt =====
-- The theorems on src/bms_2030_5_client/runtime_config.py at the configuration of one profile and at that of a
-- dictionary with a rotation of its logs.
use ieee2030_5_cold_client.Prelude.{
  returned, Bool, not, String, ◌||◌, ◌≡◌, refl, true, false, none, some, [], ◌∷◌, if◌then◌else◌,
  str_eq,
}
use ieee2030_5_cold_client.Prelude.Int.{pos}
use ieee2030_5_cold_client.Config.Values.{
  no_fields, Value, null, bool, int, float, text, list, dict, no_items, item, Fields, loaded,
  Python, converted, refused, overflow, unit, lt_float, fields, whole, le_float,
}
use ieee2030_5_cold_client.Config.Checks.{
  validate_enum, validate_port, validate_url, validate_type, validate_positive, validate_log_level,
  validate_range_ℤ, validate_range_float, warn_tls_path, each, each_item,
}
use ieee2030_5_cold_client.Power.FromRuntime.{
  power_limits_of, create_power_controller_from_runtime, is_returned, is_nan,
  power_limits_of-power_limits_from_dict,
}
use ieee2030_5_cold_client.Power.Unlock.{text as lock_text, absent, signed, create_lockfile}
use ieee2030_5_cold_client.Power.UnlockCli.{Arguments, load_safety_token, main, Left, main-Left}
use ieee2030_5_cold_client.Config.Laws.{runtime_from_dict_sound, runtime_reload}
use ieee2030_5_cold_client.Config.Checks.{validate_enum}
use ieee2030_5_cold_client.Config.Parts.{section, section_or, section_if}
use ieee2030_5_cold_client.Config.Sections.{
  ProfileConfig, profile_from_dict, ModbusDefaults, modbus_defaults_from_dict, RegisterSystemConfig,
  register_system_from_dict, RegisterRackConfig, register_rack_from_dict, RegistersConfig,
  registers_from_dict, ModbusConfig, modbus_from_dict,
}
use ieee2030_5_cold_client.Config.Targets.{NotificationServerConfig, notification_server_from_dict}
use ieee2030_5_cold_client.Config.Power.{
  PcsModbusConfig, pcs_modbus_from_dict, PcsRegistersConfig, pcs_registers_from_dict,
  PowerLimitsConfig, power_limits_from_dict, ProductionAuthConfig, production_auth_from_dict,
  PowerControlConfig, power_control_from_dict, LoggingConfig, logging_from_dict,
}
use ieee2030_5_cold_client.Config.Runtime.{RuntimeConfig, runtime_from_dict, runtime_to_dict}
use ieee2030_5_cold_client.Config.Sections.{default_tls}
use ieee2030_5_cold_client.Config.Valid.Runtime.{IsRuntimeConfig}

abbrev pub default_modbus_defaults : ModbusDefaults
default_modbus_defaults = record {
  function_code_read = int (pos 3);
  function_code_write = int (pos 6);
}

abbrev pub default_register_system : RegisterSystemConfig
default_register_system = record { base_address = int (pos 3999); count = int (pos 100) }

abbrev pub default_register_rack : RegisterRackConfig
default_register_rack = record {
  base_address = int (pos 6999);
  offset = int (pos 30);
  max_racks = int (pos 24);
}

abbrev pub default_registers : RegistersConfig
default_registers = record { system = default_register_system; rack = default_register_rack }

abbrev pub default_modbus : ModbusConfig
default_modbus = record {
  mode = text "tcp";
  host = text "192.168.1.187";
  port = pos 502;
  unit_id = some (pos 1);
  timeout = whole 5;
  defaults = default_modbus_defaults;
  rack_count = some (pos 4);
  registers = default_registers;
}

abbrev pub default_notification_server : NotificationServerConfig
default_notification_server = record {
  enabled = bool false;
  listen_host = text "0.0.0.0";
  listen_port = pos 8443;
  tls_server_enabled = bool true;
  tls_server_cert_path = text "certs/server.crt";
  tls_server_key_path = text "certs/server.key";
  tls_require_client_cert = bool false;
  tls_client_ca_path = text "certs/server_ca.crt";
  endpoint_path = text "/notify";
  public_uri = text "";
}

abbrev pub default_pcs_modbus : PcsModbusConfig
default_pcs_modbus = record {
  host = text "mainline.proxy.rlwy.net";
  port = pos 30623;
  unit_id = some (pos 1);
  timeout = whole 5;
}

abbrev pub default_pcs_registers : PcsRegistersConfig
default_pcs_registers = record {
  power_setpoint = int (pos 40001);
  power_setpoint_high = int (pos 40002);
  operation_mode = int (pos 40010);
  enable_control = int (pos 40011);
  actual_power = int (pos 40100);
  operation_status = int (pos 40101);
  error_code = int (pos 40102);
}

abbrev pub default_power_limits : PowerLimitsConfig
default_power_limits = record {
  max_charge_w = pos 3000;
  max_discharge_w = pos 3000;
  ramp_rate_w_per_s = pos 3000;
  min_soc_percent = whole 10;
  max_soc_percent = whole 90;
}

abbrev pub default_production_auth : ProductionAuthConfig
default_production_auth = record { safety_token = text ""; confirm_production = bool false }

abbrev pub default_power_control : PowerControlConfig
default_power_control = record {
  mode = text "dry_run";
  pcs_modbus = default_pcs_modbus;
  registers = default_pcs_registers;
  datatype = text "uint16";
  power_scale_factor = some (whole 1);
  use_32bit = bool false;
  verify_after_write = bool true;
  limits = default_power_limits;
  production_auth = default_production_auth;
}

abbrev pub default_logging : LoggingConfig
default_logging = record {
  level = "INFO";
  format = text "%(asctime)s - %(name)s - %(levelname)s - %(message)s";
  file = null;
  buffer_size = some (pos 500);
  max_bytes = some (pos 10485760);
  backup_count = some (pos 5);
}

abbrev python : Python
python = record {
  int_of = λ v. elim v [ int z ↦ converted z | null ↦ refused | _ ↦ overflow ];
  float_of = λ v. elim v [ float x ↦ converted x | null ↦ refused | _ ↦ overflow ];
  upper_of = λ v. elim v [ text s ↦ s | _ ↦ "" ];
  url_parts = λ v. elim v [
    | text s ↦ (if str_eq s "https://utility:7443" then some ("https", "utility:7443") else none)
    | _ ↦ none
  ];
}

-- A profile, and a rotation of the logs that is not the default.
abbrev document : Fields
document = fields (
    (
      "profiles",
      list (
          item
            (dict (
              fields
                (("name", text "utility") ∷ ("server_base_url", text "https://utility:7443") ∷ [])))
            no_items),
    )
    ∷ ("logging", dict (fields (("max_bytes", int (pos 1000)) ∷ [])))
    ∷ [])

abbrev utility : ProfileConfig
utility = record {
  name = text "utility";
  server_base_url = text "https://utility:7443";
  tls = default_tls;
  content_type_preference = text "application/sep+xml";
  device_id = text "bms-client-001";
  pin = some (pos 12345);
}

abbrev rotated : LoggingConfig
rotated = record default_logging { max_bytes = some (pos 1000) }

abbrev configuration : RuntimeConfig
configuration = record {
  profiles = utility ∷ [];
  modbus = default_modbus;
  poll_targets = [];
  subscriptions = [];
  notification_server = default_notification_server;
  power_control = default_power_control;
  logging = rotated;
}

document_loads : runtime_from_dict python document ≡ loaded configuration
unfolding profile_from_dict modbus_defaults_from_dict register_system_from_dict
    register_rack_from_dict registers_from_dict modbus_from_dict notification_server_from_dict
    pcs_modbus_from_dict pcs_registers_from_dict power_limits_from_dict production_auth_from_dict
    power_control_from_dict logging_from_dict runtime_from_dict validate_enum validate_port
    validate_url validate_type validate_positive validate_log_level validate_range_ℤ
    validate_range_float warn_tls_path each each_item section section_or section_if le_float
    lt_float unit
document_loads = refl

runtime_from_dict_sound_example : IsRuntimeConfig python configuration
runtime_from_dict_sound_example =
    runtime_from_dict_sound python document configuration document_loads

runtime_reload_example :
    runtime_from_dict python (runtime_to_dict configuration)
    ≡ loaded (record configuration { logging = default_logging })
runtime_reload_example =
    runtime_reload python (λ z. refl) (λ x. refl) (λ s h. refl) document configuration
      document_loads

limits_load : power_limits_from_dict python no_fields ≡ loaded default_power_limits
unfolding power_limits_from_dict validate_range_ℤ validate_range_float le_float lt_float unit
limits_load = refl

power_limits_of-power_limits_from_dict_example :
    let usable = not (
      is_nan default_power_limits.min_soc_percent || is_nan default_power_limits.max_soc_percent) in
    (is_returned (power_limits_of default_power_limits) ≡ usable)
    × (is_returned (
          create_power_controller_from_runtime "dry_run" none default_power_limits ""
            (λ t. returned false))
        ≡ usable)
power_limits_of-power_limits_from_dict_example =
    power_limits_of-power_limits_from_dict python no_fields default_power_limits none ""
      (λ t. returned false) limits_load

abbrev unlock_config : Value
unlock_config = dict (
    fields (
      (
        "power_control",
        dict (
            fields
              (("production_auth", dict (fields (("safety_token", text "s3cret") ∷ []))) ∷ [])),
      )
      ∷ []))

abbrev no_arguments : Arguments
no_arguments = record { status = false; revoke = false }

abbrev signature : String → String → String → String
signature token hostname timestamp = "5e884898"

abbrev same_text : String → String → Bool
same_text a b = str_eq a b

unlocked :
    main signature same_text no_arguments
      (some unlock_config)
      "bms-01"
      "2026-01-01T00:00:00"
      "YES"
      absent
    ≡ loaded
        (0, signed (lock_text "bms-01") (lock_text "2026-01-01T00:00:00") (lock_text "5e884898"))
unfolding main load_safety_token create_lockfile
unlocked = refl

main-Left_example :
    Left signature same_text "bms-01" "2026-01-01T00:00:00" "YES" absent
      (0, signed (lock_text "bms-01") (lock_text "2026-01-01T00:00:00") (lock_text "5e884898"))
main-Left_example =
    main-Left signature same_text no_arguments (some unlock_config) "bms-01" "2026-01-01T00:00:00"
      "YES" absent
      (0, signed (lock_text "bms-01") (lock_text "2026-01-01T00:00:00") (lock_text "5e884898"))
      unlocked
