-- ===== src/Config/RoundTrip/Power.antt =====
-- Power control and logging of src/bms_2030_5_client/runtime_config.py,
-- written and read again.
use ieee2030_5_cold_client.Prelude.{◌≡◌, refl, ap, String, true, some, not}
use ieee2030_5_cold_client.Prelude.Int.{ℤ, pos}
use ieee2030_5_cold_client.Config.Values.{
  Float, int, float, text, dict, loaded, Python, converted, whole, le_float,
}
use ieee2030_5_cold_client.Config.Checks.{
  log_levels, validate_enum, validate_port, validate_type, validate_positive, validate_log_level,
  validate_range_ℤ, validate_range_float, check, among,
}
use ieee2030_5_cold_client.Config.Parts.{section, int_or_null, float_or_null, power_control_modes}
use ieee2030_5_cold_client.Config.Power.{
  PcsModbusConfig, pcs_modbus_from_dict, pcs_modbus_to_dict, PcsRegistersConfig,
  pcs_registers_from_dict, pcs_registers_to_dict, PowerLimitsConfig, power_limits_from_dict,
  power_limits_to_dict, ProductionAuthConfig, production_auth_from_dict, production_auth_to_dict,
  PowerControlConfig, power_control_from_dict, power_control_to_dict, LoggingConfig,
  logging_from_dict, logging_to_dict,
}
use ieee2030_5_cold_client.Config.Power.{max_power_w}
use ieee2030_5_cold_client.Config.Valid.Power.{
  IsPcsModbusConfig, IsPowerLimitsConfig, IsPowerControlConfig, IsLoggingConfig,
}
use ieee2030_5_cold_client.Config.Accepts.{
  bind-Ends, check-loaded, validate_enum-loaded, validate_port-loaded, validate_range_ℤ-loaded,
  validate_int-loaded, validate_positive-loaded, validate_range_float-loaded, validate_float-loaded,
  validate_log_level-loaded, section-loaded,
}

pub pcs_modbus_from_dict-pcs_modbus_to_dict :
    (p : Python) (int_law : (z : ℤ) → p.int_of (int z) ≡ converted z)
    (float_law : (x : Float) → p.float_of (float x) ≡ converted x) (c : PcsModbusConfig)
    → IsPcsModbusConfig c
    → pcs_modbus_from_dict p (pcs_modbus_to_dict c) ≡ loaded c
unfolding pcs_modbus_from_dict pcs_modbus_to_dict
pcs_modbus_from_dict-pcs_modbus_to_dict p int_law float_law c (h_port, h_timeout) =
    (bind-Ends (validate_port p (int c.port) "pcs_modbus.port") c.port _
      (validate_port-loaded p int_law c.port "pcs_modbus.port" h_port)
      (bind-Ends (validate_type p.int_of (int_or_null c.unit_id) "pcs_modbus.unit_id") c.unit_id _
        (validate_int-loaded p int_law c.unit_id "pcs_modbus.unit_id")
        (bind-Ends (validate_positive p (float c.timeout) "pcs_modbus.timeout") c.timeout _
          (validate_positive-loaded p float_law c.timeout "pcs_modbus.timeout" h_timeout)
          (record { same = refl })))).same

pub pcs_registers_from_dict-pcs_registers_to_dict :
    (c : PcsRegistersConfig) → pcs_registers_from_dict (pcs_registers_to_dict c) ≡ loaded c
unfolding pcs_registers_from_dict pcs_registers_to_dict
pcs_registers_from_dict-pcs_registers_to_dict c = refl

pub power_limits_from_dict-power_limits_to_dict :
    (p : Python) (int_law : (z : ℤ) → p.int_of (int z) ≡ converted z)
    (float_law : (x : Float) → p.float_of (float x) ≡ converted x) (c : PowerLimitsConfig)
    → IsPowerLimitsConfig c
    → power_limits_from_dict p (power_limits_to_dict c) ≡ loaded c
unfolding power_limits_from_dict power_limits_to_dict
power_limits_from_dict-power_limits_to_dict p int_law float_law c
      (
        h_max_charge_w, h_max_discharge_w, h_ramp_rate_w_per_s, h_min_soc_percent,
        h_max_soc_percent, h_soc_order,
      ) =
    (bind-Ends
      (validate_range_float p (whole 0) (whole 100) (float c.min_soc_percent)
        "limits.min_soc_percent")
      c.min_soc_percent _
      (validate_range_float-loaded p float_law (whole 0) (whole 100) c.min_soc_percent
        "limits.min_soc_percent" h_min_soc_percent)
      (bind-Ends
        (validate_range_float p (whole 0) (whole 100) (float c.max_soc_percent)
          "limits.max_soc_percent")
        c.max_soc_percent _
        (validate_range_float-loaded p float_law (whole 0) (whole 100) c.max_soc_percent
          "limits.max_soc_percent" h_max_soc_percent)
        (bind-Ends
          (check (λ (u : Unit {0}). not (le_float c.max_soc_percent c.min_soc_percent))
            "limits.min_soc_percent" tt)
          tt _
          (check-loaded (λ (u : Unit {0}). not (le_float c.max_soc_percent c.min_soc_percent))
            "limits.min_soc_percent" tt (ap not h_soc_order))
          (bind-Ends
            (validate_range_ℤ p (pos 0) max_power_w (int c.max_charge_w) "limits.max_charge_w")
            c.max_charge_w _
            (validate_range_ℤ-loaded p int_law (pos 0) max_power_w c.max_charge_w
              "limits.max_charge_w" h_max_charge_w)
            (bind-Ends
              (validate_range_ℤ p (pos 0) max_power_w (int c.max_discharge_w)
                "limits.max_discharge_w")
              c.max_discharge_w _
              (validate_range_ℤ-loaded p int_law (pos 0) max_power_w c.max_discharge_w
                "limits.max_discharge_w" h_max_discharge_w)
              (bind-Ends
                (validate_range_ℤ p (pos 1) max_power_w (int c.ramp_rate_w_per_s)
                  "limits.ramp_rate_w_per_s")
                c.ramp_rate_w_per_s _
                (validate_range_ℤ-loaded p int_law (pos 1) max_power_w c.ramp_rate_w_per_s
                  "limits.ramp_rate_w_per_s" h_ramp_rate_w_per_s)
                (record { same = refl }))))))).same

pub production_auth_from_dict-production_auth_to_dict :
    (c : ProductionAuthConfig) → production_auth_from_dict (production_auth_to_dict c) ≡ loaded c
unfolding production_auth_from_dict production_auth_to_dict
production_auth_from_dict-production_auth_to_dict c = refl

pub power_control_from_dict-power_control_to_dict :
    (p : Python) (int_law : (z : ℤ) → p.int_of (int z) ≡ converted z)
    (float_law : (x : Float) → p.float_of (float x) ≡ converted x) (c : PowerControlConfig)
    → IsPowerControlConfig c
    → power_control_from_dict p (power_control_to_dict c) ≡ loaded c
unfolding power_control_from_dict power_control_to_dict
power_control_from_dict-power_control_to_dict p int_law float_law c
      (h_mode, h_pcs_modbus, h_limits) =
    (bind-Ends (validate_enum c.mode power_control_modes "power_control.mode") c.mode _
      (validate_enum-loaded c.mode power_control_modes "power_control.mode" h_mode)
      (bind-Ends (section (pcs_modbus_from_dict p) (dict (pcs_modbus_to_dict c.pcs_modbus)))
        (c.pcs_modbus) _
        (section-loaded (pcs_modbus_from_dict p) (pcs_modbus_to_dict c.pcs_modbus) (c.pcs_modbus)
          (pcs_modbus_from_dict-pcs_modbus_to_dict p int_law float_law c.pcs_modbus h_pcs_modbus))
        (bind-Ends (section (pcs_registers_from_dict) (dict (pcs_registers_to_dict c.registers)))
          (c.registers) _
          (section-loaded (pcs_registers_from_dict) (pcs_registers_to_dict c.registers)
            (c.registers) (pcs_registers_from_dict-pcs_registers_to_dict c.registers))
          (bind-Ends
            (validate_type p.float_of (float_or_null c.power_scale_factor)
              "power_control.power_scale_factor")
            c.power_scale_factor _
            (validate_float-loaded p float_law c.power_scale_factor
              "power_control.power_scale_factor")
            (bind-Ends (section (power_limits_from_dict p) (dict (power_limits_to_dict c.limits)))
              (c.limits) _
              (section-loaded (power_limits_from_dict p) (power_limits_to_dict c.limits) (c.limits)
                (power_limits_from_dict-power_limits_to_dict p int_law float_law c.limits h_limits))
              (bind-Ends
                (section (production_auth_from_dict)
                  (dict (production_auth_to_dict c.production_auth)))
                (c.production_auth) _
                (section-loaded (production_auth_from_dict)
                  (production_auth_to_dict c.production_auth) (c.production_auth)
                  (production_auth_from_dict-production_auth_to_dict c.production_auth))
                (record { same = refl }))))))).same

-- `to_dict` writes no `max_bytes` and no `backup_count`.
abbrev pub reset_rotation : LoggingConfig → LoggingConfig
reset_rotation c = record c { max_bytes = some (pos 10485760); backup_count = some (pos 5) }

pub logging_from_dict-logging_to_dict :
    (p : Python) (int_law : (z : ℤ) → p.int_of (int z) ≡ converted z)
    (upper_law : (s : String) → among s log_levels ≡ true → p.upper_of (text s) ≡ s)
    (c : LoggingConfig)
    → IsLoggingConfig c
    → logging_from_dict p (logging_to_dict c) ≡ loaded (reset_rotation c)
unfolding logging_from_dict logging_to_dict
logging_from_dict-logging_to_dict p int_law upper_law c h_level =
    (bind-Ends (validate_log_level p (text c.level) "logging.level") c.level _
      (validate_log_level-loaded p c.level "logging.level" (upper_law c.level h_level) h_level)
      (bind-Ends (validate_type p.int_of (int_or_null c.buffer_size) "logging.buffer_size")
        c.buffer_size _ (validate_int-loaded p int_law c.buffer_size "logging.buffer_size")
        (bind-Ends (validate_type p.int_of (int (pos 10485760)) "logging.max_bytes")
          (some (pos 10485760)) _
          (validate_int-loaded p int_law (some (pos 10485760)) "logging.max_bytes")
          (bind-Ends (validate_type p.int_of (int (pos 5)) "logging.backup_count") (some (pos 5)) _
            (validate_int-loaded p int_law (some (pos 5)) "logging.backup_count")
            (record { same = refl }))))).same
