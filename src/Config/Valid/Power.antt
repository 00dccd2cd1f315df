-- ===== src/Config/Valid/Power.antt =====
-- What the readers of src/bms_2030_5_client/runtime_config.py let through: power control and logging.
use ieee2030_5_cold_client.Prelude.{◌≡◌, arith, Bool, true, false, not}
use ieee2030_5_cold_client.Prelude.Int.{pos}
use ieee2030_5_cold_client.Config.Values.{
  int, float, text, dict, Fields, no_fields, Python, get, whole, le_float,
}
use ieee2030_5_cold_client.Config.Checks.{
  in_port, is_positive, in_range_ℤ, in_range_float, is_member, log_levels, validate_enum,
  validate_port, validate_type, validate_positive, validate_log_level, validate_range_ℤ,
  validate_range_float, check, among,
}
use ieee2030_5_cold_client.Config.Parts.{section, power_control_modes}
use ieee2030_5_cold_client.Config.Power.{
  PcsModbusConfig, pcs_modbus_from_dict, pcs_registers_from_dict, PowerLimitsConfig,
  power_limits_from_dict, production_auth_from_dict, PowerControlConfig, power_control_from_dict,
  LoggingConfig, logging_from_dict,
}
use ieee2030_5_cold_client.Config.Power.{max_power_w}
use ieee2030_5_cold_client.Config.Checked.{
  Yields, loaded-Yields, any-Yields, bind-Yields, check-Yields, validate_port-Yields,
  validate_positive-Yields, validate_range_ℤ-Yields, validate_range_float-Yields,
  validate_log_level-Yields, validate_enum-Yields, section-Yields,
}

negated : (b : Bool) → not b ≡ true → b ≡ false
negated b h = ground (arith, h)

abbrev pub IsPcsModbusConfig : PcsModbusConfig → Type 0
IsPcsModbusConfig c = (in_port c.port ≡ true) × (is_positive c.timeout ≡ true)

pub pcs_modbus_from_dict-IsPcsModbusConfig :
    (p : Python) (d : Fields) → Yields (IsPcsModbusConfig) (pcs_modbus_from_dict p d)
unfolding pcs_modbus_from_dict
pcs_modbus_from_dict-IsPcsModbusConfig p d =
    bind-Yields (validate_port p (get "port" (int (pos 30623)) d) "pcs_modbus.port")
      (validate_port-Yields p (get "port" (int (pos 30623)) d) "pcs_modbus.port")
      (λ port h_port.
        bind-Yields (validate_type p.int_of (get "unit_id" (int (pos 1)) d) "pcs_modbus.unit_id")
          (any-Yields (validate_type p.int_of (get "unit_id" (int (pos 1)) d) "pcs_modbus.unit_id"))
          (λ unit_id h_unit_id.
            bind-Yields
              (validate_positive p (get "timeout" (float (whole 5)) d) "pcs_modbus.timeout")
              (validate_positive-Yields p (get "timeout" (float (whole 5)) d) "pcs_modbus.timeout")
              (λ timeout h_timeout. loaded-Yields (h_port, h_timeout))))

abbrev pub IsPowerLimitsConfig : PowerLimitsConfig → Type 0
IsPowerLimitsConfig c =
    (in_range_ℤ (pos 0) max_power_w c.max_charge_w ≡ true)
    × (in_range_ℤ (pos 0) max_power_w c.max_discharge_w ≡ true)
    × (in_range_ℤ (pos 1) max_power_w c.ramp_rate_w_per_s ≡ true)
    × (in_range_float (whole 0) (whole 100) c.min_soc_percent ≡ true)
    × (in_range_float (whole 0) (whole 100) c.max_soc_percent ≡ true)
    × (le_float c.max_soc_percent c.min_soc_percent ≡ false)

pub power_limits_from_dict-IsPowerLimitsConfig :
    (p : Python) (d : Fields) → Yields (IsPowerLimitsConfig) (power_limits_from_dict p d)
unfolding power_limits_from_dict
power_limits_from_dict-IsPowerLimitsConfig p d =
    bind-Yields
      (validate_range_float p (whole 0) (whole 100) (get "min_soc_percent" (float (whole 10)) d)
        "limits.min_soc_percent")
      (validate_range_float-Yields p (whole 0) (whole 100)
        (get "min_soc_percent" (float (whole 10)) d) "limits.min_soc_percent")
      (λ min_soc_percent h_min_soc_percent.
        bind-Yields
          (validate_range_float p (whole 0) (whole 100) (get "max_soc_percent" (float (whole 90)) d)
            "limits.max_soc_percent")
          (validate_range_float-Yields p (whole 0) (whole 100)
            (get "max_soc_percent" (float (whole 90)) d) "limits.max_soc_percent")
          (λ max_soc_percent h_max_soc_percent.
            bind-Yields
              (check (λ (u : Unit {0}). not (le_float max_soc_percent min_soc_percent))
                "limits.min_soc_percent" tt)
              (check-Yields (λ (u : Unit {0}). not (le_float max_soc_percent min_soc_percent))
                "limits.min_soc_percent" tt)
              (λ soc_order h_soc_order.
                bind-Yields
                  (validate_range_ℤ p (pos 0) max_power_w (get "max_charge_w" (int (pos 3000)) d)
                    "limits.max_charge_w")
                  (validate_range_ℤ-Yields p (pos 0) max_power_w
                    (get "max_charge_w" (int (pos 3000)) d) "limits.max_charge_w")
                  (λ max_charge_w h_max_charge_w.
                    bind-Yields
                      (validate_range_ℤ p (pos 0) max_power_w
                        (get "max_discharge_w" (int (pos 3000)) d) "limits.max_discharge_w")
                      (validate_range_ℤ-Yields p (pos 0) max_power_w
                        (get "max_discharge_w" (int (pos 3000)) d) "limits.max_discharge_w")
                      (λ max_discharge_w h_max_discharge_w.
                        bind-Yields
                          (validate_range_ℤ p (pos 1) max_power_w
                            (get "ramp_rate_w_per_s" (int (pos 3000)) d) "limits.ramp_rate_w_per_s")
                          (validate_range_ℤ-Yields p (pos 1) max_power_w
                            (get "ramp_rate_w_per_s" (int (pos 3000)) d) "limits.ramp_rate_w_per_s")
                          (λ ramp_rate_w_per_s h_ramp_rate_w_per_s. loaded-Yields (
                            h_max_charge_w,
                            h_max_discharge_w,
                            h_ramp_rate_w_per_s,
                            h_min_soc_percent,
                            h_max_soc_percent,
                            negated (le_float max_soc_percent min_soc_percent) h_soc_order,
                          )))))))

abbrev pub IsPowerControlConfig : PowerControlConfig → Type 0
IsPowerControlConfig c =
    (is_member power_control_modes c.mode ≡ true)
    × (IsPcsModbusConfig c.pcs_modbus)
    × (IsPowerLimitsConfig c.limits)

pub power_control_from_dict-IsPowerControlConfig :
    (p : Python) (d : Fields) → Yields (IsPowerControlConfig) (power_control_from_dict p d)
unfolding power_control_from_dict
power_control_from_dict-IsPowerControlConfig p d =
    bind-Yields
      (validate_enum (get "mode" (text "dry_run") d) power_control_modes "power_control.mode")
      (validate_enum-Yields (get "mode" (text "dry_run") d) power_control_modes
        "power_control.mode")
      (λ mode h_mode.
        bind-Yields (section (pcs_modbus_from_dict p) (get "pcs_modbus" (dict no_fields) d))
          (section-Yields (get "pcs_modbus" (dict no_fields) d)
            (λ e. pcs_modbus_from_dict-IsPcsModbusConfig p e))
          (λ pcs_modbus h_pcs_modbus.
            bind-Yields (section (pcs_registers_from_dict) (get "registers" (dict no_fields) d))
              (any-Yields (section (pcs_registers_from_dict) (get "registers" (dict no_fields) d)))
              (λ registers h_registers.
                bind-Yields
                  (validate_type p.float_of (get "power_scale_factor" (float (whole 1)) d)
                    "power_control.power_scale_factor")
                  (any-Yields (
                    validate_type p.float_of (get "power_scale_factor" (float (whole 1)) d)
                      "power_control.power_scale_factor"))
                  (λ power_scale_factor h_power_scale_factor.
                    bind-Yields
                      (section (power_limits_from_dict p) (get "limits" (dict no_fields) d))
                      (section-Yields (get "limits" (dict no_fields) d)
                        (λ e. power_limits_from_dict-IsPowerLimitsConfig p e))
                      (λ limits h_limits.
                        bind-Yields
                          (section (production_auth_from_dict)
                            (get "production_auth" (dict no_fields) d))
                          (any-Yields (
                            section (production_auth_from_dict)
                              (get "production_auth" (dict no_fields) d)))
                          (λ production_auth h_production_auth.
                            loaded-Yields (h_mode, h_pcs_modbus, h_limits)))))))

abbrev pub IsLoggingConfig : LoggingConfig → Type 0
IsLoggingConfig c = among c.level log_levels ≡ true

pub logging_from_dict-IsLoggingConfig :
    (p : Python) (d : Fields) → Yields (IsLoggingConfig) (logging_from_dict p d)
unfolding logging_from_dict
logging_from_dict-IsLoggingConfig p d =
    bind-Yields (validate_log_level p (get "level" (text "INFO") d) "logging.level")
      (validate_log_level-Yields p (get "level" (text "INFO") d) "logging.level")
      (λ level h_level.
        bind-Yields
          (validate_type p.int_of (get "buffer_size" (int (pos 500)) d) "logging.buffer_size")
          (any-Yields
            (validate_type p.int_of (get "buffer_size" (int (pos 500)) d) "logging.buffer_size"))
          (λ buffer_size h_buffer_size.
            bind-Yields
              (validate_type p.int_of (get "max_bytes" (int (pos 10485760)) d) "logging.max_bytes")
              (any-Yields (
                validate_type p.int_of (get "max_bytes" (int (pos 10485760)) d)
                  "logging.max_bytes"))
              (λ max_bytes h_max_bytes.
                bind-Yields
                  (validate_type p.int_of (get "backup_count" (int (pos 5)) d)
                    "logging.backup_count")
                  (any-Yields (
                    validate_type p.int_of (get "backup_count" (int (pos 5)) d)
                      "logging.backup_count"))
                  (λ backup_count h_backup_count. loaded-Yields (h_level)))))
