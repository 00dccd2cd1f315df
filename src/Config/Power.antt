-- ===== src/Config/Power.antt =====
-- The power control and the logging of src/bms_2030_5_client/runtime_config.py.
use ieee2030_5_cold_client.Prelude.{String, true, false, Option, [], ◌∷◌, not}
use ieee2030_5_cold_client.Prelude.Int.{ℤ, pos}
use ieee2030_5_cold_client.Config.Values.{
  Float, Value, null, bool, int, float, text, dict, Fields, no_fields, Loaded, loaded, ◌>>=◌, ◌>>◌,
  Python, get, fields, whole, le_float,
}
use ieee2030_5_cold_client.Config.Checks.{
  validate_enum, validate_port, validate_type, validate_positive, validate_log_level,
  validate_range_ℤ, validate_range_float, check,
}
use ieee2030_5_cold_client.Config.Parts.{section, int_or_null, float_or_null, power_control_modes}

pub record PcsModbusConfig : Type 0 where
  pub host : Value
  pub port : ℤ
  pub unit_id : Option ℤ
  pub timeout : Float

unfoldable pub pcs_modbus_from_dict : Python → Fields → Loaded PcsModbusConfig
pcs_modbus_from_dict p d = do
  port ← validate_port p (get "port" (int (pos 30623)) d) "pcs_modbus.port"
  unit_id ← validate_type p.int_of (get "unit_id" (int (pos 1)) d) "pcs_modbus.unit_id"
  timeout ← validate_positive p (get "timeout" (float (whole 5)) d) "pcs_modbus.timeout"
  loaded (record {
    host = get "host" (text "mainline.proxy.rlwy.net") d;
    port = port;
    unit_id = unit_id;
    timeout = timeout;
  })

unfoldable pub pcs_modbus_to_dict : PcsModbusConfig → Fields
pcs_modbus_to_dict c = fields (
    ("host", c.host)
    ∷ ("port", int c.port)
    ∷ ("unit_id", int_or_null c.unit_id)
    ∷ ("timeout", float c.timeout)
    ∷ [])

pub record PcsRegistersConfig : Type 0 where
  pub power_setpoint : Value
  pub power_setpoint_high : Value
  pub operation_mode : Value
  pub enable_control : Value
  pub actual_power : Value
  pub operation_status : Value
  pub error_code : Value

unfoldable pub pcs_registers_from_dict : Fields → Loaded PcsRegistersConfig
pcs_registers_from_dict d = loaded (record {
  power_setpoint = get "power_setpoint" (int (pos 40001)) d;
  power_setpoint_high = get "power_setpoint_high" (int (pos 40002)) d;
  operation_mode = get "operation_mode" (int (pos 40010)) d;
  enable_control = get "enable_control" (int (pos 40011)) d;
  actual_power = get "actual_power" (int (pos 40100)) d;
  operation_status = get "operation_status" (int (pos 40101)) d;
  error_code = get "error_code" (int (pos 40102)) d;
})

unfoldable pub pcs_registers_to_dict : PcsRegistersConfig → Fields
pcs_registers_to_dict c = fields (
    ("power_setpoint", c.power_setpoint)
    ∷ ("power_setpoint_high", c.power_setpoint_high)
    ∷ ("operation_mode", c.operation_mode)
    ∷ ("enable_control", c.enable_control)
    ∷ ("actual_power", c.actual_power)
    ∷ ("operation_status", c.operation_status)
    ∷ ("error_code", c.error_code)
    ∷ [])

-- `_MAX_POWER_W`, 10 MW.
abbrev pub max_power_w : ℤ
max_power_w = pos 10000000

pub record PowerLimitsConfig : Type 0 where
  pub max_charge_w : ℤ
  pub max_discharge_w : ℤ
  pub ramp_rate_w_per_s : ℤ
  pub min_soc_percent : Float
  pub max_soc_percent : Float

unfoldable pub power_limits_from_dict : Python → Fields → Loaded PowerLimitsConfig
power_limits_from_dict p d = do
  min_soc_percent ←
      validate_range_float p (whole 0) (whole 100) (get "min_soc_percent" (float (whole 10)) d)
        "limits.min_soc_percent"
  max_soc_percent ←
      validate_range_float p (whole 0) (whole 100) (get "max_soc_percent" (float (whole 90)) d)
        "limits.max_soc_percent"
  check (λ (u : Unit {0}). not (le_float max_soc_percent min_soc_percent)) "limits.min_soc_percent"
      tt
  max_charge_w ←
      validate_range_ℤ p (pos 0) max_power_w (get "max_charge_w" (int (pos 3000)) d)
        "limits.max_charge_w"
  max_discharge_w ←
      validate_range_ℤ p (pos 0) max_power_w (get "max_discharge_w" (int (pos 3000)) d)
        "limits.max_discharge_w"
  ramp_rate_w_per_s ←
      validate_range_ℤ p (pos 1) max_power_w (get "ramp_rate_w_per_s" (int (pos 3000)) d)
        "limits.ramp_rate_w_per_s"
  loaded (record {
    max_charge_w = max_charge_w;
    max_discharge_w = max_discharge_w;
    ramp_rate_w_per_s = ramp_rate_w_per_s;
    min_soc_percent = min_soc_percent;
    max_soc_percent = max_soc_percent;
  })

unfoldable pub power_limits_to_dict : PowerLimitsConfig → Fields
power_limits_to_dict c = fields (
    ("max_charge_w", int c.max_charge_w)
    ∷ ("max_discharge_w", int c.max_discharge_w)
    ∷ ("ramp_rate_w_per_s", int c.ramp_rate_w_per_s)
    ∷ ("min_soc_percent", float c.min_soc_percent)
    ∷ ("max_soc_percent", float c.max_soc_percent)
    ∷ [])

pub record ProductionAuthConfig : Type 0 where
  pub safety_token : Value
  pub confirm_production : Value

unfoldable pub production_auth_from_dict : Fields → Loaded ProductionAuthConfig
production_auth_from_dict d = loaded (record {
  safety_token = get "safety_token" (text "") d;
  confirm_production = get "confirm_production" (bool false) d;
})

unfoldable pub production_auth_to_dict : ProductionAuthConfig → Fields
production_auth_to_dict c =
    fields (("safety_token", c.safety_token) ∷ ("confirm_production", c.confirm_production) ∷ [])

pub record PowerControlConfig : Type 0 where
  pub mode : Value
  pub pcs_modbus : PcsModbusConfig
  pub registers : PcsRegistersConfig
  pub datatype : Value
  pub power_scale_factor : Option Float
  pub use_32bit : Value
  pub verify_after_write : Value
  pub limits : PowerLimitsConfig
  pub production_auth : ProductionAuthConfig

unfoldable pub power_control_from_dict : Python → Fields → Loaded PowerControlConfig
power_control_from_dict p d = do
  mode ← validate_enum (get "mode" (text "dry_run") d) power_control_modes "power_control.mode"
  pcs_modbus ← section (pcs_modbus_from_dict p) (get "pcs_modbus" (dict no_fields) d)
  registers ← section (pcs_registers_from_dict) (get "registers" (dict no_fields) d)
  power_scale_factor ←
      validate_type p.float_of (get "power_scale_factor" (float (whole 1)) d)
        "power_control.power_scale_factor"
  limits ← section (power_limits_from_dict p) (get "limits" (dict no_fields) d)
  production_auth ← section (production_auth_from_dict) (get "production_auth" (dict no_fields) d)
  loaded (record {
    mode = mode;
    pcs_modbus = pcs_modbus;
    registers = registers;
    datatype = get "datatype" (text "uint16") d;
    power_scale_factor = power_scale_factor;
    use_32bit = get "use_32bit" (bool false) d;
    verify_after_write = get "verify_after_write" (bool true) d;
    limits = limits;
    production_auth = production_auth;
  })

unfoldable pub power_control_to_dict : PowerControlConfig → Fields
power_control_to_dict c = fields (
    ("mode", c.mode)
    ∷ ("pcs_modbus", dict (pcs_modbus_to_dict c.pcs_modbus))
    ∷ ("registers", dict (pcs_registers_to_dict c.registers))
    ∷ ("datatype", c.datatype)
    ∷ ("power_scale_factor", float_or_null c.power_scale_factor)
    ∷ ("use_32bit", c.use_32bit)
    ∷ ("verify_after_write", c.verify_after_write)
    ∷ ("limits", dict (power_limits_to_dict c.limits))
    ∷ ("production_auth", dict (production_auth_to_dict c.production_auth))
    ∷ [])

pub record LoggingConfig : Type 0 where
  pub level : String
  pub format : Value
  pub file : Value
  pub buffer_size : Option ℤ
  pub max_bytes : Option ℤ
  pub backup_count : Option ℤ

unfoldable pub logging_from_dict : Python → Fields → Loaded LoggingConfig
logging_from_dict p d = do
  level ← validate_log_level p (get "level" (text "INFO") d) "logging.level"
  buffer_size ← validate_type p.int_of (get "buffer_size" (int (pos 500)) d) "logging.buffer_size"
  max_bytes ← validate_type p.int_of (get "max_bytes" (int (pos 10485760)) d) "logging.max_bytes"
  backup_count ← validate_type p.int_of (get "backup_count" (int (pos 5)) d) "logging.backup_count"
  loaded (record {
    level = level;
    format = get "format" (text "%(asctime)s - %(name)s - %(levelname)s - %(message)s") d;
    file = get "file" (null) d;
    buffer_size = buffer_size;
    max_bytes = max_bytes;
    backup_count = backup_count;
  })

unfoldable pub logging_to_dict : LoggingConfig → Fields
logging_to_dict c = fields (
    ("level", text c.level)
    ∷ ("format", c.format)
    ∷ ("file", c.file)
    ∷ ("buffer_size", int_or_null c.buffer_size)
    ∷ [])
