-- ===== src/Config/Sections.antt =====
-- The server profiles and the Modbus settings of src/bms_2030_5_client/runtime_config.py: each class with its
-- `from_dict`, and its part of `to_dict`.
use ieee2030_5_cold_client.Prelude.{true, Option, [], ◌∷◌}
use ieee2030_5_cold_client.Prelude.Int.{ℤ, pos}
use ieee2030_5_cold_client.Config.Values.{
  Float, Value, bool, int, float, text, dict, Fields, no_fields, Loaded, loaded, ◌>>=◌, Python, get,
  fields, whole,
}
use ieee2030_5_cold_client.Config.Checks.{
  validate_enum, validate_port, validate_url, validate_type, validate_positive, warn_tls_path,
}
use ieee2030_5_cold_client.Config.Parts.{
  section, section_or, int_or_null, content_types, modbus_modes,
}

pub record TlsConfig : Type 0 where
  pub client_cert_path : Value
  pub client_key_path : Value
  pub ca_bundle_path : Value
  pub verify_server : Value

unfoldable pub tls_from_dict : Fields → Loaded TlsConfig
tls_from_dict d = do
  client_cert_path ← warn_tls_path (get "client_cert_path" (text "certs/client.crt") d)
  client_key_path ← warn_tls_path (get "client_key_path" (text "certs/client.key") d)
  ca_bundle_path ← warn_tls_path (get "ca_bundle_path" (text "certs/ca.crt") d)
  loaded (record {
    client_cert_path = client_cert_path;
    client_key_path = client_key_path;
    ca_bundle_path = ca_bundle_path;
    verify_server = get "verify_server" (bool true) d;
  })

unfoldable pub tls_to_dict : TlsConfig → Fields
tls_to_dict c = fields (
    ("client_cert_path", c.client_cert_path)
    ∷ ("client_key_path", c.client_key_path)
    ∷ ("ca_bundle_path", c.ca_bundle_path)
    ∷ ("verify_server", c.verify_server)
    ∷ [])

abbrev pub default_tls : TlsConfig
default_tls = record {
  client_cert_path = text "certs/client.crt";
  client_key_path = text "certs/client.key";
  ca_bundle_path = text "certs/ca.crt";
  verify_server = bool true;
}

pub record ProfileConfig : Type 0 where
  pub name : Value
  pub server_base_url : Value
  pub tls : TlsConfig
  pub content_type_preference : Value
  pub device_id : Value
  pub pin : Option ℤ

unfoldable pub profile_from_dict : Python → Fields → Loaded ProfileConfig
profile_from_dict p d = do
  server_base_url ←
      validate_url p (get "server_base_url" (text "https://localhost:7443") d)
        "profile.server_base_url"
  content_type_preference ←
      validate_enum (get "content_type_preference" (text "application/sep+xml") d) content_types
        "profile.content_type_preference"
  tls ← section_or default_tls (tls_from_dict) (get "tls" (dict no_fields) d)
  pin ← validate_type p.int_of (get "pin" (int (pos 12345)) d) "profile.pin"
  loaded (record {
    name = get "name" (text "default") d;
    server_base_url = server_base_url;
    tls = tls;
    content_type_preference = content_type_preference;
    device_id = get "device_id" (text "bms-client-001") d;
    pin = pin;
  })

unfoldable pub profile_to_dict : ProfileConfig → Fields
profile_to_dict c = fields (
    ("name", c.name)
    ∷ ("server_base_url", c.server_base_url)
    ∷ ("tls", dict (tls_to_dict c.tls))
    ∷ ("content_type_preference", c.content_type_preference)
    ∷ ("device_id", c.device_id)
    ∷ ("pin", int_or_null c.pin)
    ∷ [])

pub record ModbusDefaults : Type 0 where
  pub function_code_read : Value
  pub function_code_write : Value

unfoldable pub modbus_defaults_from_dict : Fields → Loaded ModbusDefaults
modbus_defaults_from_dict d = loaded (record {
  function_code_read = get "function_code_read" (int (pos 3)) d;
  function_code_write = get "function_code_write" (int (pos 6)) d;
})

unfoldable pub modbus_defaults_to_dict : ModbusDefaults → Fields
modbus_defaults_to_dict c = fields (
    ("function_code_read", c.function_code_read)
    ∷ ("function_code_write", c.function_code_write)
    ∷ [])

pub record RegisterSystemConfig : Type 0 where
  pub base_address : Value
  pub count : Value

unfoldable pub register_system_from_dict : Fields → Loaded RegisterSystemConfig
register_system_from_dict d = loaded (record {
  base_address = get "base_address" (int (pos 3999)) d;
  count = get "count" (int (pos 100)) d;
})

unfoldable pub register_system_to_dict : RegisterSystemConfig → Fields
register_system_to_dict c = fields (("base_address", c.base_address) ∷ ("count", c.count) ∷ [])

pub record RegisterRackConfig : Type 0 where
  pub base_address : Value
  pub offset : Value
  pub max_racks : Value

unfoldable pub register_rack_from_dict : Fields → Loaded RegisterRackConfig
register_rack_from_dict d = loaded (record {
  base_address = get "base_address" (int (pos 6999)) d;
  offset = get "offset" (int (pos 30)) d;
  max_racks = get "max_racks" (int (pos 24)) d;
})

unfoldable pub register_rack_to_dict : RegisterRackConfig → Fields
register_rack_to_dict c =
    fields
      (("base_address", c.base_address) ∷ ("offset", c.offset) ∷ ("max_racks", c.max_racks) ∷ [])

pub record RegistersConfig : Type 0 where
  pub system : RegisterSystemConfig
  pub rack : RegisterRackConfig

unfoldable pub registers_from_dict : Fields → Loaded RegistersConfig
registers_from_dict d = do
  system ← section (register_system_from_dict) (get "system" (dict no_fields) d)
  rack ← section (register_rack_from_dict) (get "rack" (dict no_fields) d)
  loaded (record { system = system; rack = rack })

unfoldable pub registers_to_dict : RegistersConfig → Fields
registers_to_dict c = fields (
    ("system", dict (register_system_to_dict c.system))
    ∷ ("rack", dict (register_rack_to_dict c.rack))
    ∷ [])

pub record ModbusConfig : Type 0 where
  pub mode : Value
  pub host : Value
  pub port : ℤ
  pub unit_id : Option ℤ
  pub timeout : Float
  pub defaults : ModbusDefaults
  pub rack_count : Option ℤ
  pub registers : RegistersConfig

unfoldable pub modbus_from_dict : Python → Fields → Loaded ModbusConfig
modbus_from_dict p d = do
  mode ← validate_enum (get "mode" (text "tcp") d) modbus_modes "modbus.mode"
  port ← validate_port p (get "port" (int (pos 502)) d) "modbus.port"
  unit_id ← validate_type p.int_of (get "unit_id" (int (pos 1)) d) "modbus.unit_id"
  timeout ← validate_positive p (get "timeout" (float (whole 5)) d) "modbus.timeout"
  defaults ← section (modbus_defaults_from_dict) (get "defaults" (dict no_fields) d)
  rack_count ← validate_type p.int_of (get "rack_count" (int (pos 4)) d) "modbus.rack_count"
  registers ← section (registers_from_dict) (get "registers" (dict no_fields) d)
  loaded (record {
    mode = mode;
    host = get "host" (text "192.168.1.187") d;
    port = port;
    unit_id = unit_id;
    timeout = timeout;
    defaults = defaults;
    rack_count = rack_count;
    registers = registers;
  })

unfoldable pub modbus_to_dict : ModbusConfig → Fields
modbus_to_dict c = fields (
    ("mode", c.mode)
    ∷ ("host", c.host)
    ∷ ("port", int c.port)
    ∷ ("unit_id", int_or_null c.unit_id)
    ∷ ("timeout", float c.timeout)
    ∷ ("defaults", dict (modbus_defaults_to_dict c.defaults))
    ∷ ("rack_count", int_or_null c.rack_count)
    ∷ ("registers", dict (registers_to_dict c.registers))
    ∷ [])
