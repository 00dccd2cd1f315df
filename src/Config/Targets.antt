-- ===== src/Config/Targets.antt =====
-- The poll targets, the subscriptions and the notification server of
-- src/bms_2030_5_client/runtime_config.py.
use ieee2030_5_cold_client.Prelude.{true, false, Option, none, some, [], ◌∷◌}
use ieee2030_5_cold_client.Prelude.Int.{ℤ, pos}
use ieee2030_5_cold_client.Config.Values.{
  Float, Value, null, bool, int, float, text, dict, Fields, no_fields, Loaded, loaded, ◌>>=◌,
  Python, get, fields, whole,
}
use ieee2030_5_cold_client.Config.Checks.{
  validate_enum, validate_port, validate_type, warn_tls_path,
}
use ieee2030_5_cold_client.Config.Parts.{
  section, section_if, int_or_null, float_or_null, dict_or_null, parse_formats, modbus_data_types,
}

pub record ParseConfig : Type 0 where
  pub format : Value
  pub xpath : Value
  pub field_path : Value

unfoldable pub parse_from_dict : Fields → Loaded ParseConfig
parse_from_dict d = do
  format ← validate_enum (get "format" (text "sep_xml") d) parse_formats "parse.format"
  loaded (record {
    format = format;
    xpath = get "xpath" (null) d;
    field_path = get "field_path" (null) d;
  })

unfoldable pub parse_to_dict : ParseConfig → Fields
parse_to_dict c =
    fields (("format", c.format) ∷ ("xpath", c.xpath) ∷ ("field_path", c.field_path) ∷ [])

pub record TransformConfig : Type 0 where
  pub scale : Value
  pub offset : Value
  pub clamp_min : Value
  pub clamp_max : Value

unfoldable pub transform_from_dict : Fields → Loaded TransformConfig
transform_from_dict d = loaded (record {
  scale = get "scale" (float (whole 1)) d;
  offset = get "offset" (float (whole 0)) d;
  clamp_min = get "clamp_min" (null) d;
  clamp_max = get "clamp_max" (null) d;
})

unfoldable pub transform_to_dict : TransformConfig → Fields
transform_to_dict c = fields (
    ("scale", c.scale)
    ∷ ("offset", c.offset)
    ∷ ("clamp_min", c.clamp_min)
    ∷ ("clamp_max", c.clamp_max)
    ∷ [])

pub record ModbusWriteConfig : Type 0 where
  pub address : Option ℤ
  pub datatype : Value
  pub scale : Option Float
  pub offset : Option Float

unfoldable pub modbus_write_from_dict : Python → Fields → Loaded ModbusWriteConfig
modbus_write_from_dict p d = do
  datatype ←
      validate_enum (get "datatype" (text "int16") d) modbus_data_types "modbus_write.datatype"
  address ← validate_type p.int_of (get "address" (int (pos 0)) d) "modbus_write.address"
  scale ← validate_type p.float_of (get "scale" (float (whole 1)) d) "modbus_write.scale"
  offset ← validate_type p.float_of (get "offset" (float (whole 0)) d) "modbus_write.offset"
  loaded (record { address = address; datatype = datatype; scale = scale; offset = offset })

unfoldable pub modbus_write_to_dict : ModbusWriteConfig → Fields
modbus_write_to_dict c = fields (
    ("address", int_or_null c.address)
    ∷ ("datatype", c.datatype)
    ∷ ("scale", float_or_null c.scale)
    ∷ ("offset", float_or_null c.offset)
    ∷ [])

pub record PollTargetConfig : Type 0 where
  pub id : Value
  pub name : Value
  pub enabled : Value
  pub profile_name : Value
  pub method : Value
  pub uri : Value
  pub interval_ms : Value
  pub parse : ParseConfig
  pub transform : TransformConfig
  pub modbus_write : Option ModbusWriteConfig

unfoldable pub poll_target_from_dict : Python → Fields → Loaded PollTargetConfig
poll_target_from_dict p d = do
  parse ← section (parse_from_dict) (get "parse" (dict no_fields) d)
  transform ← section (transform_from_dict) (get "transform" (dict no_fields) d)
  modbus_write ← section_if (modbus_write_from_dict p) (get "modbus_write" null d)
  loaded (record {
    id = get "id" (text "") d;
    name = get "name" (text "") d;
    enabled = get "enabled" (bool true) d;
    profile_name = get "profile_name" (text "default") d;
    method = get "method" (text "GET") d;
    uri = get "uri" (text "") d;
    interval_ms = get "interval_ms" (int (pos 60000)) d;
    parse = parse;
    transform = transform;
    modbus_write = modbus_write;
  })

unfoldable pub poll_target_to_dict : PollTargetConfig → Fields
poll_target_to_dict c = fields (
    ("id", c.id)
    ∷ ("name", c.name)
    ∷ ("enabled", c.enabled)
    ∷ ("profile_name", c.profile_name)
    ∷ ("method", c.method)
    ∷ ("uri", c.uri)
    ∷ ("interval_ms", c.interval_ms)
    ∷ ("parse", dict (parse_to_dict c.parse))
    ∷ ("transform", dict (transform_to_dict c.transform))
    ∷ ("modbus_write", dict_or_null modbus_write_to_dict c.modbus_write)
    ∷ [])

pub record SubscriptionConditions : Type 0 where
  pub lower_threshold : Value
  pub upper_threshold : Value
  pub attribute_identifier : Value

unfoldable pub conditions_from_dict : Fields → Loaded SubscriptionConditions
conditions_from_dict d = loaded (record {
  lower_threshold = get "lower_threshold" (null) d;
  upper_threshold = get "upper_threshold" (null) d;
  attribute_identifier = get "attribute_identifier" (null) d;
})

unfoldable pub conditions_to_dict : SubscriptionConditions → Fields
conditions_to_dict c = fields (
    ("lower_threshold", c.lower_threshold)
    ∷ ("upper_threshold", c.upper_threshold)
    ∷ ("attribute_identifier", c.attribute_identifier)
    ∷ [])

-- `SubscriptionConditions.from_dict`, with its test for None.
unfoldable pub conditions_of : Value → Loaded (Option SubscriptionConditions)
unfolding section
conditions_of v =
    let given = (do c ← section conditions_from_dict v; loaded (some c)) in
    elim v [ null ↦ loaded none | _ ↦ given ]

pub record SubscriptionConfig : Type 0 where
  pub id : Value
  pub name : Value
  pub enabled : Value
  pub profile_name : Value
  pub resource_uri : Value
  pub notification_endpoint : Value
  pub conditions : Option SubscriptionConditions
  pub renew_interval_hours : Value
  pub parse : ParseConfig
  pub modbus_write : Option ModbusWriteConfig

unfoldable pub subscription_from_dict : Python → Fields → Loaded SubscriptionConfig
subscription_from_dict p d = do
  conditions ← conditions_of (get "conditions" null d)
  parse ← section (parse_from_dict) (get "parse" (dict no_fields) d)
  modbus_write ← section_if (modbus_write_from_dict p) (get "modbus_write" null d)
  loaded (record {
    id = get "id" (text "") d;
    name = get "name" (text "") d;
    enabled = get "enabled" (bool true) d;
    profile_name = get "profile_name" (text "default") d;
    resource_uri = get "resource_uri" (text "") d;
    notification_endpoint = get "notification_endpoint" (text "") d;
    conditions = conditions;
    renew_interval_hours = get "renew_interval_hours" (int (pos 24)) d;
    parse = parse;
    modbus_write = modbus_write;
  })

unfoldable pub subscription_to_dict : SubscriptionConfig → Fields
subscription_to_dict c = fields (
    ("id", c.id)
    ∷ ("name", c.name)
    ∷ ("enabled", c.enabled)
    ∷ ("profile_name", c.profile_name)
    ∷ ("resource_uri", c.resource_uri)
    ∷ ("notification_endpoint", c.notification_endpoint)
    ∷ ("conditions", dict_or_null conditions_to_dict c.conditions)
    ∷ ("renew_interval_hours", c.renew_interval_hours)
    ∷ ("parse", dict (parse_to_dict c.parse))
    ∷ ("modbus_write", dict_or_null modbus_write_to_dict c.modbus_write)
    ∷ [])

pub record NotificationServerConfig : Type 0 where
  pub enabled : Value
  pub listen_host : Value
  pub listen_port : ℤ
  pub tls_server_enabled : Value
  pub tls_server_cert_path : Value
  pub tls_server_key_path : Value
  pub tls_require_client_cert : Value
  pub tls_client_ca_path : Value
  pub endpoint_path : Value
  pub public_uri : Value

unfoldable pub notification_server_from_dict : Python → Fields → Loaded NotificationServerConfig
notification_server_from_dict p d = do
  listen_port ←
      validate_port p (get "listen_port" (int (pos 8443)) d) "notification_server.listen_port"
  tls_server_cert_path ← warn_tls_path (get "tls_server_cert_path" (text "certs/server.crt") d)
  tls_server_key_path ← warn_tls_path (get "tls_server_key_path" (text "certs/server.key") d)
  loaded (record {
    enabled = get "enabled" (bool false) d;
    listen_host = get "listen_host" (text "0.0.0.0") d;
    listen_port = listen_port;
    tls_server_enabled = get "tls_server_enabled" (bool true) d;
    tls_server_cert_path = tls_server_cert_path;
    tls_server_key_path = tls_server_key_path;
    tls_require_client_cert = get "tls_require_client_cert" (bool false) d;
    tls_client_ca_path = get "tls_client_ca_path" (text "certs/server_ca.crt") d;
    endpoint_path = get "endpoint_path" (text "/notify") d;
    public_uri = get "public_uri" (text "") d;
  })

unfoldable pub notification_server_to_dict : NotificationServerConfig → Fields
notification_server_to_dict c = fields (
    ("enabled", c.enabled)
    ∷ ("listen_host", c.listen_host)
    ∷ ("listen_port", int c.listen_port)
    ∷ ("tls_server_enabled", c.tls_server_enabled)
    ∷ ("tls_server_cert_path", c.tls_server_cert_path)
    ∷ ("tls_server_key_path", c.tls_server_key_path)
    ∷ ("tls_require_client_cert", c.tls_require_client_cert)
    ∷ ("tls_client_ca_path", c.tls_client_ca_path)
    ∷ ("endpoint_path", c.endpoint_path)
    ∷ ("public_uri", c.public_uri)
    ∷ [])
