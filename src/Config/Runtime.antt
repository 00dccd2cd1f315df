-- ===== src/Config/Runtime.antt =====
-- `RuntimeConfig` of src/bms_2030_5_client/runtime_config.py.
use ieee2030_5_cold_client.Prelude.{String, List, [], ◌∷◌, if◌then◌else◌}
use ieee2030_5_cold_client.Config.Values.{
  Value, list, dict, Items, no_items, item, Fields, no_fields, entry, Loaded, loaded, ◌>>=◌, Python,
  get, fields,
}
use ieee2030_5_cold_client.Config.Checks.{each, among}
use ieee2030_5_cold_client.Config.Parts.{section}
use ieee2030_5_cold_client.Config.Sections.{
  ProfileConfig, profile_from_dict, profile_to_dict, ModbusConfig, modbus_from_dict, modbus_to_dict,
}
use ieee2030_5_cold_client.Config.Targets.{
  PollTargetConfig, poll_target_from_dict, poll_target_to_dict, SubscriptionConfig,
  subscription_from_dict, subscription_to_dict, NotificationServerConfig,
  notification_server_from_dict, notification_server_to_dict,
}
use ieee2030_5_cold_client.Config.Power.{
  PowerControlConfig, power_control_from_dict, power_control_to_dict, LoggingConfig,
  logging_from_dict, logging_to_dict,
}

abbrev pub items {ℓ} : {A : Type ℓ} → (A → Value) → List A → Items
items f [] = no_items
items f (a ∷ as_) = item (f a) (items f as_)

pub record RuntimeConfig : Type 0 where
  pub profiles : List ProfileConfig
  pub modbus : ModbusConfig
  pub poll_targets : List PollTargetConfig
  pub subscriptions : List SubscriptionConfig
  pub notification_server : NotificationServerConfig
  pub power_control : PowerControlConfig
  pub logging : LoggingConfig

unfoldable pub runtime_from_dict : Python → Fields → Loaded RuntimeConfig
runtime_from_dict p d = do
  profiles ← each (section (profile_from_dict p)) (get "profiles" (list no_items) d)
  poll_targets ← each (section (poll_target_from_dict p)) (get "poll_targets" (list no_items) d)
  subscriptions ← each (section (subscription_from_dict p)) (get "subscriptions" (list no_items) d)
  modbus ← section (modbus_from_dict p) (get "modbus" (dict no_fields) d)
  notification_server ←
      section (notification_server_from_dict p) (get "notification_server" (dict no_fields) d)
  power_control ← section (power_control_from_dict p) (get "power_control" (dict no_fields) d)
  logging ← section (logging_from_dict p) (get "logging" (dict no_fields) d)
  loaded (record {
    profiles = profiles;
    modbus = modbus;
    poll_targets = poll_targets;
    subscriptions = subscriptions;
    notification_server = notification_server;
    power_control = power_control;
    logging = logging;
  })

unfoldable pub runtime_to_dict : RuntimeConfig → Fields
runtime_to_dict c = fields (
    ("profiles", list (items (λ (e : ProfileConfig). dict (profile_to_dict e)) c.profiles))
    ∷ ("modbus", dict (modbus_to_dict c.modbus))
    ∷ (
      "poll_targets",
      list (items (λ (e : PollTargetConfig). dict (poll_target_to_dict e)) c.poll_targets),
    )
    ∷ (
      "subscriptions",
      list (items (λ (e : SubscriptionConfig). dict (subscription_to_dict e)) c.subscriptions),
    )
    ∷ ("notification_server", dict (notification_server_to_dict c.notification_server))
    ∷ ("power_control", dict (power_control_to_dict c.power_control))
    ∷ ("logging", dict (logging_to_dict c.logging))
    ∷ [])

abbrev pub known_keys : List String
known_keys =
    "profiles" ∷ "modbus" ∷ "poll_targets" ∷ "subscriptions" ∷ "notification_server"
    ∷ "power_control" ∷ "logging" ∷ []

-- The keys at the top that are ignored, of which the code makes a warning.
abbrev pub unknown_keys : Fields → List String
unknown_keys no_fields = []
unknown_keys (entry k v d) =
    let rest = unknown_keys d in if among k known_keys then rest else k ∷ rest
