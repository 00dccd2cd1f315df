-- ===== src/Config/Valid/Runtime.antt =====
-- What the readers of src/bms_2030_5_client/runtime_config.py let through: the whole.
use ieee2030_5_cold_client.Config.Values.{list, dict, no_items, Fields, no_fields, Python, get}
use ieee2030_5_cold_client.Config.Checks.{each}
use ieee2030_5_cold_client.Prelude.Lists.{All}
use ieee2030_5_cold_client.Config.Parts.{section}
use ieee2030_5_cold_client.Config.Sections.{profile_from_dict, modbus_from_dict}
use ieee2030_5_cold_client.Config.Targets.{
  poll_target_from_dict, subscription_from_dict, notification_server_from_dict,
}
use ieee2030_5_cold_client.Config.Power.{power_control_from_dict, logging_from_dict}
use ieee2030_5_cold_client.Config.Runtime.{RuntimeConfig, runtime_from_dict}
use ieee2030_5_cold_client.Config.Checked.{
  Yields, loaded-Yields, bind-Yields, section-Yields, each-Yields,
}
use ieee2030_5_cold_client.Config.Valid.Sections.{
  IsProfileConfig, profile_from_dict-IsProfileConfig, IsModbusConfig,
  modbus_from_dict-IsModbusConfig,
}
use ieee2030_5_cold_client.Config.Valid.Targets.{
  IsPollTargetConfig, poll_target_from_dict-IsPollTargetConfig, IsSubscriptionConfig,
  subscription_from_dict-IsSubscriptionConfig, IsNotificationServerConfig,
  notification_server_from_dict-IsNotificationServerConfig,
}
use ieee2030_5_cold_client.Config.Valid.Power.{
  IsPowerControlConfig, power_control_from_dict-IsPowerControlConfig, IsLoggingConfig,
  logging_from_dict-IsLoggingConfig,
}

abbrev pub IsRuntimeConfig : Python → RuntimeConfig → Type 0
IsRuntimeConfig p c =
    (All (IsProfileConfig p) c.profiles)
    × (IsModbusConfig c.modbus)
    × (All (IsPollTargetConfig) c.poll_targets)
    × (All (IsSubscriptionConfig) c.subscriptions)
    × (IsNotificationServerConfig c.notification_server)
    × (IsPowerControlConfig c.power_control)
    × (IsLoggingConfig c.logging)

pub runtime_from_dict-IsRuntimeConfig :
    (p : Python) (d : Fields) → Yields (IsRuntimeConfig p) (runtime_from_dict p d)
unfolding runtime_from_dict
runtime_from_dict-IsRuntimeConfig p d =
    bind-Yields (each (section (profile_from_dict p)) (get "profiles" (list no_items) d))
      (each-Yields (get "profiles" (list no_items) d)
        (λ v. section-Yields v (λ e. profile_from_dict-IsProfileConfig p e)))
      (λ profiles h_profiles.
        bind-Yields
          (each (section (poll_target_from_dict p)) (get "poll_targets" (list no_items) d))
          (each-Yields (get "poll_targets" (list no_items) d)
            (λ v. section-Yields v (λ e. poll_target_from_dict-IsPollTargetConfig p e)))
          (λ poll_targets h_poll_targets.
            bind-Yields
              (each (section (subscription_from_dict p)) (get "subscriptions" (list no_items) d))
              (each-Yields (get "subscriptions" (list no_items) d)
                (λ v. section-Yields v (λ e. subscription_from_dict-IsSubscriptionConfig p e)))
              (λ subscriptions h_subscriptions.
                bind-Yields (section (modbus_from_dict p) (get "modbus" (dict no_fields) d))
                  (section-Yields (get "modbus" (dict no_fields) d)
                    (λ e. modbus_from_dict-IsModbusConfig p e))
                  (λ modbus h_modbus.
                    bind-Yields
                      (section (notification_server_from_dict p)
                        (get "notification_server" (dict no_fields) d))
                      (section-Yields (get "notification_server" (dict no_fields) d)
                        (λ e. notification_server_from_dict-IsNotificationServerConfig p e))
                      (λ notification_server h_notification_server.
                        bind-Yields
                          (section (power_control_from_dict p)
                            (get "power_control" (dict no_fields) d))
                          (section-Yields (get "power_control" (dict no_fields) d)
                            (λ e. power_control_from_dict-IsPowerControlConfig p e))
                          (λ power_control h_power_control.
                            bind-Yields
                              (section (logging_from_dict p) (get "logging" (dict no_fields) d))
                              (section-Yields (get "logging" (dict no_fields) d)
                                (λ e. logging_from_dict-IsLoggingConfig p e))
                              (λ logging h_logging. loaded-Yields (
                                h_profiles, h_modbus, h_poll_targets, h_subscriptions,
                                h_notification_server, h_power_control, h_logging,
                              ))))))))
