-- ===== src/Config/Laws.antt =====
-- The whole of `from_dict` and `to_dict` of src/bms_2030_5_client/runtime_config.py.
use ieee2030_5_cold_client.Prelude.{◌≡◌, refl, String, true}
use ieee2030_5_cold_client.Prelude.Int.{ℤ, pos}
use ieee2030_5_cold_client.Config.Values.{
  Float, nan, lt_float, int, float, text, list, dict, Fields, loaded, Python, converted, le_float,
}
use ieee2030_5_cold_client.Config.Checks.{in_range_ℤ, log_levels, each, among}
use ieee2030_5_cold_client.Config.Valid.Runtime.{runtime_from_dict-IsRuntimeConfig}
use ieee2030_5_cold_client.Config.Parts.{section}
use ieee2030_5_cold_client.Config.Sections.{
  ProfileConfig, profile_from_dict, profile_to_dict, modbus_from_dict, modbus_to_dict,
}
use ieee2030_5_cold_client.Config.Targets.{
  PollTargetConfig, poll_target_from_dict, poll_target_to_dict, SubscriptionConfig,
  subscription_from_dict, subscription_to_dict, notification_server_from_dict,
  notification_server_to_dict,
}
use ieee2030_5_cold_client.Config.Power.{
  PowerLimitsConfig, power_limits_from_dict, power_limits_to_dict, power_control_from_dict,
  power_control_to_dict, logging_from_dict, logging_to_dict,
}
use ieee2030_5_cold_client.Config.Runtime.{RuntimeConfig, runtime_from_dict, runtime_to_dict}
use ieee2030_5_cold_client.Config.Runtime.{items}
use ieee2030_5_cold_client.Config.Power.{max_power_w}
use ieee2030_5_cold_client.Config.Valid.Sections.{IsProfileConfig}
use ieee2030_5_cold_client.Config.Valid.Targets.{IsPollTargetConfig, IsSubscriptionConfig}
use ieee2030_5_cold_client.Config.Valid.Runtime.{IsRuntimeConfig}
use ieee2030_5_cold_client.Config.Accepts.{bind-Ends, section-loaded, each-loaded}
use ieee2030_5_cold_client.Config.RoundTrip.Sections.{
  profile_from_dict-profile_to_dict, modbus_from_dict-modbus_to_dict,
}
use ieee2030_5_cold_client.Config.RoundTrip.Targets.{
  poll_target_from_dict-poll_target_to_dict, subscription_from_dict-subscription_to_dict,
  notification_server_from_dict-notification_server_to_dict,
}
use ieee2030_5_cold_client.Config.RoundTrip.Power.{
  power_limits_from_dict-power_limits_to_dict, power_control_from_dict-power_control_to_dict,
  logging_from_dict-logging_to_dict, reset_rotation,
}

pub runtime_from_dict-runtime_to_dict :
    (p : Python) (int_law : (z : ℤ) → p.int_of (int z) ≡ converted z)
    (float_law : (x : Float) → p.float_of (float x) ≡ converted x)
    (upper_law : (s : String) → among s log_levels ≡ true → p.upper_of (text s) ≡ s)
    (c : RuntimeConfig)
    → IsRuntimeConfig p c
    → runtime_from_dict p (runtime_to_dict c)
      ≡ loaded (record c { logging = reset_rotation c.logging })
unfolding runtime_from_dict runtime_to_dict
runtime_from_dict-runtime_to_dict p int_law float_law upper_law c
      (
        h_profiles, h_modbus, h_poll_targets, h_subscriptions, h_notification_server,
        h_power_control, h_logging,
      ) =
    (bind-Ends
      (each (section (profile_from_dict p))
        (list (items (λ (e : ProfileConfig). dict (profile_to_dict e)) c.profiles)))
      c.profiles _
      (each-loaded (profile_from_dict p) profile_to_dict (IsProfileConfig p)
        (λ (e : ProfileConfig) h. profile_from_dict-profile_to_dict p int_law e h) c.profiles
        h_profiles)
      (bind-Ends
        (each (section (poll_target_from_dict p))
          (list (items (λ (e : PollTargetConfig). dict (poll_target_to_dict e)) c.poll_targets)))
        c.poll_targets _
        (each-loaded (poll_target_from_dict p) poll_target_to_dict (IsPollTargetConfig)
          (λ (e : PollTargetConfig) h.
            poll_target_from_dict-poll_target_to_dict p int_law float_law e h)
          c.poll_targets h_poll_targets)
        (bind-Ends
          (each (section (subscription_from_dict p)) (
            list
              (items (λ (e : SubscriptionConfig). dict (subscription_to_dict e)) c.subscriptions)))
          c.subscriptions _
          (each-loaded (subscription_from_dict p) subscription_to_dict (IsSubscriptionConfig)
            (λ (e : SubscriptionConfig) h.
              subscription_from_dict-subscription_to_dict p int_law float_law e h)
            c.subscriptions h_subscriptions)
          (bind-Ends (section (modbus_from_dict p) (dict (modbus_to_dict c.modbus))) (c.modbus) _
            (section-loaded (modbus_from_dict p) (modbus_to_dict c.modbus) (c.modbus)
              (modbus_from_dict-modbus_to_dict p int_law float_law c.modbus h_modbus))
            (bind-Ends
              (section (notification_server_from_dict p)
                (dict (notification_server_to_dict c.notification_server)))
              (c.notification_server) _
              (section-loaded (notification_server_from_dict p)
                (notification_server_to_dict c.notification_server) (c.notification_server)
                (notification_server_from_dict-notification_server_to_dict p int_law
                  c.notification_server h_notification_server))
              (bind-Ends
                (section (power_control_from_dict p) (dict (power_control_to_dict c.power_control)))
                (c.power_control) _
                (section-loaded (power_control_from_dict p) (power_control_to_dict c.power_control)
                  (c.power_control)
                  (power_control_from_dict-power_control_to_dict p int_law float_law c.power_control
                    h_power_control))
                (bind-Ends (section (logging_from_dict p) (dict (logging_to_dict c.logging)))
                  (reset_rotation c.logging) _
                  (section-loaded (logging_from_dict p) (logging_to_dict c.logging)
                    (reset_rotation c.logging)
                    (logging_from_dict-logging_to_dict p int_law upper_law c.logging h_logging))
                  (record { same = refl })))))))).same

-- A configuration that is loaded is valid in every section, whatever the dictionary holds: ports are
-- from 1 to 65535, modes, formats and data types are those of the enumerations, URLs have a scheme and
-- a host, timeouts are not 0 or less, the power limits are at most 10 MW and no SOC limit is below 0,
-- above 100 or at least its upper partner. NaN passes these tests on floats.
pub runtime_from_dict_sound :
    (p : Python) (d : Fields) (c : RuntimeConfig)
    → runtime_from_dict p d ≡ loaded c
    → IsRuntimeConfig p c
runtime_from_dict_sound p d c h = (runtime_from_dict-IsRuntimeConfig p d).apply c h

-- A configuration that was loaded, written by `to_dict` and loaded again is the same except for
-- `max_bytes` and `backup_count` of the logging, which are back at their defaults. Of Python it is
-- used that `int` keeps an int, `float` a float and `upper` the name of a log level.
pub runtime_reload :
    (p : Python)
    → ((z : ℤ) → p.int_of (int z) ≡ converted z)
    → ((x : Float) → p.float_of (float x) ≡ converted x)
    → ((s : String) → among s log_levels ≡ true → p.upper_of (text s) ≡ s)
    → (d : Fields) (c : RuntimeConfig) → runtime_from_dict p d ≡ loaded c
    → runtime_from_dict p (runtime_to_dict c)
      ≡ loaded (record c { logging = reset_rotation c.logging })
runtime_reload p int_law float_law upper_law d c h =
    runtime_from_dict-runtime_to_dict p int_law float_law upper_law c
      (runtime_from_dict_sound p d c h)

-- SOC limits that are NaN are loaded like any others, with power limits that are in range.
pub power_limits_nan :
    (p : Python)
    → ((z : ℤ) → p.int_of (int z) ≡ converted z)
    → ((x : Float) → p.float_of (float x) ≡ converted x)
    → (c : PowerLimitsConfig) → in_range_ℤ (pos 0) max_power_w c.max_charge_w ≡ true
    → in_range_ℤ (pos 0) max_power_w c.max_discharge_w ≡ true
    → in_range_ℤ (pos 1) max_power_w c.ramp_rate_w_per_s ≡ true
    → let open_limits = record c { min_soc_percent = nan; max_soc_percent = nan } in
      power_limits_from_dict p (power_limits_to_dict open_limits) ≡ loaded open_limits
unfolding le_float lt_float
power_limits_nan p int_law float_law c charge discharge ramp =
    power_limits_from_dict-power_limits_to_dict p int_law float_law
      (record c { min_soc_percent = nan; max_soc_percent = nan })
      (charge, discharge, ramp, refl, refl, refl)
