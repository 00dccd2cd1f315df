-- ===== src/Power/FromRuntime.antt =====
-- `create_power_controller_from_runtime` of src/bms_2030_5_client/power_control.py: the power controller that the
-- runtime configuration makes.
use ieee2030_5_cold_client.Prelude.{
  ◌≡◌, refl, ap, ◌∙◌, sym, String, Bool, true, false, Option, none, some, ◌&&◌, ◌||◌, not,
  if◌then◌else◌, Outcome, returned, raised, arith, nonempty, str_eq,
}
use ieee2030_5_cold_client.Prelude.Int.{ℤ, pos, ltb_ℤ, leb_ℤ}
use ieee2030_5_cold_client.Config.Values.{
  Float, finite, infinite, nan, Fields, loaded, Python, lt_float, le_float, whole, unit,
}
use ieee2030_5_cold_client.Config.Checks.{in_range_float}
use ieee2030_5_cold_client.Config.Power.{max_power_w, PowerLimitsConfig, power_limits_from_dict}
use ieee2030_5_cold_client.Config.Valid.Power.{
  IsPowerLimitsConfig, power_limits_from_dict-IsPowerLimitsConfig,
}
use ieee2030_5_cold_client.Power.Controller.{SafePowerController, create}
use ieee2030_5_cold_client.Power.Limits.{PowerLimits, percent, post_init}

-- `PowerLimits(...)` with its `__post_init__`, for SOC limits that are floats: with NaN the chain of
-- comparisons is False, and so it is with an infinity on either side.
unfoldable pub power_limits_of : PowerLimitsConfig → Outcome PowerLimits
power_limits_of c =
    let soc_error : Outcome PowerLimits = raised (
      if ltb_ℤ c.max_charge_w (pos 0)
      then "max_charge_w must be positive"
      else if ltb_ℤ c.max_discharge_w (pos 0)
      then "max_discharge_w must be positive"
      else "Invalid SOC limits") in
    elim c.min_soc_percent [
      | finite low ↦ elim c.max_soc_percent [
        | finite high ↦ post_init (record {
          max_charge_w = c.max_charge_w;
          max_discharge_w = c.max_discharge_w;
          max_ramp_rate_w_per_s = c.ramp_rate_w_per_s;
          min_soc_percent = low;
          max_soc_percent = high;
        })
        | _ ↦ soc_error
      ]
      | _ ↦ soc_error
    ]

abbrev pub is_returned {ℓ} : {A : Type ℓ} → Outcome A → Bool
is_returned (returned a) = true
is_returned (raised e) = false

abbrev pub is_nan : Float → Bool
is_nan nan = true
is_nan (finite z) = false
is_nan (infinite b) = false

not_ltb : (a b : ℤ) → not (ltb_ℤ a b) ≡ leb_ℤ b a
not_ltb a b = ground arith

-- A token counts where it is not empty.
abbrev pub given : Option String → Option String
given none = none
given (some t) = if nonempty t then some t else none

-- `create_power_controller_from_runtime`, without a writer: `mode` is that of the configuration, and
-- `safety_token` is only looked at in production.
unfoldable pub create_power_controller_from_runtime :
    (mode : String)
    → Option String
    → PowerLimitsConfig
    → String
    → (String → Outcome Bool)
    → Outcome SafePowerController
create_power_controller_from_runtime mode safety_token c env_token verify_lockfile =
    elim (power_limits_of c) [
      | raised e ↦ raised e
      | returned l ↦
          create
            (record {
              mode = mode;
              limits = l;
              runtime_mode = none;
              safety_token = if str_eq mode "production" then given safety_token else none;
            })
            none env_token verify_lockfile
    ]

-- `post_init` on its four tests.
tests_pass :
    (l : PowerLimits)
    → ltb_ℤ l.max_charge_w (pos 0) ≡ false
    → ltb_ℤ l.max_discharge_w (pos 0) ≡ false
    → leb_ℤ (pos 0) l.min_soc_percent ≡ true
    → ltb_ℤ l.min_soc_percent l.max_soc_percent ≡ true
    → leb_ℤ l.max_soc_percent (percent 100) ≡ true
    → post_init l ≡ returned l
unfolding post_init
tests_pass l a b c d e = cc (a, b, c, d, e)

positive : (b : Bool) → not b ≡ false → b ≡ true
positive b h = ground (arith, h)

both : (a b : Bool) → (a && b) ≡ true → (a ≡ true) × (b ≡ true)
both a b h = ground (arith, h)

from_zero : (a b : ℤ) → (leb_ℤ (pos 0) a && leb_ℤ a b) ≡ true → ltb_ℤ a (pos 0) ≡ false
from_zero a b h = ground (arith, h)

finite_limits :
    (c : PowerLimitsConfig) (low high : ℤ)
    → IsPowerLimitsConfig (record c { min_soc_percent = finite low; max_soc_percent = finite high })
    → is_returned
        (power_limits_of (record c { min_soc_percent = finite low; max_soc_percent = finite high }))
      ≡ true
unfolding power_limits_of lt_float le_float unit
finite_limits c low high h =
    let above = both _ _ h.3 in
    let below = both _ _ h.4 in
    ap is_returned (
      tests_pass
        (record {
          max_charge_w = c.max_charge_w;
          max_discharge_w = c.max_discharge_w;
          max_ramp_rate_w_per_s = c.ramp_rate_w_per_s;
          min_soc_percent = low;
          max_soc_percent = high;
        })
        (from_zero c.max_charge_w max_power_w h.0) (from_zero c.max_discharge_w max_power_w h.1)
        (sym (not_ltb low (pos 0)) ∙ above.0) (positive (ltb_ℤ low high) h.5)
        (sym (not_ltb (percent 100) high) ∙ below.1))

outside : (b : Bool) → in_range_float (whole 0) (whole 100) (infinite b) ≡ true → ⊥
unfolding lt_float
outside true h = absurd (ground (arith, h))
outside false h = absurd (ground (arith, h))

by_floats :
    (c : PowerLimitsConfig) (low high : Float)
    → IsPowerLimitsConfig (record c { min_soc_percent = low; max_soc_percent = high })
    → is_returned (power_limits_of (record c { min_soc_percent = low; max_soc_percent = high }))
      ≡ not (is_nan low || is_nan high)
unfolding power_limits_of
by_floats c (finite low) (finite high) v = finite_limits c low high v
by_floats c (finite low) (infinite b) v = absurd (outside b v.4)
by_floats c (finite low) nan v = refl
by_floats c (infinite b) high v = absurd (outside b v.3)
by_floats c nan high v = refl

dry_run_made :
    (c : PowerLimitsConfig) (token : Option String) (env_token : String)
    (verify_lockfile : String → Outcome Bool)
    → is_returned (create_power_controller_from_runtime "dry_run" token c env_token verify_lockfile)
      ≡ is_returned (power_limits_of c)
unfolding create_power_controller_from_runtime create
dry_run_made c token env_token verify_lockfile = ground arith

-- A power limits section that is loaded makes limits, and `create_power_controller_from_runtime` a
-- power controller in dry-run mode of it, exactly when neither SOC limit is NaN: all other values
-- that the load lets through pass the tests of `PowerLimits`, and NaN fails them.
pub power_limits_of-power_limits_from_dict :
    (p : Python) (d : Fields) (c : PowerLimitsConfig) (token : Option String) (env_token : String)
    (verify_lockfile : String → Outcome Bool)
    → power_limits_from_dict p d ≡ loaded c
    → let usable = not (is_nan c.min_soc_percent || is_nan c.max_soc_percent) in
      (is_returned (power_limits_of c) ≡ usable)
      × (is_returned
            (create_power_controller_from_runtime "dry_run" token c env_token verify_lockfile)
          ≡ usable)
power_limits_of-power_limits_from_dict p d c token env_token verify_lockfile h =
    let made =
      by_floats c c.min_soc_percent c.max_soc_percent
        ((power_limits_from_dict-IsPowerLimitsConfig p d).apply c h) in
    (made, dry_run_made c token env_token verify_lockfile ∙ made)
