-- ===== src/Power/Limits.antt =====
-- `PowerLimits` and `PowerValidator.validate` of src/bms_2030_5_client/power_control.py. A state of
-- charge is a float in percent that the code only compares: every finite float is a multiple of
-- 2⁻¹⁰⁷⁴, and stands here as that integer. `validate_ramp_rate`, which nothing calls, is not
-- modelled.
pub mod Range
use ieee2030_5_cold_client.Prelude.{
  ℕ, ◌*◌, ◌^◌, String, Bool, true, false, Option, none, some, List, [], ◌∷◌, ◌++◌, ◌&&◌, ◌||◌, not,
  if◌then◌else◌, Outcome, returned, raised,
}
use ieee2030_5_cold_client.Prelude.Int.{ℤ, pos, abs, ltb_ℤ, leb_ℤ}

-- n percent.
abbrev pub percent : ℕ → ℤ
percent n = pos (n * 2 ^ 1074)

pub record PowerLimits : Type 0 where
  pub max_charge_w : ℤ
  pub max_discharge_w : ℤ
  pub max_ramp_rate_w_per_s : ℤ
  pub min_soc_percent : ℤ
  pub max_soc_percent : ℤ

abbrev pub default_limits : PowerLimits
default_limits = record {
  max_charge_w = pos 100000;
  max_discharge_w = pos 100000;
  max_ramp_rate_w_per_s = pos 10000;
  min_soc_percent = percent 10;
  max_soc_percent = percent 90;
}

-- `__post_init__`.
unfoldable pub post_init : PowerLimits → Outcome PowerLimits
post_init l =
    if ltb_ℤ l.max_charge_w (pos 0)
    then raised "max_charge_w must be positive"
    else if ltb_ℤ l.max_discharge_w (pos 0)
    then raised "max_discharge_w must be positive"
    else if not (
        leb_ℤ (pos 0) l.min_soc_percent
        && ltb_ℤ l.min_soc_percent l.max_soc_percent
        && leb_ℤ l.max_soc_percent (percent 100))
    then raised "Invalid SOC limits"
    else returned l

-- The entries of an error list, with the values that their texts show.
pub data Fault : Type 0 where
  charge_exceeds : ℕ → ℤ → Fault
  charge_at_soc : ℤ → ℤ → Fault
  discharge_exceeds : ℤ → ℤ → Fault
  discharge_at_soc : ℤ → ℤ → Fault
  emergency_stop_active : Fault
  message : String → Fault

-- `current_soc is not None and current_soc >= max`, and `... <= min`.
at_or_above : Option ℤ → ℤ → Bool
at_or_above none bound = false
at_or_above (some soc) bound = leb_ℤ bound soc

at_or_below : Option ℤ → ℤ → Bool
at_or_below none bound = false
at_or_below (some soc) bound = leb_ℤ soc bound

abbrev or_zero : Option ℤ → ℤ
or_zero none = pos 0
or_zero (some soc) = soc

fault_if : Bool → Fault → List Fault
fault_if true f = f ∷ []
fault_if false f = []

-- `PowerValidator.validate`: the empty list means that the request passes.
unfoldable pub validate : PowerLimits → ℤ → Option ℤ → List Fault
unfolding at_or_above at_or_below fault_if
validate l power_w soc =
    let charge =
      if ltb_ℤ power_w (pos 0)
      then fault_if (ltb_ℤ l.max_charge_w (pos (abs power_w)))
          (charge_exceeds (abs power_w) l.max_charge_w)
        ++ fault_if (at_or_above soc l.max_soc_percent)
            (charge_at_soc (or_zero soc) l.max_soc_percent)
      else [] in
    let discharge =
      if ltb_ℤ (pos 0) power_w
      then fault_if (ltb_ℤ l.max_discharge_w power_w) (discharge_exceeds power_w l.max_discharge_w)
        ++ fault_if (at_or_below soc l.min_soc_percent)
            (discharge_at_soc (or_zero soc) l.min_soc_percent)
      else [] in
    charge ++ discharge
