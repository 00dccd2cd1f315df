-- ===== src/Models.antt =====
-- The resources of src/bms_2030_5_client/models/ieee2030_5_models.py that the control of distributed energy
-- resources (DER) works on. Fields that the modelled code never reads are left out. Every object
-- carries `object_id`, the text `str(id(object))` by which the code names an object without an mRID.
-- A negative `multiplier`, which would make the watts a float, is not modelled.
use ieee2030_5_cold_client.Prelude.{
  ℕ, ◌^◌, ◌&&◌, String, Bool, true, false, Option, none, some, if◌then◌else◌,
}
use ieee2030_5_cold_client.Prelude.Int.{ℤ, pos, ◌+ℤ◌, ◌-ℤ◌, ◌*ℤ◌, ltb_ℤ, leb_ℤ}

pub record SignedPerCent : Type 0 where
  pub value : ℤ
  pub multiplier : ℕ

pub to_watts : SignedPerCent → ℤ
to_watts s = s.value *ℤ pos (10 ^ s.multiplier)

pub record PerCent : Type 0 where
  pub value : ℤ

pub record DateTimeInterval : Type 0 where
  pub duration : ℤ
  pub start : ℤ

-- `is_active(now)` at a time other than 0.
unfoldable pub interval_is_active : DateTimeInterval → ℕ → Bool
interval_is_active i now =
    if ltb_ℤ (pos now) i.start
    then false
    else if leb_ℤ i.duration (pos 0) && leb_ℤ (pos 0) i.duration
    then true
    else ltb_ℤ (pos now) (i.start +ℤ i.duration)

-- `max(0, start - now)`.
unfoldable pub seconds_until_start : DateTimeInterval → ℕ → ℤ
seconds_until_start i now = let d = i.start -ℤ pos now in if ltb_ℤ (pos 0) d then d else pos 0

pub record DerControlBase : Type 0 where
  pub op_mod_fixed_w : Option SignedPerCent
  pub op_mod_fixed_var : Option SignedPerCent
  pub op_mod_max_lim_w : Option PerCent
  pub op_mod_connect : Option Bool
  pub op_mod_energize : Option Bool

pub record EventStatus : Type 0 where
  pub current_status : ℕ

pub record DerControl : Type 0 where
  pub object_id : String
  pub href : Option String
  pub m_rid : Option String
  pub creation_time : ℤ
  pub interval : Option DateTimeInterval
  pub event_status : Option EventStatus
  pub randomize_start : Option ℤ
  pub randomize_duration : Option ℤ
  pub base : Option DerControlBase
  pub primacy : ℤ
  pub reply_to : Option String
  pub response_required : Option ℕ

-- `get_power_setpoint_w`.
pub get_power_setpoint_w : DerControl → Option ℤ
unfolding to_watts
get_power_setpoint_w c = elim c.base [
  | none ↦ none
  | some b ↦ elim b.op_mod_fixed_w [ none ↦ none | some s ↦ some (to_watts s) ]
]

abbrev pub op_mod_connect : DerControl → Option Bool
op_mod_connect c = elim c.base [ none ↦ none | some b ↦ b.op_mod_connect ]

abbrev pub op_mod_energize : DerControl → Option Bool
op_mod_energize c = elim c.base [ none ↦ none | some b ↦ b.op_mod_energize ]

-- `x is True` and `x is False`.
abbrev pub is_true : Option Bool → Bool
is_true (some true) = true
is_true _ = false

abbrev pub is_false : Option Bool → Bool
is_false (some false) = true
is_false _ = false

-- `DefaultDERControl`: its control parameters, as `dera/der_client.py` reads them.
pub record DefaultDerControl : Type 0 where
  pub object_id : String
  pub base : Option DerControlBase

pub record DerProgram : Type 0 where
  pub object_id : String
  pub href : Option String
  pub m_rid : Option String
  pub primacy : ℤ
  -- `get_der_control_list_href()` and `get_default_der_control_href()`
  pub der_control_list_href : Option String
  pub default_der_control_href : Option String
