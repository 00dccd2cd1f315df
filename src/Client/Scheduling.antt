-- ===== src/Client/Scheduling.antt =====
-- One pass of `_scheduler_loop`, `_check_control_recovery` and `_has_mode` of src/bms_2030_5_client/dera/der_client.py.
use ieee2030_5_cold_client.Prelude.{
  ℕ, String, Bool, true, false, none, some, [], ◌∷◌, ◌&&◌, ◌||◌, if◌then◌else◌,
}
use ieee2030_5_cold_client.Prelude.Int.{pos, ltb_ℤ, leb_ℤ}
use ieee2030_5_cold_client.Prelude.Dict.{Dict, lookup}
use ieee2030_5_cold_client.World.{World}
use ieee2030_5_cold_client.Models.{DateTimeInterval, DerControl}
use ieee2030_5_cold_client.Handler.{Status, completed, superseded, DerControlEvent}
use ieee2030_5_cold_client.Client.State.{
  event_completed, TrackedControl, Client, change, set_status, mem, modes,
}
use ieee2030_5_cold_client.Client.Response.{report}
use ieee2030_5_cold_client.Client.Conflict.{holds, is_scheduled, is_de_energize_control}
use ieee2030_5_cold_client.Client.Execution.{execute_control, is_completed}
use ieee2030_5_cold_client.Client.Processing.{effective_start, effective_end, is_active}

abbrev is_superseded : Status → Bool
is_superseded superseded = true
is_superseded _ = false

-- A de-energizing control that holds the mode blocks every recovery.
unfoldable pub de_energized : String → Client → Bool
de_energized mode c = elim (lookup mode c.active_by_mode) [
  | none ↦ false
  | some r ↦ holds (c.objects r).status && is_de_energize_control (c.objects r).control
]

unfoldable pub has_mode : DerControl → String → Bool
has_mode control mode = mem mode (modes control)

module _ (same : DerControlEvent → DerControlEvent → Bool) where
  -- Is a superseded control one to take up again for this mode?
  unfoldable pub recoverable : String → ℕ → TrackedControl → Bool
  recoverable mode now t = is_superseded t.status && elim t.control.interval [
    | none ↦ false
    | some i ↦ has_mode t.control mode && ltb_ℤ (pos now) (effective_end i t)
  ]

  -- The first such control is executed, and the search ends.
  unfoldable pub recover_mode : String → ℕ → Dict ℕ → Client → World → Client × World
  recover_mode mode now [] c w = (c, w)
  recover_mode mode now ((_, r) ∷ d) c w =
      let rest = recover_mode mode now d c w in
      if recoverable mode now (c.objects r) then execute_control same r c w else rest

  unfoldable pub recover_modes : ℕ → Dict ℕ → Client → World → Client × World
  recover_modes now [] c w = (c, w)
  recover_modes now ((mode, r) ∷ d) c w =
      let (c₁, w₁) =
        if is_completed (c.objects r).status
        then recover_mode mode now c.tracked_controls c w
        else (c, w) in
      recover_modes now d c₁ w₁

  unfoldable pub check_control_recovery : Client → World → Client × World
  check_control_recovery c w =
      if de_energized "opModEnergize" c || de_energized "opModConnect" c
      then (c, w)
      else recover_modes w.now c.active_by_mode c w

  -- The second half of the loop's body: an active control whose time is over is completed.
  unfoldable pub complete_if_over : DateTimeInterval → ℕ → ℕ → Client → World → Client × World
  complete_if_over i now r c w =
      let (c₁, w₁) = report r event_completed (change r (set_status completed) c) w in
      let recovered = check_control_recovery c₁ w₁ in
      if is_active (c.objects r).status && leb_ℤ (effective_end i (c.objects r)) (pos now)
      then recovered
      else (c, w)

  -- The first half: a scheduled control whose time has come is executed.
  unfoldable pub start_if_due : DateTimeInterval → ℕ → ℕ → Client → World → Client × World
  start_if_due i now r c w =
      if leb_ℤ (effective_start i (c.objects r)) (pos now)
      then execute_control same r c w
      else (c, w)

  unfoldable pub visit : ℕ → ℕ → Client → World → Client × World
  visit now r c w = elim (c.objects r).control.interval [
    | none ↦ (c, w)
    | some i ↦
        let (c₁, w₁) = start_if_due i now r c w in
        let both = complete_if_over i now r c₁ w₁ in
        if is_scheduled (c.objects r).status then both else (c, w)
  ]

  unfoldable pub visit_all : ℕ → Dict ℕ → Client → World → Client × World
  visit_all now [] c w = (c, w)
  visit_all now ((_, r) ∷ d) c w = let (c₁, w₁) = visit now r c w in visit_all now d c₁ w₁

  -- One pass of the loop.
  unfoldable pub schedule_pass : Client → World → Client × World
  schedule_pass c w = visit_all w.now c.tracked_controls c w
