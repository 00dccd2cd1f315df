-- ===== src/Client/Conflict.antt =====
-- `_resolve_conflict`, `_track_active_control`, `_is_de_energize_control`, `_cancel_all_active_controls` and
-- `_cancel_control` of src/bms_2030_5_client/dera/der_client.py: which controls hold which mode.
pub mod Winning
use ieee2030_5_cold_client.Prelude.{
  ℕ, ◌+◌, String, Bool, true, false, Option, none, some, List, [], ◌∷◌, ◌&&◌, ◌||◌, if◌then◌else◌,
  str_eq, is_some,
}
use ieee2030_5_cold_client.Prelude.Int.{ℤ, ltb_ℤ, leb_ℤ}
use ieee2030_5_cold_client.Prelude.Dict.{Dict, lookup, insert, erase}
use ieee2030_5_cold_client.World.{World}
use ieee2030_5_cold_client.Models.{DerControl, op_mod_connect, op_mod_energize, is_false}
use ieee2030_5_cold_client.Handler.{
  Status, active, completed, scheduled, superseded, cancelled, DerControlEvent, Handler, event_id,
  cancel_control,
}
use ieee2030_5_cold_client.Client.State.{
  ResponseStatus, event_superseded, event_cancelled, TrackedControl, Client, change, set_status,
  control_id, modes,
}
use ieee2030_5_cold_client.Client.Response.{report}

-- Does the control that holds a mode keep it against the new one? `creationTime or 0` is the number itself.
unfoldable pub keeps_mode : TrackedControl → TrackedControl → Bool
keeps_mode existing new =
    if ltb_ℤ existing.primacy new.primacy
    then true
    else if ltb_ℤ new.primacy existing.primacy
    then false
    else leb_ℤ new.control.creation_time existing.control.creation_time

-- The loop over the new control's modes. True means that the new control is superseded; the holders
-- that the loop has passed by then are superseded already.
unfoldable pub resolve_modes : List String → ℕ → Client → World → Bool × Client × World
resolve_modes [] r c w = (false, c, w)
resolve_modes (m ∷ ms) r c w = elim (lookup m c.active_by_mode) [
  | none ↦ resolve_modes ms r c w
  | some e ↦
      let (c₁, w₁) = report e event_superseded (change e (set_status superseded) c) w in
      let rest = resolve_modes ms r c₁ w₁ in
      if keeps_mode (c.objects e) (c.objects r) then (true, c, w) else rest
]

unfoldable pub resolve_conflict : ℕ → Client → World → Bool × Client × World
resolve_conflict r c w = resolve_modes (modes (c.objects r).control) r c w

unfoldable pub insert_modes : List String → ℕ → Dict ℕ → Dict ℕ
insert_modes [] r d = d
insert_modes (m ∷ ms) r d = insert_modes ms r (insert m r d)

unfoldable pub track_active_control : ℕ → Client → Client
unfolding insert_modes
track_active_control r c = record c {
  active_by_mode = insert_modes (modes (c.objects r).control) r c.active_by_mode;
}

unfoldable pub is_de_energize_control : DerControl → Bool
is_de_energize_control control =
    is_false (op_mod_energize control) || is_false (op_mod_connect control)

abbrev pub holds : Status → Bool
holds active = true
holds completed = true
holds _ = false

-- Step 1, over the entries that `_active_by_mode` had at the start.
unfoldable pub release_modes : String → Dict ℕ → Client → World → Client × World
release_modes id [] c w = (c, w)
release_modes id ((m, e) ∷ d) c w =
    let (c₁, w₁) = report e event_superseded (change e (set_status superseded) c) w in
    let held = release_modes id d (record c₁ { active_by_mode = erase m c₁.active_by_mode }) w₁ in
    let other = release_modes id d c w in
    if str_eq (control_id (c.objects e).control) id
    then other
    else if holds (c.objects e).status
    then held
    else other

-- Step 2, over the tracked controls.
abbrev pub is_scheduled : Status → Bool
is_scheduled scheduled = true
is_scheduled _ = false

unfoldable pub drop_scheduled : String → Dict ℕ → Client → World → Client × World
drop_scheduled id [] c w = (c, w)
drop_scheduled id ((k, e) ∷ d) c w =
    let (c₁, w₁) = report e event_superseded (change e (set_status superseded) c) w in
    let dropped = drop_scheduled id d c₁ w₁ in
    let other = drop_scheduled id d c w in
    if str_eq k id then other else if is_scheduled (c.objects e).status then dropped else other

-- Step 4: the handler's active event, by an id that may be drawn anew for each reading.
unfoldable pub cancel_active :
    (DerControlEvent → DerControlEvent → Bool) → String → Client → World → Client × World
cancel_active same id c w = elim c.handler.active_event [
  | none ↦ (c, w)
  | some a ↦
      let (active_id, w₁) = event_id (c.handler.objects a) w in
      let (_, h, w₂) = cancel_control same active_id c.handler w₁ in
      if str_eq active_id id then (c, w₁) else (record c { handler = h }, w₂)
]

unfoldable pub cancel_all_active_controls :
    (DerControlEvent → DerControlEvent → Bool) → String → Client → World → Client × World
cancel_all_active_controls same id c w =
    let (c₁, w₁) = release_modes id c.active_by_mode c w in
    let (c₂, w₂) = drop_scheduled id c₁.tracked_controls c₁ w₁ in
    cancel_active same id
      (record c₂ {
        active_default = none;
        active_default_program =
            if is_some c₂.active_default then none else c₂.active_default_program;
      })
      w₂

-- `_cancel_control`; its reason goes to the log alone.
unfoldable pub cancel_tracked : String → Client → World → Client × World
cancel_tracked id c w = elim (lookup id c.tracked_controls) [
  | none ↦ (c, w)
  | some r ↦ report r event_cancelled (change r (set_status cancelled) c) w
]

-- `_handle_server_cancel`.
unfoldable pub handle_server_cancel :
    (DerControlEvent → DerControlEvent → Bool) → String → Client → World → Client × World
handle_server_cancel same id c w =
    let (_, h, w₁) = cancel_control same id c.handler w in
    cancel_tracked id (record c { handler = h }) w₁
