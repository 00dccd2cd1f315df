-- ===== src/Handler/Execution.antt =====
-- `_execute_control` of src/bms_2030_5_client/dera/handler.py: how an event ends, and which
-- register writes it causes.
use ieee2030_5_cold_client.Prelude.{ℕ, ◌≡◌, ◌≢◌, Bool, true, false, Option, none, some, arith}
use ieee2030_5_cold_client.Prelude.Int.{ℤ, pos}
use ieee2030_5_cold_client.World.{World, draw}
use ieee2030_5_cold_client.Models.{DerControl, get_power_setpoint_w}
use ieee2030_5_cold_client.Power.Controller.{
  PowerControlResult, SafePowerController, set_power_setpoint, disconnect_pcs, reconnect_pcs,
}
use ieee2030_5_cold_client.Handler.{
  Status, active, completed, failed, Handler, change, set_status, event_id,
  supersede_and_set_active, report, command, lift_stop, apply_setpoint, dispatch, execute_control,
}

-- The event is over: done or refused.
abbrev pub is_settled : Status → Bool
is_settled completed = true
is_settled failed = true
is_settled _ = false

-- Where `r` is not the active event itself, `_supersede_and_set_active` leaves it as it was.
objects-supersede :
    (r : ℕ) (h : Handler) (w : World)
    → h.active_event ≢ some r
    → (supersede_and_set_active r h w).0.objects r ≡ h.objects r
unfolding supersede_and_set_active
objects-supersede r h w ne = ground arith

pub writes-supersede :
    (r : ℕ) (h : Handler) (w : World) → (supersede_and_set_active r h w).1.writes ≡ w.writes
unfolding supersede_and_set_active event_id draw
writes-supersede r h w = ground arith

pub controller-supersede :
    (r : ℕ) (h : Handler) (w : World)
    → (supersede_and_set_active r h w).0.power_controller ≡ h.power_controller
unfolding supersede_and_set_active
controller-supersede r h w = ground arith

changed-is_settled :
    (r : ℕ) (x : PowerControlResult) (h : Handler)
    → is_settled ((change r (report x) h).objects r).status ≡ true
changed-is_settled r x h = ground arith

command-is_settled :
    (run : SafePowerController → World → PowerControlResult × SafePowerController × World) (r : ℕ)
    (h : Handler) (w : World)
    → h.active_event ≢ some r
    → is_settled ((command run r h w).0.objects r).status ≡ true
unfolding command
command-is_settled run r h w ne =
    let (x, c, w₁) = run h.power_controller w in
    let h₁ = change r (report x) (record h { power_controller = c }) in
    rw (objects-supersede r h₁ w₁ ne) (changed-is_settled r x (record h { power_controller = c }))

pub active-supersede :
    (r : ℕ) (h : Handler) (w : World) → (supersede_and_set_active r h w).0.active_event ≡ some r
unfolding supersede_and_set_active
active-supersede r h w = ground arith

apply_setpoint-is_settled :
    (power_w : Option ℤ) (r : ℕ) (h : Handler) (w : World)
    → is_settled ((apply_setpoint power_w r h w).0.objects r).status ≡ true
unfolding apply_setpoint
apply_setpoint-is_settled none r h w = ground arith
apply_setpoint-is_settled (some p) r h w =
    let (h₁, w₁) = supersede_and_set_active r h w in
    let (x, c, w₂) = set_power_setpoint p h₁.power_controller w₁ in
    changed-is_settled r x (record h₁ { power_controller = c })

energized-is_settled :
    (r : ℕ) (h : Handler) (w : World)
    → h.active_event ≢ some r
    → is_settled
        ((supersede_and_set_active r (change r (set_status completed) h) w).0.objects r).status
      ≡ true
energized-is_settled r h w ne =
    rw (objects-supersede r (change r (set_status completed) h) w ne) (ground arith)

dispatch-is_settled :
    (control : DerControl) (r : ℕ) (h : Handler) (w : World)
    → h.active_event ≢ some r
    → is_settled ((dispatch control r h w).0.objects r).status ≡ true
unfolding dispatch
dispatch-is_settled control r h w ne = ground (
  arith,
  command-is_settled reconnect_pcs r h (lift_stop "opModConnect=true" w) ne,
  energized-is_settled r h (lift_stop "opModEnergize=true" w) ne,
  command-is_settled disconnect_pcs r h w ne,
  command-is_settled (set_power_setpoint (pos 0)) r h w ne,
  apply_setpoint-is_settled (get_power_setpoint_w control) r h w,
)

-- Whatever the control asks and the device replies, `_execute_control` leaves an event that was not
-- the active one completed or failed, and never active.
pub execute_control-is_settled :
    (r : ℕ) (h : Handler) (w : World)
    → h.active_event ≢ some r
    → is_settled ((execute_control r h w).0.objects r).status ≡ true
unfolding execute_control
execute_control-is_settled r h w ne =
    dispatch-is_settled (h.objects r).control r
      (change r (λ e. record e { status = active; executed_time = some w.now }) h) w ne
