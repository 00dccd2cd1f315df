-- ===== src/Handler/Tracking.antt =====
-- What the operations of src/bms_2030_5_client/dera/handler.py keep: the active event is one that
-- the handler has made, and an event that `handle_control` returns is over or scheduled.
use ieee2030_5_cold_client.Prelude.{
  ℕ, ◌<◌, ◌≡◌, ◌≢◌, ◌⊎◌, inl, inr, refl, Bool, true, false, ◌||◌, Option, none, some, arith,
  Bool-cases, if_intro, String,
}
use ieee2030_5_cold_client.Prelude.Int.{ℤ, pos}
use ieee2030_5_cold_client.Prelude.Dict.{lookup}
use ieee2030_5_cold_client.World.{World}
use ieee2030_5_cold_client.Models.{DerControl, get_power_setpoint_w}
use ieee2030_5_cold_client.Power.Controller.{
  PowerControlResult, SafePowerController, set_power_setpoint, disconnect_pcs, reconnect_pcs,
}
use ieee2030_5_cold_client.Handler.{
  Status, scheduled, active, completed, cancelled, DerControlEvent, Handler, change, set_status,
  new_event, supersede_and_set_active, report, command, lift_stop, apply_setpoint, dispatch,
  execute_control, track, cleanup_old_events, in_future, handle_control, apply_default,
  apply_default_control, release, cancel_found, is_active_event, can_cancel, cancel_control,
}
use ieee2030_5_cold_client.Handler.Execution.{is_settled, execute_control-is_settled}

-- The handler's active event is one of those that it has made.
abbrev pub IsBounded : Handler → Type 0
IsBounded h = (a : ℕ) → h.active_event ≡ some a → a < h.allocated

abbrev is_waiting : Status → Bool
is_waiting scheduled = true
is_waiting _ = false

-- An execution of `r` leaves the active event or makes it `r`, and makes no new event.
abbrev Moves : ℕ → Handler → Handler → Type 0
Moves r h h' =
    ((h'.active_event ≡ h.active_event) ⊎ (h'.active_event ≡ some r)) × (h'.allocated ≡ h.allocated)

supersede-Moves : (r : ℕ) (h : Handler) (w : World) → Moves r h (supersede_and_set_active r h w).0
unfolding supersede_and_set_active
supersede-Moves r h w = ground arith

command-Moves :
    (run : SafePowerController → World → PowerControlResult × SafePowerController × World) (r : ℕ)
    (h : Handler) (w : World)
    → Moves r h (command run r h w).0
unfolding command
command-Moves run r h w =
    let (x, c, w₁) = run h.power_controller w in
    supersede-Moves r (change r (report x) (record h { power_controller = c })) w₁

apply_setpoint-Moves :
    (p : Option ℤ) (r : ℕ) (h : Handler) (w : World) → Moves r h (apply_setpoint p r h w).0
unfolding apply_setpoint
apply_setpoint-Moves none r h w = (inl refl, refl)
apply_setpoint-Moves (some p) r h w = supersede-Moves r h w

dispatch-Moves :
    (control : DerControl) (r : ℕ) (h : Handler) (w : World) → Moves r h (dispatch control r h w).0
unfolding dispatch
dispatch-Moves control r h w = ground (
  arith,
  command-Moves reconnect_pcs r h (lift_stop "opModConnect=true" w),
  supersede-Moves r (change r (set_status completed) h) (lift_stop "opModEnergize=true" w),
  command-Moves disconnect_pcs r h w,
  command-Moves (set_power_setpoint (pos 0)) r h w,
  apply_setpoint-Moves (get_power_setpoint_w control) r h w,
)

execute_control-Moves : (r : ℕ) (h : Handler) (w : World) → Moves r h (execute_control r h w).0
unfolding execute_control
execute_control-Moves r h w =
    dispatch-Moves (h.objects r).control r
      (change r (λ e. record e { status = active; executed_time = some w.now }) h) w

IsBounded-Moves :
    (r : ℕ) (h h' : Handler) → Moves r h h' → r < h.allocated → IsBounded h → IsBounded h'
IsBounded-Moves r h h' m lt b a e = ground (arith, b a)

new_event-lt :
    (control : DerControl) (now : ℕ) (h : Handler)
    → (new_event control now h).0 < (new_event control now h).1.allocated
unfolding new_event
new_event-lt control now h = omega arith

new_event-IsBounded :
    (control : DerControl) (now : ℕ) (h : Handler)
    → IsBounded h
    → IsBounded (new_event control now h).1
unfolding new_event
new_event-IsBounded control now h b a e = omega (arith, b a e)

-- A new event is not the active one of a bounded handler.
fresh_ne :
    (control : DerControl) (now : ℕ) (h : Handler)
    → IsBounded h
    → (new_event control now h).1.active_event ≢ some (new_event control now h).0
unfolding new_event
fresh_ne control now h b e = absurd (omega (arith, b h.allocated e))

abbrev pub is_closed : Status → Bool
is_closed s = is_settled s || is_waiting s

-- `track` and the cleanup touch neither the events nor the active one.
abbrev Keeps : Handler → Handler → Type 0
Keeps h h' =
    (h'.objects ≡ h.objects) × (h'.active_event ≡ h.active_event) × (h'.allocated ≡ h.allocated)

track-Keeps : (r : ℕ) (h : Handler) (w : World) → Keeps h (track r h w).0
unfolding track
track-Keeps r h w = (refl, refl, refl)

cleanup-Keeps : (h : Handler) (w : World) → Keeps h (cleanup_old_events h w)
unfolding cleanup_old_events
cleanup-Keeps h w = (refl, refl, refl)

-- What `handle_control` promises of its result.
abbrev pub IsHandled : ℕ × Handler × World → Type 0
IsHandled t = (is_closed (t.1.objects t.0).status ≡ true) × IsBounded t.1

IsHandled-Keeps :
    (r : ℕ) (h h' : Handler) (w : World) → Keeps h h' → IsHandled (r, h, w) → IsHandled (r, h', w)
IsHandled-Keeps r h h' w k p = rw (k.0, k.1, k.2) p

schedule-IsHandled :
    (control : DerControl) (h : Handler) (w : World)
    → IsBounded h
    → let (r, h₁) = new_event control w.now h in
      IsHandled (r, change r (set_status scheduled) h₁, w)
unfolding new_event
schedule-IsHandled control h w b = (ground arith, λ a e. omega (arith, b a e))

execute-IsHandled :
    (control : DerControl) (h : Handler) (w : World)
    → IsBounded h
    → let (r, h₁) = new_event control w.now h in
      let (h₂, w₂) = execute_control r h₁ w in IsHandled (r, h₂, w₂)
execute-IsHandled control h w b =
    let (r, h₁) = new_event control w.now h in
    (
      ground (arith, execute_control-is_settled r h₁ w (fresh_ne control w.now h b)),
      IsBounded-Moves r h₁ (execute_control r h₁ w).0 (execute_control-Moves r h₁ w)
          (new_event-lt control w.now h) (new_event-IsBounded control w.now h b),
    )

-- If the active event of a handler is one that the handler has made, then `handle_control` returns
-- an event that is completed, failed or scheduled, and the active event afterwards is again one
-- that the handler has made.
pub handle_control-IsHandled :
    (control : DerControl) (h : Handler) (w : World)
    → IsBounded h
    → IsHandled (handle_control control h w)
unfolding handle_control
handle_control-IsHandled control h w b = elim (Bool-cases (in_future control w.now)) [
  | inl later ↦
      let (r, h₁) = new_event control w.now h in
      let h₂ = change r (set_status scheduled) h₁ in
      rw later (
        IsHandled-Keeps r h₂ (track r h₂ w).0 (track r h₂ w).1 (track-Keeps r h₂ w)
          (schedule-IsHandled control h w b))
  | inr now ↦
      let (r, h₁) = new_event control w.now h in
      let (h₂, w₂) = execute_control r h₁ w in
      let (h₃, w₃) = track r h₂ w₂ in
      rw now (
        IsHandled-Keeps r h₃ (cleanup_old_events h₃ w₃) w₃ (cleanup-Keeps h₃ w₃)
          (IsHandled-Keeps r h₂ h₃ w₃ (track-Keeps r h₂ w₂) (execute-IsHandled control h w b)))
]

execute_new-IsBounded :
    (control : DerControl) (h : Handler) (w : World)
    → IsBounded h
    → let (r, h₁) = new_event control w.now h in
      let (h₂, w₂) = execute_control r h₁ w in IsBounded (track r h₂ w₂).0
unfolding track
execute_new-IsBounded control h w b = (execute-IsHandled control h w b).1

apply_default-IsBounded :
    (d : Option DerControl) (h : Handler) (w : World)
    → IsBounded h
    → IsBounded (apply_default d h w).0
unfolding apply_default
apply_default-IsBounded none h w b = b
apply_default-IsBounded (some control) h w b = execute_new-IsBounded control h w b

-- `apply_default_control` keeps a bounded handler bounded.
pub apply_default_control-IsBounded :
    (h : Handler) (w : World) → IsBounded h → IsBounded (apply_default_control h w).0
unfolding apply_default_control
apply_default_control-IsBounded h w b = apply_default-IsBounded h.default_der_control h w b

release-IsBounded :
    (control : DerControl) (h : Handler) (w : World) → IsBounded (release control h w).0
unfolding release
release-IsBounded control h w = apply_default_control-IsBounded _ _ (λ a e. cc)

cancel_found-IsBounded :
    (same : DerControlEvent → DerControlEvent → Bool) (o : Option ℕ) (h : Handler) (w : World)
    → IsBounded h
    → IsBounded (cancel_found same o h w).1
unfolding cancel_found
cancel_found-IsBounded same none h w b = b
cancel_found-IsBounded same (some r) h w b =
    let h₁ = change r (set_status cancelled) h in
    if_intro (λ (t : Bool × Handler × World). IsBounded t.1) (can_cancel (h.objects r).status)
      (if_intro (λ (t : Handler × World). IsBounded t.0) (is_active_event same (h₁.objects r) h₁)
        (release-IsBounded (h₁.objects r).control h₁ w) b)
      b

-- If the active event of a handler is one that the handler has made, this is so after
-- `cancel_control` too, for every id, also when the default control is executed in its course.
pub cancel_control-IsBounded :
    (same : DerControlEvent → DerControlEvent → Bool) (id : String) (h : Handler) (w : World)
    → IsBounded h
    → IsBounded (cancel_control same id h w).1
unfolding cancel_control
cancel_control-IsBounded same id h w b = cancel_found-IsBounded same (lookup id h.events) h w b
