-- ===== src/Handler.antt =====
-- src/bms_2030_5_client/dera/handler.py: `DERControlHandler` takes control events to the power controller. Event
-- objects are shared: the handler's dictionary, its active event and its callers hold references
-- into `objects`. The class's lock makes each operation here one piece. The callback
-- `_on_control_executed` and the XML parsing are not modelled.
pub mod Execution
pub mod Sending
pub mod Tracking
pub mod Cancelling
use Prim.Native.String
use ieee2030_5_cold_client.Prelude.{
  ℕ, ◌+◌, ◌-◌, ◌<◌, String, Bool, true, false, Option, none, some, List, [], ◌∷◌, ◌++◌, ◌&&◌, ◌||◌,
  not, if◌then◌else◌, ltb, leb, ◌==◌, str_eq, map, nonempty,
}
use ieee2030_5_cold_client.Prelude.Int.{ℤ, pos, ltb_ℤ}
use ieee2030_5_cold_client.Prelude.Lists.{length, take}
use ieee2030_5_cold_client.Prelude.Dict.{Dict, lookup, insert, erase}
use ieee2030_5_cold_client.Prelude.Sort.{sorted}
use ieee2030_5_cold_client.Stop.{is_stopped, reset_by_server}
use ieee2030_5_cold_client.World.{World, draw}
use ieee2030_5_cold_client.Models.{
  DerControl, op_mod_connect, op_mod_energize, is_true, is_false, get_power_setpoint_w,
  seconds_until_start, interval_is_active,
}
use ieee2030_5_cold_client.Power.Limits.{Fault, emergency_stop_active, message}
use ieee2030_5_cold_client.Power.Controller.{
  PowerControlResult, SafePowerController, success, set_power_setpoint, disconnect_pcs,
  reconnect_pcs,
}

-- `DERControlEventStatus`.
pub data Status : Type 0 where
  pending scheduled active completed cancelled superseded failed : Status

pub record DerControlEvent : Type 0 where
  pub control : DerControl
  pub status : Status
  pub received_time : ℕ
  pub executed_time : Option ℕ
  pub result : Option PowerControlResult
  -- the texts that `"; ".join(...)` joins
  pub error_message : Option (List Fault)

pub record Handler : Type 0 where
  pub power_controller : SafePowerController
  pub max_tracked_events : ℕ
  pub completed_event_retention_s : ℕ
  pub objects : ℕ → DerControlEvent
  pub allocated : ℕ
  pub events : Dict ℕ
  pub active_event : Option ℕ
  pub default_der_control : Option DerControl

abbrev pub change : ℕ → (DerControlEvent → DerControlEvent) → Handler → Handler
change r f h = record h { objects = λ k. if k == r then f (h.objects k) else h.objects k }

abbrev pub set_status : Status → DerControlEvent → DerControlEvent
set_status s e = record e { status = s }

-- `DERControlEvent(control=control)`.
pub new_event : DerControl → ℕ → Handler → ℕ × Handler
new_event control now h =
    let e : DerControlEvent = record {
      control = control;
      status = pending;
      received_time = now;
      executed_time = none;
      result = none;
      error_message = none;
    } in
    (h.allocated, record (change h.allocated (λ _. e) h) { allocated = h.allocated + 1 })

-- The property `event_id`: without an mRID it is drawn anew each time that it is read.
pub event_id : DerControlEvent → World → String × World
event_id e w = elim e.control.m_rid [
  | none ↦ draw w
  | some m ↦ if nonempty m then (m, w) else draw w
]

-- A status in which a new event supersedes the active one.
abbrev was_in_force : Status → Bool
was_in_force active = true
was_in_force completed = true
was_in_force _ = false

abbrev supersede : DerControlEvent → DerControlEvent
supersede e = if was_in_force e.status then set_status superseded e else e

pub supersede_and_set_active : ℕ → Handler → World → Handler × World
unfolding event_id
supersede_and_set_active r h w = elim h.active_event [
  | none ↦ (record h { active_event = some r }, w)
  | some a ↦
      let (id, w₁) = event_id (h.objects a) w in
      let (id', w₂) = event_id (h.objects r) w₁ in
      (record (if str_eq id id' then h else change a supersede h) { active_event = some r }, w₂)
]

-- What the branches of `_execute_control` write to the event behind a command.
abbrev report : PowerControlResult → DerControlEvent → DerControlEvent
report r e =
    if success r
    then record e { result = some r; status = completed }
    else record e { result = some r; status = failed; error_message = some r.errors }

-- A command of the power controller, its report, and then the change of the active event.
pub command :
    (SafePowerController → World → PowerControlResult × SafePowerController × World)
    → ℕ
    → Handler
    → World
    → Handler × World
command run r h w =
    let (result, c, w₁) = run h.power_controller w in
    supersede_and_set_active r (change r (report result) (record h { power_controller = c })) w₁

-- `if was_stopped: EmergencyStop.reset_by_server(...)`.
pub lift_stop : String → World → World
lift_stop source w =
    if is_stopped w.stop then record w { stop = (reset_by_server source w.stop).1 } else w

-- The last branch: a power setpoint, or none.
pub apply_setpoint : Option ℤ → ℕ → Handler → World → Handler × World
apply_setpoint none r h w = (
  change r
      (λ e. record e {
        status = completed;
        error_message = some (message "No power setpoint specified" ∷ []);
      })
      h,
  w,
)
apply_setpoint (some power_w) r h w =
    let (h₁, w₁) = supersede_and_set_active r h w in
    let (result, c, w₂) = set_power_setpoint power_w h₁.power_controller w₁ in
    (change r (report result) (record h₁ { power_controller = c }), w₂)

-- `_execute_control`, where `control` is the event's. The commands that lift the emergency stop come
-- before the test of it.
pub dispatch : DerControl → ℕ → Handler → World → Handler × World
dispatch control r h w =
    if is_true (op_mod_connect control)
    then command reconnect_pcs r h (lift_stop "opModConnect=true" w)
    else if is_true (op_mod_energize control)
    then supersede_and_set_active r (change r (set_status completed) h)
        (lift_stop "opModEnergize=true" w)
    else if is_stopped w.stop
    then (
      change r
          (λ e. record e { status = failed; error_message = some (emergency_stop_active ∷ []) }) h,
      w,
    )
    else if is_false (op_mod_connect control)
    then command disconnect_pcs r h w
    else if is_false (op_mod_energize control)
    then command (set_power_setpoint (pos 0)) r h w
    else apply_setpoint (get_power_setpoint_w control) r h w

pub execute_control : ℕ → Handler → World → Handler × World
execute_control r h w =
    dispatch (h.objects r).control r
      (change r (λ e. record e { status = active; executed_time = some w.now }) h) w

-- `self._events[event.event_id] = event`.
pub track : ℕ → Handler → World → Handler × World
unfolding event_id
track r h w =
    let (id, w') = event_id (h.objects r) w in (record h { events = insert id r h.events }, w')

abbrev is_over : Status → Bool
is_over completed = true
is_over cancelled = true
is_over failed = true
is_over superseded = true
is_over _ = false

-- `event.executed_time and event.executed_time < cutoff`, where a time of 0 counts as none.
before : Option ℕ → ℕ → Bool
before none cutoff = false
before (some t) cutoff = not (t == 0) && ltb t cutoff

erase_all : List (String × ℕ) → Dict ℕ → Dict ℕ
erase_all [] d = d
erase_all ((k, _) ∷ ks) d = erase_all ks (erase k d)

stale : (ℕ → DerControlEvent) → ℕ → Dict ℕ → List (String × ℕ)
unfolding before
stale objects cutoff [] = []
stale objects cutoff ((k, r) ∷ d) =
    let rest = stale objects cutoff d in
    if is_over (objects r).status && before (objects r).executed_time cutoff
    then (k, r) ∷ rest
    else rest

pub cleanup_old_events : Handler → World → Handler
unfolding erase_all stale
cleanup_old_events h w =
    let kept =
      erase_all (stale h.objects (w.now - h.completed_event_retention_s) h.events) h.events in
    let by_age = sorted (λ (e : String × ℕ). pos (h.objects e.1).received_time) kept in
    let bounded =
      if ltb h.max_tracked_events (length kept)
      then erase_all (take (length kept - h.max_tracked_events) by_age) kept
      else kept in
    record h { events = bounded }

-- `control.interval and control.interval.seconds_until_start() > 0`.
pub in_future : DerControl → ℕ → Bool
in_future control now = elim control.interval [
  | none ↦ false
  | some i ↦ ltb_ℤ (pos 0) (seconds_until_start i now)
]

-- The reference of the event comes first.
pub handle_control : DerControl → Handler → World → ℕ × Handler × World
handle_control control h w =
    let (r, h₁) = new_event control w.now h in
    if in_future control w.now
    then (let (h₂, w₂) = track r (change r (set_status scheduled) h₁) w in (r, h₂, w₂))
    else (let (h₂, w₂) = execute_control r h₁ w in
        let (h₃, w₃) = track r h₂ w₂ in (r, cleanup_old_events h₃ w₃, w₃))

handle_all : List DerControl → Handler → World → List ℕ × Handler × World
handle_all [] h w = ([], h, w)
handle_all (c ∷ cs) h w =
    let (r, h₁, w₁) = handle_control c h w in
    let (rs, h₂, w₂) = handle_all cs h₁ w₁ in (r ∷ rs, h₂, w₂)

pub handle_control_list : List DerControl → Handler → World → List ℕ × Handler × World
unfolding handle_all
handle_control_list controls h w = handle_all (sorted (λ c. c.primacy) controls) h w

pub set_default_der_control : Option DerControl → Handler → Handler
set_default_der_control control h = record h { default_der_control = control }

pub apply_default : Option DerControl → Handler → World → Handler × World
apply_default none h w = (h, w)
apply_default (some control) h w =
    let (r, h₁) = new_event control w.now h in
    let (h₂, w₂) = execute_control r h₁ w in track r h₂ w₂

pub apply_default_control : Handler → World → Handler × World
apply_default_control h w = apply_default h.default_der_control h w

-- The statuses that `cancel_control` takes back.
abbrev pub can_cancel : Status → Bool
can_cancel pending = true
can_cancel scheduled = true
can_cancel active = true
can_cancel completed = true
can_cancel _ = false

-- The active event is cancelled: the power goes back, and the default control follows.
pub release : DerControl → Handler → World → Handler × World
release control h w =
    let lifted = record w { stop = (reset_by_server "cancel" w.stop).1 } in
    let (_, c, w₁) =
      if is_false (op_mod_connect control) || is_false (op_mod_energize control)
      then reconnect_pcs h.power_controller lifted
      else set_power_setpoint (pos 0) h.power_controller w in
    apply_default_control (record h { power_controller = c; active_event = none }) w₁

-- `event == self._active_event`: the comparison that `@dataclass` generates is a parameter.
pub is_active_event : (DerControlEvent → DerControlEvent → Bool) → DerControlEvent → Handler → Bool
is_active_event same e h = elim h.active_event [ none ↦ false | some a ↦ same e (h.objects a) ]

-- What follows the lookup in `_events`.
pub cancel_found :
    (DerControlEvent → DerControlEvent → Bool) → Option ℕ → Handler → World → Bool × Handler × World
cancel_found same none h w = (false, h, w)
cancel_found same (some r) h w =
    let h₁ = change r (set_status cancelled) h in
    let (h₂, w₂) =
      if is_active_event same (h₁.objects r) h₁
      then release (h₁.objects r).control h₁ w
      else (h₁, w) in
    if can_cancel (h.objects r).status then (true, h₂, w₂) else (false, h, w)

pub cancel_control :
    (DerControlEvent → DerControlEvent → Bool) → String → Handler → World → Bool × Handler × World
cancel_control same id h w = cancel_found same (lookup id h.events) h w

-- `_process_scheduled_events`, over the references that the dictionary held at the start.
process : ℕ → Dict ℕ → Handler → World → Handler × World
process now [] h w = (h, w)
process now ((_, r) ∷ d) h w =
    let due : Bool = elim (h.objects r).control.interval [
      | none ↦ false
      | some i ↦ interval_is_active i now
    ] in
    let scheduled_now : Bool = elim (h.objects r).status [ scheduled ↦ true | _ ↦ false ] in
    let (h₁, w₁) = if scheduled_now && due then execute_control r h w else (h, w) in
    process now d h₁ w₁

pub process_scheduled_events : Handler → World → Handler × World
unfolding process
process_scheduled_events h w = process w.now h.events h w
