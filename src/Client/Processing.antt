-- ===== src/Client/Processing.antt =====
-- `_process_control`, `_poll_program_controls` and `_check_default_control` of src/bms_2030_5_client/dera/der_client.py.
-- `http_client._get` is a parameter: its outcome for an address at each await. The equality that
-- `@dataclass` generates for events, default controls and programs is a parameter too.
pub mod Durations
use ieee2030_5_cold_client.Prelude.{
  ℕ, ◌+◌, ◌*◌, String, Bool, true, false, Option, none, some, List, [], ◌∷◌, ◌++◌, ◌&&◌, ◌||◌, not,
  if◌then◌else◌, ◌==◌, nonempty, or_text, is_some, Outcome, returned, raised,
}
use ieee2030_5_cold_client.Prelude.Int.{ℤ, pos, abs, ◌+ℤ◌, ◌-ℤ◌, ltb_ℤ, leb_ℤ}
use ieee2030_5_cold_client.Prelude.Dict.{Dict, lookup, insert}
use ieee2030_5_cold_client.World.{World, wait, roll}
use ieee2030_5_cold_client.Models.{
  DateTimeInterval, EventStatus, SignedPerCent, DerControl, DerControlBase, DerProgram,
  DefaultDerControl, to_watts,
}
use ieee2030_5_cold_client.Power.Controller.{success, set_power_setpoint}
use ieee2030_5_cold_client.Handler.{
  Status, pending, scheduled, active, cancelled, DerControlEvent, Handler,
}
use ieee2030_5_cold_client.Client.State.{
  ResponseStatus, event_received, event_expired, TrackedProgram, TrackedControl, Client, change,
  set_status, control_id, mem, keep_last,
}
use ieee2030_5_cold_client.Client.Response.{report}
use ieee2030_5_cold_client.Client.Conflict.{handle_server_cancel}
use ieee2030_5_cold_client.Client.Execution.{execute_control}

-- `_calculate_randomized_start` and `_calculate_randomized_duration`.
unfoldable pub randomized_start : Bool → DerControl → World → Option ℤ × World
randomized_start enabled control w = elim control.randomize_start [
  | none ↦ (none, w)
  | some n ↦
      let (x, w') = roll (pos 0) (abs n) w in
      if enabled && ltb_ℤ (pos 0) n then (some x, w') else (none, w)
]

unfoldable pub randomized_duration : Bool → DerControl → World → Option ℤ × World
randomized_duration enabled control w = elim control.randomize_duration [
  | none ↦ (none, w)
  | some n ↦
      let (x, w') = roll (pos 0 -ℤ pos (abs n)) (2 * abs n) w in
      if enabled && not (abs n == 0) then (some x, w') else (none, w)
]

abbrev pub or_zero : Option ℤ → ℤ
or_zero none = pos 0
or_zero (some x) = x

unfoldable pub effective_start : DateTimeInterval → TrackedControl → ℤ
effective_start i t = i.start +ℤ or_zero t.randomized_start

unfoldable pub effective_end : DateTimeInterval → TrackedControl → ℤ
effective_end i t = i.start +ℤ i.duration +ℤ or_zero t.randomized_duration

-- `self._tracked_controls[ctrl_id] = TrackedControl(...)`.
unfoldable pub track : DerControl → DerProgram → Option ℤ → Option ℤ → Client → ℕ × Client
track control program start duration c =
    let t : TrackedControl = record {
      control = control;
      program = program;
      primacy = program.primacy;
      event = none;
      randomized_start = start;
      randomized_duration = duration;
      response_sent = false;
      status = pending;
      pending_response = none;
      response_retry_count = 0;
      last_response_attempt = 0;
    } in
    (
      c.allocated,
      record (change c.allocated (λ _. t) c) {
        allocated = c.allocated + 1;
        tracked_controls = insert (control_id control) c.allocated c.tracked_controls;
      },
    )

-- `control.EventStatus and control.EventStatus.currentStatus == 2`.
unfoldable pub server_cancelled : DerControl → Bool
server_cancelled control = elim control.event_status [
  | none ↦ false
  | some s ↦ s.current_status == 2
]

module _ (same : DerControlEvent → DerControlEvent → Bool) where
  -- A new control by its time: executed, scheduled or expired.
  unfoldable pub place : Option DateTimeInterval → ℕ → Client → World → Client × World
  place none r c w = execute_control same r c w
  place (some i) r c w =
      let t = c.objects r in
      let now = pos w.now in
      let running = leb_ℤ (effective_start i t) now && ltb_ℤ now (effective_end i t) in
      let (c₁, w₁) = report r event_received c w in
      if running
      then execute_control same r c w
      else if ltb_ℤ now (effective_start i t)
      then (change r (set_status scheduled) c₁, w₁)
      else report r event_expired (change r (set_status cancelled) c) w

  -- `_processed_mRIDs.append(ctrl_id)`.
  abbrev pub mark_processed : String → Client → Client
  mark_processed id c = record c {
    processed = keep_last c.processed_event_retention (c.processed ++ id ∷ []);
  }

  unfoldable pub process_control : DerControl → DerProgram → Client → World → Client × World
  process_control control program c w =
      let id = control_id control in
      let (start, w₁) = randomized_start c.enable_randomization control w in
      let (duration, w₂) = randomized_duration c.enable_randomization control w₁ in
      let (r, c₁) = track control program start duration c in
      let (c₂, w₃) = place control.interval r c₁ w₂ in
      if mem id c.processed
      then (if server_cancelled control && not (mem id c.cancelled)
          then handle_server_cancel same id (record c { cancelled = id ∷ c.cancelled }) w
          else (c, w))
      else (mark_processed id c₂, w₃)

  unfoldable pub process_controls : List DerControl → DerProgram → Client → World → Client × World
  process_controls [] program c w = (c, w)
  process_controls (x ∷ xs) program c w =
      let (c₁, w₁) = process_control x program c w in process_controls xs program c₁ w₁

-- `any(ctrl.status == ACTIVE for ctrl in self._tracked_controls.values())`.
abbrev pub is_active : Status → Bool
is_active active = true
is_active _ = false

unfoldable pub any_active : Dict ℕ → Client → Bool
any_active [] c = false
any_active ((_, r) ∷ d) c = is_active (c.objects r).status || any_active d c

-- `min(values, key=primacy)`: the first of the least.
least : TrackedProgram → Dict TrackedProgram → TrackedProgram
least p [] = p
least p ((_, q) ∷ d) = least (if ltb_ℤ q.primacy p.primacy then q else p) d

unfoldable pub highest_priority_program : Dict TrackedProgram → Option TrackedProgram
unfolding least
highest_priority_program [] = none
highest_priority_program ((_, p) ∷ d) = some (least p d)

module _ (same_default : DefaultDerControl → DefaultDerControl → Bool)
    (same_program : DerProgram → DerProgram → Bool) where
  unfoldable pub already_applied : DefaultDerControl → DerProgram → Client → Bool
  already_applied d p c = elim c.active_default [
    | none ↦ false
    | some d' ↦ elim c.active_default_program [
      | none ↦ false
      | some p' ↦ same_default d' d && same_program p' p
    ]
  ]

  -- `default_ctrl.DERControlBase.opModFixedW.to_watts()`, where both are there.
  unfoldable pub default_power : DefaultDerControl → Option ℤ
  default_power d = elim d.base [
    | none ↦ none
    | some b ↦ elim b.op_mod_fixed_w [ none ↦ none | some s ↦ some (to_watts s) ]
  ]

  unfoldable pub apply_default :
      DefaultDerControl → DerProgram → ℤ → Client → World → Client × World
  apply_default d p power_w c w =
      let (result, controller, w₁) = set_power_setpoint power_w c.handler.power_controller w in
      let c₁ = record c { handler = record c.handler { power_controller = controller } } in
      if success result
      then (record c₁ { active_default = some d; active_default_program = some p }, w₁)
      else (c₁, w₁)

  unfoldable pub apply_highest : Option TrackedProgram → Client → World → Client × World
  unfolding already_applied default_power apply_default
  apply_highest none c w = (c, w)
  apply_highest (some h) c w = elim h.default_control [
    | none ↦ (c, w)
    | some d ↦
        if already_applied d h.program c
        then (c, w)
        else elim (default_power d) [ none ↦ (c, w) | some p ↦ apply_default d h.program p c w ]
  ]

  unfoldable pub check_default_control : Client → World → Client × World
  check_default_control c w =
      if any_active c.tracked_controls c
      then (c, w)
      else apply_highest (highest_priority_program c.tracked_programs) c w

module _ (same : DerControlEvent → DerControlEvent → Bool)
    (same_default : DefaultDerControl → DefaultDerControl → Bool)
    (same_program : DerProgram → DerProgram → Bool)
    (get : (at : ℕ) → (href : String) → Outcome (Option (List DerControl))) where
  abbrev set_poll_time : String → ℕ → Client → Client
  set_poll_time id now c = elim (lookup id c.tracked_programs) [
    | none ↦ c
    | some t ↦ record c {
      tracked_programs = insert id (record t { last_poll_time = now }) c.tracked_programs;
    }
  ]

  -- The list that the server gave; a GET that raises ends the poll of this program.
  unfoldable pub polled :
      String → TrackedProgram → Outcome (Option (List DerControl)) → Client → World → Client × World
  polled id t (raised e) c w = (c, w)
  polled id t (returned none) c w = check_default_control same_default same_program c w
  polled id t (returned (some [])) c w = check_default_control same_default same_program c w
  polled id t (returned (some (x ∷ xs))) c w =
      let (c₁, w₁) = process_controls same (x ∷ xs) t.program c w in
      (set_poll_time id w₁.now c₁, w₁)

  unfoldable pub poll_program_controls : String → TrackedProgram → Client → World → Client × World
  poll_program_controls id t c w =
      let href = or_text t.program.der_control_list_href "" in
      if nonempty href then polled id t (get w.at href) c (wait w) else (c, w)

  unfoldable pub poll_all : Dict TrackedProgram → Client → World → Client × World
  poll_all [] c w = (c, w)
  poll_all ((id, t) ∷ d) c w = let (c₁, w₁) = poll_program_controls id t c w in poll_all d c₁ w₁

  unfoldable pub poll_controls : Client → World → Client × World
  poll_controls c w = poll_all c.tracked_programs c w
