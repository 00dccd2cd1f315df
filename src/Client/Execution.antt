-- ===== src/Client/Execution.antt =====
-- `_execute_control` of src/bms_2030_5_client/dera/der_client.py. The handler and the reports raise nothing, so that the
-- `except` around them is never taken. The handler's own `source` text is not kept.
use ieee2030_5_cold_client.Prelude.{ℕ, ◌+◌, Bool, true, false, none, some, ◌&&◌, if◌then◌else◌}
use ieee2030_5_cold_client.Stop.{is_stopped}
use ieee2030_5_cold_client.World.{World}
use ieee2030_5_cold_client.Handler.{
  Status, active, completed, failed, superseded, DerControlEvent, handle_control,
}
use ieee2030_5_cold_client.Client.State.{
  event_received, event_started, event_completed, event_superseded, event_aborted_server, Client,
  change, set_status, control_id,
}
use ieee2030_5_cold_client.Client.Response.{report}
use ieee2030_5_cold_client.Client.Conflict.{
  resolve_conflict, track_active_control, is_de_energize_control, cancel_all_active_controls,
}

abbrev pub is_completed : Status → Bool
is_completed completed = true
is_completed _ = false

module _ (same : DerControlEvent → DerControlEvent → Bool) where
  -- What follows the handler, whose event ended with `status`.
  unfoldable pub finish : ℕ → Status → Client → World → Client × World
  finish r status c w =
      let done = change r (set_status status) c in
      let (c₁, w₁) =
        if is_completed status
        then report r event_completed
            (record done { controls_executed = done.controls_executed + 1 }) w
        else (done, w) in
      let c₂ = track_active_control r c₁ in
      if is_completed (c₂.objects r).status && is_de_energize_control (c₂.objects r).control
      then cancel_all_active_controls same (control_id (c₂.objects r).control) c₂ w₁
      else (c₂, w₁)

  -- The body of the `try`, the handler included.
  unfoldable pub start : ℕ → Client → World → Client × World
  start r c w =
      let (c₁, w₁) = report r event_started (change r (set_status active) c) w in
      let (e, h, w₂) = handle_control (c₁.objects r).control c₁.handler w₁ in
      finish r (h.objects e).status
        (change r (λ t. record t { event = some e }) (record c₁ { handler = h })) w₂

  unfoldable pub execute_control : ℕ → Client → World → Client × World
  execute_control r c w =
      let (lost, c₁, w₁) = resolve_conflict r c w in
      let (c₂, w₂) = report r event_received c₁ w₁ in
      if is_stopped w.stop
      then report r event_aborted_server (change r (set_status failed) c) w
      else if lost
      then report r event_superseded (change r (set_status superseded) c₁) w₁
      else start r (record c₂ { active_default = none; active_default_program = none }) w₂
