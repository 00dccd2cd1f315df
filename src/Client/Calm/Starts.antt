-- ===== src/Client/Calm/Starts.antt =====
-- `_execute_control` of src/bms_2030_5_client/dera/der_client.py keeps the client calm: a control is ACTIVE only while the
-- handler executes it.
use ieee2030_5_cold_client.Prelude.{
  ℕ, ◌+◌, ◌<◌, ◌≤◌, ◌≡◌, ◌≢◌, refl, Bool, true, false, none, some, arith, if_intro, if◌then◌else◌,
  ◌&&◌,
}
use ieee2030_5_cold_client.Prelude.Lists.{length}
use ieee2030_5_cold_client.World.{World}
use ieee2030_5_cold_client.Stop.{is_stopped}
use ieee2030_5_cold_client.Handler.{
  Status, active, superseded, failed, DerControlEvent, handle_control,
}
use ieee2030_5_cold_client.Handler.Tracking.{is_closed, IsBounded, handle_control-IsHandled}
use ieee2030_5_cold_client.Client.State.{
  event_received, event_started, event_completed, event_superseded, event_aborted_server, Client,
  change, set_status, control_id,
}
use ieee2030_5_cold_client.Client.Response.{report}
use ieee2030_5_cold_client.Client.Conflict.{
  resolve_conflict, track_active_control, is_de_energize_control,
}
use ieee2030_5_cold_client.Client.Execution.{is_completed, finish, start, execute_control}
use ieee2030_5_cold_client.Client.Processing.{is_active}
use ieee2030_5_cold_client.Client.Calm.{IsCalm}
use ieee2030_5_cold_client.Client.Calm.Reports.{report-SameControls, report-IsCalm, change-IsCalm}
use ieee2030_5_cold_client.Client.Calm.Executions.{
  Calm, resolve_conflict-IsCalm, cancel_all_active_controls-IsCalm,
}

-- Calm but for the control `r`.
abbrev IsCalmBut : ℕ → Client → Type 0
IsCalmBut r c =
    ((k : ℕ) → k ≢ r → is_active (c.objects k).status ≡ false)
    × IsBounded c.handler
    × (0 < c.processed_event_retention)
    × (length c.processed ≤ c.processed_event_retention)

closed_not_active : (s : Status) → is_closed s ≡ true → is_active s ≡ false
closed_not_active s e = ground arith

-- The control under way takes a status other than ACTIVE.
settle-IsCalm :
    (r : ℕ) (s : Status) (c : Client)
    → is_active s ≡ false
    → IsCalmBut r c
    → IsCalm (change r (set_status s) c)
settle-IsCalm r s c e (quiet, bounded, room, within) =
    (λ k. ground (arith, quiet k), bounded, room, within)

module _ (same : DerControlEvent → DerControlEvent → Bool) where
  finish-IsCalm :
      (r : ℕ) (s : Status) (c : Client) (w : World)
      → is_active s ≡ false
      → IsCalmBut r c
      → Calm (finish same r s c w)
  unfolding finish track_active_control
  finish-IsCalm r s c w e but =
      let done = change r (set_status s) c in
      let calm = settle-IsCalm r s c e but in
      let counted = record done { controls_executed = done.controls_executed + 1 } in
      let (c₁, w₁) = if is_completed s then report r event_completed counted w else (done, w) in
      let calm₁ =
        if_intro Calm (is_completed s) (report-IsCalm r event_completed counted w calm) calm in
      let c₂ = track_active_control r c₁ in
      if_intro Calm
        (is_completed (c₂.objects r).status && is_de_energize_control (c₂.objects r).control)
        (cancel_all_active_controls-IsCalm same (control_id (c₂.objects r).control) c₂ w₁ calm₁)
        calm₁

  -- The control is ACTIVE, and this is reported.
  started-IsCalmBut :
      (r : ℕ) (c : Client) (w : World)
      → IsCalm c
      → IsCalmBut r (report r event_started (change r (set_status active) c) w).0
  started-IsCalmBut r c w (quiet, bounded, room, within) =
      let begun = change r (set_status active) c in
      let (status, _, handler, _, _, retention, processed) =
        report-SameControls r event_started begun w in
      (
        λ k ne. rw (status k) (ground (arith, quiet k)),
        rw handler bounded,
        rw retention room,
        rw (retention, processed) within,
      )

  start-IsCalm : (r : ℕ) (c : Client) (w : World) → IsCalm c → Calm (start same r c w)
  unfolding start
  start-IsCalm r c w calm =
      let (c₁, w₁) = report r event_started (change r (set_status active) c) w in
      let but = started-IsCalmBut r c w calm in
      let (e, h, w₂) = handle_control (c₁.objects r).control c₁.handler w₁ in
      let handled = handle_control-IsHandled (c₁.objects r).control c₁.handler w₁ but.1 in
      finish-IsCalm r (h.objects e).status
        (change r (λ t. record t { event = some e }) (record c₁ { handler = h })) w₂
        (closed_not_active (h.objects e).status handled.0)
        (λ k ne. ground (arith, but.0 k ne), handled.1, but.2, but.3)

  -- `_execute_control` keeps the client calm.
  pub execute_control-IsCalm :
      (r : ℕ) (c : Client) (w : World) → IsCalm c → Calm (execute_control same r c w)
  unfolding execute_control
  execute_control-IsCalm r c w calm =
      let (lost, c₁, w₁) = resolve_conflict r c w in
      let (c₂, w₂) = report r event_received c₁ w₁ in
      let calm₁ = resolve_conflict-IsCalm r c w calm in
      if_intro Calm (is_stopped w.stop)
        (report-IsCalm r event_aborted_server (change r (set_status failed) c) w
          (change-IsCalm r failed c refl calm))
        (if_intro Calm lost
          (report-IsCalm r event_superseded (change r (set_status superseded) c₁) w₁
            (change-IsCalm r superseded c₁ refl calm₁))
          (start-IsCalm r (record c₂ { active_default = none; active_default_program = none }) w₂
            (report-IsCalm r event_received c₁ w₁ calm₁)))
