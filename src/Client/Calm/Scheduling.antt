-- ===== src/Client/Calm/Scheduling.antt =====
-- The passes of `_scheduler_loop`, `_retry_pending_responses`, `_track_program` and `_untrack_program` of
-- src/bms_2030_5_client/dera/der_client.py keep the client calm, and in a calm client the scheduler completes nothing.
use ieee2030_5_cold_client.Prelude.{
  ℕ, ◌≡◌, refl, Bool, Option, List, [], ◌∷◌, String, if_intro, option_intro, nonempty, or_text,
  Outcome, returned, raised,
}
use ieee2030_5_cold_client.Prelude.Int.{pos, leb_ℤ}
use ieee2030_5_cold_client.Prelude.Dict.{Dict, lookup}
use ieee2030_5_cold_client.World.{World}
use ieee2030_5_cold_client.Models.{DateTimeInterval, DerProgram, DefaultDerControl}
use ieee2030_5_cold_client.Handler.{DerControlEvent}
use ieee2030_5_cold_client.Client.State.{TrackedProgram, Client, program_id}
use ieee2030_5_cold_client.Client.Response.{retry_all, retry_pending_responses}
use ieee2030_5_cold_client.Client.Conflict.{is_scheduled}
use ieee2030_5_cold_client.Client.Processing.{effective_start}
use ieee2030_5_cold_client.Client.Scheduling.{
  complete_if_over, start_if_due, visit, visit_all, schedule_pass,
}
use ieee2030_5_cold_client.Client.Programs.{
  fetched, fetch_default_control, track_program, controls_of, cancel_each, untrack_program,
}
use ieee2030_5_cold_client.Client.Calm.{IsCalm}
use ieee2030_5_cold_client.Client.Calm.Reports.{report-IsCalm}
use ieee2030_5_cold_client.Client.Calm.Executions.{Calm, cancel_tracked-IsCalm}
use ieee2030_5_cold_client.Client.Calm.Starts.{execute_control-IsCalm}

retry_all-IsCalm : (d : Dict ℕ) (c : Client) (w : World) → IsCalm c → Calm (retry_all d c w)
unfolding retry_all
retry_all-IsCalm [] c w calm = calm
retry_all-IsCalm ((_, r) ∷ d) c w calm =
    retry_all-IsCalm d _ _
      (option_intro Calm (c.objects r).pending_response calm (λ s. report-IsCalm r s c w calm))

pub retry_pending_responses-IsCalm :
    (c : Client) (w : World) → IsCalm c → Calm (retry_pending_responses c w)
unfolding retry_pending_responses
retry_pending_responses-IsCalm c w calm = retry_all-IsCalm c.tracked_controls c w calm

module _ (same : DerControlEvent → DerControlEvent → Bool) where
  -- In a calm client the scheduler completes no control and recovers none: the second half of its
  -- loop's body changes nothing, whatever the interval and the time.
  pub complete_if_over-IsCalm :
      (i : DateTimeInterval) (now r : ℕ) (c : Client) (w : World)
      → IsCalm c
      → complete_if_over same i now r c w ≡ (c, w)
  unfolding complete_if_over
  complete_if_over-IsCalm i now r c w (quiet, _, _, _) = rw (quiet r) refl

  start_if_due-IsCalm :
      (i : DateTimeInterval) (now r : ℕ) (c : Client) (w : World)
      → IsCalm c
      → Calm (start_if_due same i now r c w)
  unfolding start_if_due
  start_if_due-IsCalm i now r c w calm =
      if_intro Calm (leb_ℤ (effective_start i (c.objects r)) (pos now))
        (execute_control-IsCalm same r c w calm) calm

  visit-IsCalm : (now r : ℕ) (c : Client) (w : World) → IsCalm c → Calm (visit same now r c w)
  unfolding visit
  visit-IsCalm now r c w calm = option_intro Calm (c.objects r).control.interval calm (λ i.
      let (c₁, w₁) = start_if_due same i now r c w in
      let calm₁ = start_if_due-IsCalm i now r c w calm in
      if_intro Calm (is_scheduled (c.objects r).status)
        (rw (complete_if_over-IsCalm i now r c₁ w₁ calm₁) calm₁) calm)

  visit_all-IsCalm :
      (now : ℕ) (d : Dict ℕ) (c : Client) (w : World) → IsCalm c → Calm (visit_all same now d c w)
  unfolding visit_all
  visit_all-IsCalm now [] c w calm = calm
  visit_all-IsCalm now ((_, r) ∷ d) c w calm =
      visit_all-IsCalm now d _ _ (visit-IsCalm now r c w calm)

  pub schedule_pass-IsCalm : (c : Client) (w : World) → IsCalm c → Calm (schedule_pass same c w)
  unfolding schedule_pass
  schedule_pass-IsCalm c w calm = visit_all-IsCalm w.now c.tracked_controls c w calm

module _ (get : (at : ℕ) → (href : String) → Outcome (Option DefaultDerControl)) where
  fetched-IsCalm :
      (id : String) (t : TrackedProgram) (o : Outcome (Option DefaultDerControl)) (c : Client)
      → IsCalm c
      → IsCalm (fetched get id t o c)
  unfolding fetched
  fetched-IsCalm id t (raised e) c calm = calm
  fetched-IsCalm id t (returned d) c calm = calm

  pub fetch_default_control-IsCalm :
      (id : String) (c : Client) (w : World) → IsCalm c → Calm (fetch_default_control get id c w)
  unfolding fetch_default_control
  fetch_default_control-IsCalm id c w calm =
      option_intro Calm (lookup id c.tracked_programs) calm (λ t.
        let href = or_text t.program.default_der_control_href "" in
        if_intro Calm (nonempty href) (fetched-IsCalm id t (get w.at href) c calm) calm)

  pub track_program-IsCalm :
      (program : DerProgram) (c : Client) (w : World)
      → IsCalm c
      → Calm (track_program get program c w)
  unfolding track_program
  track_program-IsCalm program c w calm = fetch_default_control-IsCalm (program_id program) _ w calm

cancel_each-IsCalm :
    (ks : List String) (c : Client) (w : World) → IsCalm c → Calm (cancel_each ks c w)
unfolding cancel_each
cancel_each-IsCalm [] c w calm = calm
cancel_each-IsCalm (k ∷ ks) c w calm = cancel_each-IsCalm ks _ _ (cancel_tracked-IsCalm k c w calm)

pub untrack_program-IsCalm :
    (id : String) (c : Client) (w : World) → IsCalm c → Calm (untrack_program id c w)
unfolding untrack_program
untrack_program-IsCalm id c w calm =
    option_intro Calm (lookup id c.tracked_programs) calm
      (λ t. cancel_each-IsCalm (controls_of t.program.m_rid c.tracked_controls c) c w calm)
