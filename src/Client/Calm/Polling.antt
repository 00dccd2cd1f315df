-- ===== src/Client/Calm/Polling.antt =====
-- `_process_control` and `_poll_controls` of src/bms_2030_5_client/dera/der_client.py keep the client calm.
use ieee2030_5_cold_client.Prelude.{
  ℕ, refl, Bool, Option, none, some, List, [], ◌∷◌, ◌++◌, String, arith, if_intro, option_intro,
  not, ◌&&◌, nonempty, or_text, Outcome, returned, raised,
}
use ieee2030_5_cold_client.Prelude.Int.{ℤ, pos, ltb_ℤ, leb_ℤ}
use ieee2030_5_cold_client.Prelude.Dict.{Dict, lookup}
use ieee2030_5_cold_client.World.{World, wait}
use ieee2030_5_cold_client.Models.{DateTimeInterval, DerControl, DerProgram, DefaultDerControl}
use ieee2030_5_cold_client.Power.Controller.{success, set_power_setpoint}
use ieee2030_5_cold_client.Handler.{scheduled, cancelled, DerControlEvent}
use ieee2030_5_cold_client.Client.State.{
  event_received, event_expired, TrackedProgram, Client, control_id, mem, length-keep_last,
}
use ieee2030_5_cold_client.Client.Response.{report}
use ieee2030_5_cold_client.Client.Processing.{
  randomized_start, randomized_duration, effective_start, effective_end, track, server_cancelled,
  place, mark_processed, process_control, process_controls, any_active, already_applied,
  default_power, apply_default, apply_highest, highest_priority_program, check_default_control,
  polled, poll_program_controls, poll_all, poll_controls,
}
use ieee2030_5_cold_client.Client.Calm.{IsCalm}
use ieee2030_5_cold_client.Client.Calm.Reports.{report-IsCalm, change-IsCalm}
use ieee2030_5_cold_client.Client.Calm.Executions.{Calm, handle_server_cancel-IsCalm}
use ieee2030_5_cold_client.Client.Calm.Starts.{execute_control-IsCalm}

pub track-IsCalm :
    (control : DerControl) (program : DerProgram) (start duration : Option ℤ) (c : Client)
    → IsCalm c
    → IsCalm (track control program start duration c).1
unfolding track
track-IsCalm control program start duration c (quiet, bounded, room, within) =
    (λ k. ground (arith, quiet k), bounded, room, within)

module _ (same : DerControlEvent → DerControlEvent → Bool) where
  pub place-IsCalm :
      (i : Option DateTimeInterval) (r : ℕ) (c : Client) (w : World)
      → IsCalm c
      → Calm (place same i r c w)
  unfolding place
  place-IsCalm none r c w calm = execute_control-IsCalm same r c w calm
  place-IsCalm (some i) r c w calm =
      let t = c.objects r in
      let now = pos w.now in
      if_intro Calm (leb_ℤ (effective_start i t) now && ltb_ℤ now (effective_end i t))
        (execute_control-IsCalm same r c w calm)
        (if_intro Calm (ltb_ℤ now (effective_start i t))
          (change-IsCalm r scheduled (report r event_received c w).0 refl
            (report-IsCalm r event_received c w calm))
          (report-IsCalm r event_expired _ w (change-IsCalm r cancelled c refl calm)))

  mark_processed-IsCalm : (id : String) (c : Client) → IsCalm c → IsCalm (mark_processed same id c)
  mark_processed-IsCalm id c (quiet, bounded, room, within) =
      (quiet, bounded, room, length-keep_last c.processed_event_retention (c.processed ++ id ∷ []))

  pub process_control-IsCalm :
      (control : DerControl) (program : DerProgram) (c : Client) (w : World)
      → IsCalm c
      → Calm (process_control same control program c w)
  unfolding process_control
  process_control-IsCalm control program c w calm =
      let id = control_id control in
      let (start, w₁) = randomized_start c.enable_randomization control w in
      let (duration, w₂) = randomized_duration c.enable_randomization control w₁ in
      let (r, c₁) = track control program start duration c in
      if_intro Calm (mem id c.processed)
        (if_intro Calm (server_cancelled control && not (mem id c.cancelled))
          (handle_server_cancel-IsCalm same id (record c { cancelled = id ∷ c.cancelled }) w calm)
          calm)
        (mark_processed-IsCalm id (place same control.interval r c₁ w₂).0 (
          place-IsCalm control.interval r c₁ w₂
            (track-IsCalm control program start duration c calm)))

  process_controls-IsCalm :
      (xs : List DerControl) (program : DerProgram) (c : Client) (w : World)
      → IsCalm c
      → Calm (process_controls same xs program c w)
  unfolding process_controls
  process_controls-IsCalm [] program c w calm = calm
  process_controls-IsCalm (x ∷ xs) program c w calm =
      process_controls-IsCalm xs program _ _ (process_control-IsCalm x program c w calm)

module _ (same_default : DefaultDerControl → DefaultDerControl → Bool)
    (same_program : DerProgram → DerProgram → Bool) where
  apply_default-IsCalm :
      (d : DefaultDerControl) (p : DerProgram) (power_w : ℤ) (c : Client) (w : World)
      → IsCalm c
      → Calm (apply_default same_default same_program d p power_w c w)
  unfolding apply_default
  apply_default-IsCalm d p power_w c w calm =
      let (result, _, _) = set_power_setpoint power_w c.handler.power_controller w in
      if_intro Calm (success result) calm calm

  apply_highest-IsCalm :
      (h : Option TrackedProgram) (c : Client) (w : World)
      → IsCalm c
      → Calm (apply_highest same_default same_program h c w)
  unfolding apply_highest
  apply_highest-IsCalm none c w calm = calm
  apply_highest-IsCalm (some h) c w calm = option_intro Calm h.default_control calm (λ d.
      if_intro Calm (already_applied same_default same_program d h.program c) calm (
        option_intro Calm (default_power same_default same_program d) calm
          (λ p. apply_default-IsCalm d h.program p c w calm)))

  check_default-IsCalm :
      (c : Client) (w : World)
      → IsCalm c
      → Calm (check_default_control same_default same_program c w)
  unfolding check_default_control
  check_default-IsCalm c w calm =
      if_intro Calm (any_active c.tracked_controls c) calm
        (apply_highest-IsCalm (highest_priority_program c.tracked_programs) c w calm)

module _ (same : DerControlEvent → DerControlEvent → Bool)
    (same_default : DefaultDerControl → DefaultDerControl → Bool)
    (same_program : DerProgram → DerProgram → Bool)
    (get : (at : ℕ) → (href : String) → Outcome (Option (List DerControl))) where
  polled-IsCalm :
      (id : String) (t : TrackedProgram) (o : Outcome (Option (List DerControl))) (c : Client)
      (w : World)
      → IsCalm c
      → Calm (polled same same_default same_program get id t o c w)
  unfolding polled
  polled-IsCalm id t (raised e) c w calm = calm
  polled-IsCalm id t (returned none) c w calm =
      check_default-IsCalm same_default same_program c w calm
  polled-IsCalm id t (returned (some [])) c w calm =
      check_default-IsCalm same_default same_program c w calm
  polled-IsCalm id t (returned (some (x ∷ xs))) c w calm =
      let (c₁, w₁) = process_controls same (x ∷ xs) t.program c w in
      let calm₁ = process_controls-IsCalm same (x ∷ xs) t.program c w calm in
      option_intro IsCalm (lookup id c₁.tracked_programs) calm₁ (λ u. calm₁)

  poll_program_controls-IsCalm :
      (id : String) (t : TrackedProgram) (c : Client) (w : World)
      → IsCalm c
      → Calm (poll_program_controls same same_default same_program get id t c w)
  unfolding poll_program_controls
  poll_program_controls-IsCalm id t c w calm =
      let href = or_text t.program.der_control_list_href "" in
      if_intro Calm (nonempty href) (polled-IsCalm id t (get w.at href) c (wait w) calm) calm

  poll_all-IsCalm :
      (d : Dict TrackedProgram) (c : Client) (w : World)
      → IsCalm c
      → Calm (poll_all same same_default same_program get d c w)
  unfolding poll_all
  poll_all-IsCalm [] c w calm = calm
  poll_all-IsCalm ((id, t) ∷ d) c w calm =
      poll_all-IsCalm d _ _ (poll_program_controls-IsCalm id t c w calm)

  pub poll_controls-IsCalm :
      (c : Client) (w : World)
      → IsCalm c
      → Calm (poll_controls same same_default same_program get c w)
  unfolding poll_controls
  poll_controls-IsCalm c w calm = poll_all-IsCalm c.tracked_programs c w calm
