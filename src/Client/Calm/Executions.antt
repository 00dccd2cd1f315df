-- ===== src/Client/Calm/Executions.antt =====
-- `_resolve_conflict`, `_cancel_all_active_controls`, `_handle_server_cancel` and `_execute_control` of
-- src/bms_2030_5_client/dera/der_client.py keep the client calm.
use ieee2030_5_cold_client.Prelude.{
  ℕ, refl, Bool, List, [], ◌∷◌, if_intro, option_intro, String, str_eq,
}
use ieee2030_5_cold_client.Prelude.Dict.{Dict, lookup, erase}
use ieee2030_5_cold_client.World.{World}
use ieee2030_5_cold_client.Handler.{
  cancelled, superseded, DerControlEvent, event_id, cancel_control,
}
use ieee2030_5_cold_client.Handler.Tracking.{cancel_control-IsBounded}
use ieee2030_5_cold_client.Client.State.{
  event_superseded, event_cancelled, Client, change, set_status, control_id, modes,
}
use ieee2030_5_cold_client.Client.Response.{report}
use ieee2030_5_cold_client.Client.Conflict.{
  keeps_mode, resolve_modes, resolve_conflict, holds, release_modes, is_scheduled, drop_scheduled,
  cancel_active, cancel_all_active_controls, cancel_tracked, handle_server_cancel,
}
use ieee2030_5_cold_client.Client.Calm.{IsCalm}
use ieee2030_5_cold_client.Client.Calm.Reports.{report-IsCalm, change-IsCalm}

abbrev pub Calm : Client × World → Type 0
Calm t = IsCalm t.0

abbrev CalmAfter : Bool × Client × World → Type 0
CalmAfter t = IsCalm t.1

-- A control is superseded and this is reported.
abbrev superseding : ℕ → Client → World → Client × World
superseding e c w = report e event_superseded (change e (set_status superseded) c) w

supersede-IsCalm : (e : ℕ) (c : Client) (w : World) → IsCalm c → Calm (superseding e c w)
supersede-IsCalm e c w calm =
    report-IsCalm e event_superseded _ w (change-IsCalm e superseded c refl calm)

resolve_modes-IsCalm :
    (ms : List String) (r : ℕ) (c : Client) (w : World)
    → IsCalm c
    → CalmAfter (resolve_modes ms r c w)
unfolding resolve_modes
resolve_modes-IsCalm [] r c w calm = calm
resolve_modes-IsCalm (m ∷ ms) r c w calm =
    option_intro CalmAfter (lookup m c.active_by_mode) (resolve_modes-IsCalm ms r c w calm) (λ e.
      if_intro CalmAfter (keeps_mode (c.objects e) (c.objects r)) calm (
        resolve_modes-IsCalm ms r (superseding e c w).0 (superseding e c w).1
          (supersede-IsCalm e c w calm)))

pub resolve_conflict-IsCalm :
    (r : ℕ) (c : Client) (w : World) → IsCalm c → CalmAfter (resolve_conflict r c w)
unfolding resolve_conflict
resolve_conflict-IsCalm r c w calm = resolve_modes-IsCalm (modes (c.objects r).control) r c w calm

release_modes-IsCalm :
    (id : String) (d : Dict ℕ) (c : Client) (w : World) → IsCalm c → Calm (release_modes id d c w)
unfolding release_modes
release_modes-IsCalm id [] c w calm = calm
release_modes-IsCalm id ((m, e) ∷ d) c w calm =
    let (c₁, w₁) = superseding e c w in
    let other = release_modes-IsCalm id d c w calm in
    if_intro Calm (str_eq (control_id (c.objects e).control) id) other (
      if_intro Calm (holds (c.objects e).status)
        (release_modes-IsCalm id d (record c₁ { active_by_mode = erase m c₁.active_by_mode }) w₁
          (supersede-IsCalm e c w calm))
        other)

drop_scheduled-IsCalm :
    (id : String) (d : Dict ℕ) (c : Client) (w : World) → IsCalm c → Calm (drop_scheduled id d c w)
unfolding drop_scheduled
drop_scheduled-IsCalm id [] c w calm = calm
drop_scheduled-IsCalm id ((k, e) ∷ d) c w calm =
    let (c₁, w₁) = superseding e c w in
    let other = drop_scheduled-IsCalm id d c w calm in
    if_intro Calm (str_eq k id) other (
      if_intro Calm (is_scheduled (c.objects e).status)
        (drop_scheduled-IsCalm id d c₁ w₁ (supersede-IsCalm e c w calm)) other)

pub cancel_tracked-IsCalm :
    (id : String) (c : Client) (w : World) → IsCalm c → Calm (cancel_tracked id c w)
unfolding cancel_tracked
cancel_tracked-IsCalm id c w calm =
    option_intro Calm (lookup id c.tracked_controls) calm
      (λ r. report-IsCalm r event_cancelled _ w (change-IsCalm r cancelled c refl calm))

module _ (same : DerControlEvent → DerControlEvent → Bool) where
  cancel_active-IsCalm :
      (id : String) (c : Client) (w : World) → IsCalm c → Calm (cancel_active same id c w)
  unfolding cancel_active
  cancel_active-IsCalm id c w calm = option_intro Calm c.handler.active_event calm (λ a.
      let (active_id, w₁) = event_id (c.handler.objects a) w in
      if_intro Calm (str_eq active_id id) calm
        (calm.0, cancel_control-IsBounded same active_id c.handler w₁ calm.1, calm.2, calm.3))

  pub cancel_all_active_controls-IsCalm :
      (id : String) (c : Client) (w : World)
      → IsCalm c
      → Calm (cancel_all_active_controls same id c w)
  unfolding cancel_all_active_controls
  cancel_all_active_controls-IsCalm id c w calm =
      let (c₁, w₁) = release_modes id c.active_by_mode c w in
      let (c₂, w₂) = drop_scheduled id c₁.tracked_controls c₁ w₁ in
      cancel_active-IsCalm id _ w₂ (
        drop_scheduled-IsCalm id c₁.tracked_controls c₁ w₁
          (release_modes-IsCalm id c.active_by_mode c w calm))

  pub handle_server_cancel-IsCalm :
      (id : String) (c : Client) (w : World) → IsCalm c → Calm (handle_server_cancel same id c w)
  unfolding handle_server_cancel
  handle_server_cancel-IsCalm id c w calm =
      let (_, h, w₁) = cancel_control same id c.handler w in
      cancel_tracked-IsCalm id (record c { handler = h }) w₁
        (calm.0, cancel_control-IsBounded same id c.handler w calm.1, calm.2, calm.3)
