-- ===== src/Client/Calm/Steps.antt =====
-- The runs of `DERClient` in src/bms_2030_5_client/dera/der_client.py: its loops' passes and the changes of the
-- tracked programs, in any order, each in any world (so at any time and after any calls of the
-- emergency stop).
use ieee2030_5_cold_client.Prelude.{ℕ, Bool, Option, List, String, Outcome}
use ieee2030_5_cold_client.World.{World}
use ieee2030_5_cold_client.Models.{DerControl, DerProgram, DefaultDerControl}
use ieee2030_5_cold_client.Handler.{DerControlEvent}
use ieee2030_5_cold_client.Client.State.{Client}
use ieee2030_5_cold_client.Client.Response.{retry_pending_responses}
use ieee2030_5_cold_client.Client.Processing.{poll_controls}
use ieee2030_5_cold_client.Client.Scheduling.{schedule_pass}
use ieee2030_5_cold_client.Client.Programs.{track_program, fetch_default_control, untrack_program}
use ieee2030_5_cold_client.Client.Calm.{IsCalm}
use ieee2030_5_cold_client.Client.Calm.Polling.{poll_controls-IsCalm}
use ieee2030_5_cold_client.Client.Calm.Scheduling.{
  retry_pending_responses-IsCalm, schedule_pass-IsCalm, track_program-IsCalm,
  fetch_default_control-IsCalm, untrack_program-IsCalm,
}

module _ (same : DerControlEvent → DerControlEvent → Bool)
    (same_default : DefaultDerControl → DefaultDerControl → Bool)
    (same_program : DerProgram → DerProgram → Bool)
    (get_controls : (at : ℕ) → (href : String) → Outcome (Option (List DerControl)))
    (get_default : (at : ℕ) → (href : String) → Outcome (Option DefaultDerControl)) where
  -- The clients that a run from the first one can come to.
  pub data IsReachable (start : Client) : Client → Type 0 where
    at_start : IsReachable start start
    after_poll :
        (c : Client) (w : World)
        → IsReachable start c
        → IsReachable start (poll_controls same same_default same_program get_controls c w).0
    after_pass :
        (c : Client) (w : World)
        → IsReachable start c
        → IsReachable start (schedule_pass same c w).0
    after_retry :
        (c : Client) (w : World)
        → IsReachable start c
        → IsReachable start (retry_pending_responses c w).0
    after_track :
        (program : DerProgram) (c : Client) (w : World)
        → IsReachable start c
        → IsReachable start (track_program get_default program c w).0
    after_fetch :
        (id : String) (c : Client) (w : World)
        → IsReachable start c
        → IsReachable start (fetch_default_control get_default id c w).0
    after_untrack :
        (id : String) (c : Client) (w : World)
        → IsReachable start c
        → IsReachable start (untrack_program id c w).0

  -- Whatever the order of polls, scheduler passes, retries of responses and changes of programs, a
  -- client that starts calm stays calm: between operations no tracked control has the status ACTIVE,
  -- and the handler's active event is one that it has made.
  pub reachable-IsCalm : (start c : Client) → IsCalm start → IsReachable start c → IsCalm c
  reachable-IsCalm start c calm at_start = calm
  reachable-IsCalm start c calm (after_poll b w p) =
      poll_controls-IsCalm same same_default same_program get_controls b w
        (reachable-IsCalm start b calm p)
  reachable-IsCalm start c calm (after_pass b w p) =
      schedule_pass-IsCalm same b w (reachable-IsCalm start b calm p)
  reachable-IsCalm start c calm (after_retry b w p) =
      retry_pending_responses-IsCalm b w (reachable-IsCalm start b calm p)
  reachable-IsCalm start c calm (after_track program b w p) =
      track_program-IsCalm get_default program b w (reachable-IsCalm start b calm p)
  reachable-IsCalm start c calm (after_fetch id b w p) =
      fetch_default_control-IsCalm get_default id b w (reachable-IsCalm start b calm p)
  reachable-IsCalm start c calm (after_untrack id b w p) =
      untrack_program-IsCalm id b w (reachable-IsCalm start b calm p)
