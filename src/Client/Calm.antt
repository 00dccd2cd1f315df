-- ===== src/Client/Calm.antt =====
-- No operation of `DERClient` in src/bms_2030_5_client/dera/der_client.py leaves a tracked control ACTIVE.
pub mod Reports
pub mod Executions
pub mod Starts
pub mod Polling
pub mod Scheduling
pub mod Steps
pub mod Once
use ieee2030_5_cold_client.Prelude.{ℕ, ◌≡◌, ◌<◌, ◌≤◌, Bool, false}
use ieee2030_5_cold_client.Handler.Tracking.{IsBounded}
use ieee2030_5_cold_client.Prelude.Lists.{length}
use ieee2030_5_cold_client.Client.State.{Client}
use ieee2030_5_cold_client.Client.Processing.{is_active}

-- No tracked control has the status ACTIVE, the handler's active event is one that it has made, and
-- the list of processed ids, which has room for one at least, is within its bound.
abbrev pub IsCalm : Client → Type 0
IsCalm c =
    ((r : ℕ) → is_active (c.objects r).status ≡ false)
    × IsBounded c.handler
    × (0 < c.processed_event_retention)
    × (length c.processed ≤ c.processed_event_retention)
