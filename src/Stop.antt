-- ===== src/Stop.antt =====
-- `EmergencyStop` of src/bms_2030_5_client/power_control.py: one state for the whole process, which
-- every task reads and writes under a lock. The audit log lines are not kept.
use ieee2030_5_cold_client.Prelude.{ℕ, String, Bool, true, false, Option, none, some, if◌then◌else◌}

pub record EmergencyStop : Type 0 where
  pub stopped : Bool
  pub reason : Option String
  pub timestamp : Option ℕ

abbrev pub running : EmergencyStop
running = record { stopped = false; reason = none; timestamp = none }

unfoldable pub trigger : String → ℕ → EmergencyStop → EmergencyStop
trigger reason now s = record { stopped = true; reason = some reason; timestamp = some now }

unfoldable pub is_stopped : EmergencyStop → Bool
is_stopped s = s.stopped

-- The source of the reset goes to the audit log alone.
unfoldable pub reset_by_server : String → EmergencyStop → Bool × EmergencyStop
reset_by_server source s = if s.stopped then (true, running) else (false, s)
