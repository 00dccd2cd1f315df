-- ===== src/Tests/Collectors.antt =====
-- The theorems on src/bms_2030_5_client/modbus/modbus_client.py at a concrete collector.
use ieee2030_5_cold_client.Prelude.{
  ℕ, ◌≤◌, ◌≡◌, ◌↔◌, refl, true, none, some, [], ◌∷◌, arith, returned, false,
}
use ieee2030_5_cold_client.Collector.{
  connected, degraded, HealthStatus, Collector, snapshot, client_error, Round, round, run, start,
  stop,
}
use ieee2030_5_cold_client.Collector.Escalation.{
  IsSound, run-IsSound, run_degrades_iff, round_recovers, start-stop_degrades,
}

abbrev health : HealthStatus
health = record {
  state = connected;
  consecutive_failures = 0;
  last_success_time = none;
  last_failure_time = none;
  last_error = none;
  total_reconnects = 0;
}

-- A snapshot is a number here.
abbrev fresh : Collector ℕ
fresh = record {
  latest_snapshot = none;
  running = true;
  reconnect_delay = 1;
  degraded_retries = 0;
  health = health;
  notified = connected ∷ [];
}

abbrev lost : Collector ℕ
lost = record fresh {
  reconnect_delay = 60;
  health = record health { state = degraded; consecutive_failures = 10 };
}

abbrev failing : Round ℕ
failing = record { read = client_error "timeout"; connected = returned false; now = 1000 }

abbrev reading : Round ℕ
reading = record { read = snapshot 7; connected = returned true; now = 1000 }

fresh-IsSound : IsSound fresh
fresh-IsSound = ground arith

lost-IsSound : IsSound lost
lost-IsSound = ground arith

run-IsSound_example : IsSound (run (failing ∷ reading ∷ []) fresh)
run-IsSound_example = run-IsSound (failing ∷ reading ∷ []) fresh fresh-IsSound

run_degrades_iff_example : ((run (failing ∷ failing ∷ []) fresh).health.state ≡ degraded) ↔ (10 ≤ 2)
run_degrades_iff_example =
    run_degrades_iff (failing ∷ failing ∷ []) fresh (("timeout", refl), (("timeout", refl), tt))
      fresh-IsSound

round_recovers_example :
    ((round reading lost).health.state ≡ connected)
    × ((round reading lost).health.consecutive_failures ≡ 0)
    × ((round reading lost).reconnect_delay ≡ 1)
    × ((round reading lost).latest_snapshot ≡ some 7)
round_recovers_example = round_recovers reading lost 7 refl refl

start-stop_degrades_example :
    ((start false true (stop lost)).running ≡ true)
    × ((round failing (start false true (stop lost))).health.state ≡ degraded)
start-stop_degrades_example =
    start-stop_degrades false failing lost lost-IsSound refl ("timeout", refl)
