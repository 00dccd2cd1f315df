-- ===== src/Tests/Supervisors.antt =====
-- The theorems on src/bms_2030_5_client/task_supervisor.py at concrete tasks.
use ieee2030_5_cold_client.Prelude.{◌<◌, ◌≡◌, ◌↔◌, refl, none, some, [], ◌∷◌, arith, true}
use ieee2030_5_cold_client.Supervisor.{
  running, stopped, failed, alive, ManagedTask, register, launch, raises, run_wrapper, Visit, visit,
  Crash, crash_loop,
}
use ieee2030_5_cold_client.Prelude.Dict.{lookup, insert}
use ieee2030_5_cold_client.Supervisor.Fleet.{
  TaskSupervisor, empty, register_task, start_all, monitor, monitor_each, made, added, started,
  monitored, run-IsWithin,
}
use ieee2030_5_cold_client.Supervisor.Restarts.{IsWithin, crash_loop_iff, visit_same_tick}

abbrev task : ManagedTask
task = record {
  task = alive;
  state = running;
  restart_count = 2;
  max_restarts = 3;
  last_start_time = 100;
  last_failure_time = 40;
  last_error = none;
}

abbrev next_visit : Visit
next_visit = record { still = true; now = 130 }

abbrev crashed : Crash
crashed = record { delay = 5; error = "timeout"; resumed = 140 }

crash_loop_iff_example : ((crash_loop (crashed ∷ crashed ∷ []) task).state ≡ failed) ↔ (3 < 4)
crash_loop_iff_example = crash_loop_iff (crashed ∷ crashed ∷ []) task (refl, refl, omega arith)

visit_same_tick_example :
    let ended = run_wrapper (raises "timeout" 100) task in
    ((visit next_visit ended).state ≡ stopped)
    × ((visit next_visit ended).restart_count ≡ 2)
    × (visit next_visit (visit next_visit ended) ≡ visit next_visit ended)
visit_same_tick_example = visit_same_tick "timeout" next_visit next_visit task refl

abbrev fleet : TaskSupervisor
fleet = monitor (λ k. next_visit) (start_all 100 (register_task "metering" 3 empty))

lookup-fleet : lookup "metering" fleet.tasks ≡ some (visit next_visit (launch 100 (register 3)))
unfolding lookup insert register_task start_all monitor monitor_each
lookup-fleet = refl

run-IsWithin_example :
    IsWithin
      (visit next_visit (launch 100 (register 3))).max_restarts
      (visit next_visit (launch 100 (register 3)))
run-IsWithin_example =
    run-IsWithin fleet "metering" (visit next_visit (launch 100 (register 3)))
      (monitored (λ k. next_visit) (start_all 100 (register_task "metering" 3 empty))
        (started 100 (register_task "metering" 3 empty) (added "metering" 3 empty made)))
      lookup-fleet
