-- ===== src/Supervisor.antt =====
-- `TaskSupervisor` of src/bms_2030_5_client/task_supervisor.py, for one supervised task: its runs, its end by a
-- return or an exception, and a visit of `_monitor_loop`. The tasks do not touch each other. The
-- length of the backoff, a float, is in the times that a visit is given.
pub mod Restarts
pub mod Fleet
use ieee2030_5_cold_client.Prelude.{
  ℕ, ◌+◌, String, Bool, true, false, Option, none, some, List, [], ◌∷◌, if◌then◌else◌, ltb, leb,
  not,
}

pub data TaskState : Type 0 where
  pending running restarting stopped failed : TaskState

-- `task`: None, one that runs, or one that is done.
pub data Task : Type 0 where
  no_task alive done : Task

pub record ManagedTask : Type 0 where
  pub task : Task
  pub state : TaskState
  pub restart_count : ℕ
  pub max_restarts : ℕ
  pub last_start_time : ℕ
  pub last_failure_time : ℕ
  pub last_error : Option String

-- `ManagedTask(name, coro_factory, max_restarts=...)`, as `register` makes it.
unfoldable pub register : ℕ → ManagedTask
register max_restarts = record {
  task = no_task;
  state = pending;
  restart_count = 0;
  max_restarts = max_restarts;
  last_start_time = 0;
  last_failure_time = 0;
  last_error = none;
}

unfoldable pub launch : ℕ → ManagedTask → ManagedTask
launch now t = record t { task = alive; state = running; last_start_time = now }

-- The end of a run in `_run_wrapper`; a task that does not run does not end.
pub data End : Type 0 where
  returns : End
  raises : String → ℕ → End

unfoldable pub run_wrapper : End → ManagedTask → ManagedTask
run_wrapper returns t = record t { task = done }
run_wrapper (raises e now) t = record t {
  task = done;
  last_error = some e;
  last_failure_time = now;
}

-- A visit of the monitor: `still` is whether the supervisor runs after the backoff, and `now` the time then.
pub record Visit : Type 0 where
  pub still : Bool
  pub now : ℕ

abbrev is_stopped : TaskState → Bool
is_stopped stopped = true
is_stopped _ = false

abbrev is_done : Task → Bool
is_done done = true
is_done _ = false

unfoldable pub visit : Visit → ManagedTask → ManagedTask
unfolding launch
visit v t =
    let waiting = record t { state = restarting; restart_count = t.restart_count + 1 } in
    if is_stopped t.state
    then t
    else if not (is_done t.task)
    then t
    else if not (ltb t.last_start_time t.last_failure_time)
    then record t { state = stopped }
    else if leb t.max_restarts t.restart_count
    then record t { state = failed }
    else if v.still
    then launch v.now waiting
    else waiting

-- `stop_all`, for this task.
unfoldable pub stop_all : ManagedTask → ManagedTask
stop_all t = record t { task = no_task; state = stopped }

-- A crash `delay` + 1 ticks after the start, where the task runs, and the visit after it, which
-- starts it again at `resumed`.
pub record Crash : Type 0 where
  pub delay : ℕ
  pub error : String
  pub resumed : ℕ

abbrev is_alive : Task → Bool
is_alive alive = true
is_alive _ = false

unfoldable pub crash : Crash → ManagedTask → ManagedTask
unfolding run_wrapper visit
crash x t =
    let ended = run_wrapper (raises x.error (t.last_start_time + x.delay + 1)) t in
    visit (record { still = true; now = x.resumed }) (if is_alive t.task then ended else t)

unfoldable pub crash_loop : List Crash → ManagedTask → ManagedTask
crash_loop [] t = t
crash_loop (x ∷ xs) t = crash_loop xs (crash x t)
