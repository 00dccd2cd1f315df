-- ===== src/Supervisor/Fleet.antt =====
-- All the tasks of `TaskSupervisor` of src/bms_2030_5_client/task_supervisor.py together: the dictionary, a pass
-- of `_monitor_loop` over it, and the length of the backoff. A backoff is a multiple of the smallest
-- float, and twice a float is exact.
use mathlib.Core.Path.{transport}
use ieee2030_5_cold_client.Prelude.{
  ℕ, suc, ◌+◌, ◌*◌, ◌^◌, ◌≤◌, ◌≡◌, String, Bool, true, false, none, some, [], ◌∷◌, ◌&&◌,
  if◌then◌else◌, ltb, not, if_intro, if_intro_eq, option_intro_eq, arith, str_eq, Bool-cases, inl,
  inr, sym, ap, ◌∙◌,
}
use ieee2030_5_cold_client.Prelude.Dict.{Dict, lookup, insert}
use ieee2030_5_cold_client.Supervisor.{
  Task, ManagedTask, alive, is_stopped, is_done, is_alive, register, launch, End, run_wrapper,
  Visit, visit, stop_all,
}
use ieee2030_5_cold_client.Supervisor.Restarts.{
  IsReachable, registered, launched, ended, visited, stopped_all, IsWithin, reachable-IsWithin,
}

-- `min(backoff_base * (2 ** restart_count), backoff_max)`.
unfoldable pub backoff_delay : (base most count : ℕ) → ℕ
backoff_delay base most count =
    let grown = base * 2 ^ count in if ltb most grown then most else grown

pub record TaskSupervisor : Type 0 where
  pub tasks : Dict ManagedTask
  pub running : Bool

abbrev pub empty : TaskSupervisor
empty = record { tasks = []; running = false }

-- `register`: a task of the same name is replaced.
unfoldable pub register_task : String → ℕ → TaskSupervisor → TaskSupervisor
register_task name max_restarts s = record s { tasks = insert name (register max_restarts) s.tasks }

abbrev pub each_task : (ManagedTask → ManagedTask) → Dict ManagedTask → Dict ManagedTask
each_task f [] = []
each_task f ((name, t) ∷ d) = (name, f t) ∷ each_task f d

unfoldable pub start_all : ℕ → TaskSupervisor → TaskSupervisor
start_all now s =
    if s.running then s else record s { running = true; tasks = each_task (launch now) s.tasks }

unfoldable pub stop_every : TaskSupervisor → TaskSupervisor
stop_every s = record s { running = false; tasks = each_task stop_all s.tasks }

-- A run that ends, of the task of a name.
abbrev pub end_run : End → ManagedTask → ManagedTask
end_run e t = if is_alive t.task then run_wrapper e t else t

unfoldable pub end_task : String → End → TaskSupervisor → TaskSupervisor
end_task name e s = elim (lookup name s.tasks) [
  | none ↦ s
  | some t ↦ record s { tasks = insert name (end_run e t) s.tasks }
]

-- Does a visit come to the backoff?
abbrev pub backs_off : ManagedTask → Bool
backs_off t =
    not (is_stopped t.state)
    && is_done t.task
    && ltb t.last_start_time t.last_failure_time
    && ltb t.restart_count t.max_restarts

-- A pass over the tasks, which breaks off when the supervisor was stopped during a backoff.
unfoldable pub monitor_each : (ℕ → Visit) → ℕ → Dict ManagedTask → Dict ManagedTask
monitor_each visits k [] = []
monitor_each visits k ((name, t) ∷ d) =
    let rest = monitor_each visits (k + 1) d in
    (name, visit (visits k) t) ∷ (if backs_off t && not (visits k).still then d else rest)

unfoldable pub monitor : (ℕ → Visit) → TaskSupervisor → TaskSupervisor
monitor visits s = if s.running then record s { tasks = monitor_each visits 0 s.tasks } else s

-- Whatever happens to a supervisor, one thing after the other.
pub data IsRun : TaskSupervisor → Type 0 where
  made : IsRun empty
  added : (name : String) (n : ℕ) (s : TaskSupervisor) → IsRun s → IsRun (register_task name n s)
  started : (now : ℕ) (s : TaskSupervisor) → IsRun s → IsRun (start_all now s)
  halted : (s : TaskSupervisor) → IsRun s → IsRun (stop_every s)
  finished : (name : String) (e : End) (s : TaskSupervisor) → IsRun s → IsRun (end_task name e s)
  monitored : (visits : ℕ → Visit) (s : TaskSupervisor) → IsRun s → IsRun (monitor visits s)

-- Every task is one that can come about alone.
abbrev pub AllAlone : Dict ManagedTask → Type 0
AllAlone [] = Unit
AllAlone ((name, t) ∷ d) = ((n : ℕ) × IsReachable n t) × AllAlone d

each_task-AllAlone :
    (f : ManagedTask → ManagedTask) (d : Dict ManagedTask)
    → ((n : ℕ) (t : ManagedTask) → IsReachable n t → IsReachable n (f t))
    → AllAlone d
    → AllAlone (each_task f d)
each_task-AllAlone f [] h a = tt
each_task-AllAlone f ((name, t) ∷ d) h ((n, r), a) = ((n, h n t r), each_task-AllAlone f d h a)

insert-AllAlone :
    (name : String) (t : ManagedTask) (d : Dict ManagedTask)
    → (n : ℕ) × IsReachable n t
    → AllAlone d
    → AllAlone (insert name t d)
unfolding insert
insert-AllAlone name t [] r a = (r, tt)
insert-AllAlone name t ((j, u) ∷ d) r a =
    if_intro AllAlone (str_eq j name) (r, a.1) (a.0, insert-AllAlone name t d r a.1)

some_inj : (t u : ManagedTask) → some t ≡ some u → t ≡ u
some_inj t u h = cc h

lookup-alone :
    (name : String) (t : ManagedTask) (d : Dict ManagedTask)
    → lookup name d ≡ some t
    → AllAlone d
    → (n : ℕ) × IsReachable n t
unfolding lookup
lookup-alone name t [] e a = absurd (ground (arith, e))
lookup-alone name t ((j, u) ∷ d) e a = elim (Bool-cases (str_eq j name)) [
  | inl b ↦
      let same = sym (ap (λ c. if c then some u else lookup name d) b) ∙ e in
      (a.0.0, transport (ap (IsReachable a.0.0) (some_inj u t same)) a.0.1)
  | inr b ↦ lookup-alone name t d (sym (ap (λ c. if c then some u else lookup name d) b) ∙ e) a.1
]

alive_task : (k : Task) → is_alive k ≡ true → k ≡ alive
alive_task k h = ground (arith, h)

end_run-alone : (e : End) (n : ℕ) (t : ManagedTask) → IsReachable n t → IsReachable n (end_run e t)
end_run-alone e n t r =
    if_intro_eq (IsReachable n) (is_alive t.task) (λ b. ended t e (alive_task t.task b) r) (λ b. r)

monitor_each-AllAlone :
    (visits : ℕ → Visit) (k : ℕ) (d : Dict ManagedTask)
    → AllAlone d
    → AllAlone (monitor_each visits k d)
unfolding monitor_each
monitor_each-AllAlone visits k [] a = tt
monitor_each-AllAlone visits k ((name, t) ∷ d) ((n, r), a) = (
  (n, visited t (visits k) r),
  if_intro AllAlone (backs_off t && not (visits k).still) a
      (monitor_each-AllAlone visits (k + 1) d a),
)

pub run-AllAlone : (s : TaskSupervisor) → IsRun s → AllAlone s.tasks
unfolding register_task start_all stop_every end_task monitor
run-AllAlone s made = tt
run-AllAlone s (added name n p r) =
    insert-AllAlone name (register n) p.tasks (n, registered) (run-AllAlone p r)
run-AllAlone s (started now p r) =
    if_intro (λ (q : TaskSupervisor). AllAlone q.tasks) p.running (run-AllAlone p r)
      (each_task-AllAlone (launch now) p.tasks (λ n t h. launched t now h) (run-AllAlone p r))
run-AllAlone s (halted p r) =
    each_task-AllAlone stop_all p.tasks (λ n t h. stopped_all t h) (run-AllAlone p r)
run-AllAlone s (finished name e p r) =
    option_intro_eq (λ (q : TaskSupervisor). AllAlone q.tasks) (lookup name p.tasks) {n = p}
      {f = λ t. record p { tasks = insert name (end_run e t) p.tasks }} (λ h. run-AllAlone p r)
      (λ t h.
        let alone = lookup-alone name t p.tasks h (run-AllAlone p r) in
        insert-AllAlone name (end_run e t) p.tasks (alone.0, end_run-alone e alone.0 t alone.1)
          (run-AllAlone p r))
run-AllAlone s (monitored visits p r) =
    if_intro (λ (q : TaskSupervisor). AllAlone q.tasks) p.running
      (monitor_each-AllAlone visits 0 p.tasks (run-AllAlone p r)) (run-AllAlone p r)

own_max : (n : ℕ) (t : ManagedTask) → IsWithin n t → IsWithin t.max_restarts t
own_max n t h = ground (arith, h)

-- In whatever way the tasks are registered, started, end, are visited and stopped together, each of
-- them behaves as if it were alone: it is restarted at most its own `max_restarts` times, is RUNNING
-- while it is under way, and FAILED only when its restarts are used up.
pub run-IsWithin :
    (s : TaskSupervisor) (name : String) (t : ManagedTask)
    → IsRun s
    → lookup name s.tasks ≡ some t
    → IsWithin t.max_restarts t
run-IsWithin s name t r h =
    let alone = lookup-alone name t s.tasks h (run-AllAlone s r) in
    own_max alone.0 t (reachable-IsWithin alone.0 t alone.1)

doubled : (base count : ℕ) → base * 2 ^ suc count ≡ base * 2 ^ count + base * 2 ^ count
doubled base count = grind arith

-- The backoff of a task is never longer than its maximum, and never shorter than that of the restart
-- before.
pub backoff_delay_grows :
    (base most count : ℕ)
    → (backoff_delay base most count ≤ most)
      × (backoff_delay base most count ≤ backoff_delay base most (suc count))
unfolding backoff_delay
backoff_delay_grows base most count = let twice = doubled base count in ground (arith, twice)
