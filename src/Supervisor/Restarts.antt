-- ===== src/Supervisor/Restarts.antt =====
-- The restarts of src/bms_2030_5_client/task_supervisor.py.
use ieee2030_5_cold_client.Prelude.{
  ℕ, ◌+◌, ◌<◌, ◌≤◌, ◌≡◌, ◌↔◌, ◌⊎◌, inl, inr, String, List, [], ◌∷◌, arith,
}
use ieee2030_5_cold_client.Prelude.Lists.{length}
use ieee2030_5_cold_client.Supervisor.{
  running, stopped, failed, alive, done, ManagedTask, register, launch, End, returns, raises,
  run_wrapper, Visit, visit, stop_all, Crash, crash, crash_loop,
}

le_or_lt : (a b : ℕ) → (a ≤ b) ⊎ (b < a)
le_or_lt a b = ground arith

-- What can happen to a task, one thing after the other.
pub data IsReachable (max_restarts : ℕ) : ManagedTask → Type 0 where
  registered : IsReachable max_restarts (register max_restarts)
  launched :
      (t : ManagedTask) (now : ℕ)
      → IsReachable max_restarts t
      → IsReachable max_restarts (launch now t)
  ended :
      (t : ManagedTask) (e : End)
      → t.task ≡ alive
      → IsReachable max_restarts t
      → IsReachable max_restarts (run_wrapper e t)
  visited :
      (t : ManagedTask) (v : Visit)
      → IsReachable max_restarts t
      → IsReachable max_restarts (visit v t)
  stopped_all :
      (t : ManagedTask) → IsReachable max_restarts t → IsReachable max_restarts (stop_all t)

-- No more restarts than allowed; a task under way is RUNNING; FAILED comes only after the last
-- allowed restart.
abbrev pub IsWithin : ℕ → ManagedTask → Type 0
IsWithin n t =
    (t.max_restarts ≡ n)
    × (t.restart_count ≤ n)
    × ((t.task ≡ alive) → t.state ≡ running)
    × ((t.state ≡ failed) → t.restart_count ≡ n)

visit-IsWithin : (n : ℕ) (v : Visit) (t : ManagedTask) → IsWithin n t → IsWithin n (visit v t)
unfolding visit launch
visit-IsWithin n v t h = ground arith

-- However a task runs, ends, is visited and is stopped, it is restarted at most `max_restarts`
-- times, a task under way is RUNNING, and FAILED is reached only when all restarts are used up.
pub reachable-IsWithin : (n : ℕ) (t : ManagedTask) → IsReachable n t → IsWithin n t
unfolding register launch run_wrapper stop_all
reachable-IsWithin n t registered = ground arith
reachable-IsWithin n t (launched s now r) = let h = reachable-IsWithin n s r in ground (arith, h)
reachable-IsWithin n t (ended s returns p r) =
    let h = reachable-IsWithin n s r in ground (arith, h, p)
reachable-IsWithin n t (ended s (raises e now) p r) =
    let h = reachable-IsWithin n s r in ground (arith, h, p)
reachable-IsWithin n t (visited s v r) = visit-IsWithin n v s (reachable-IsWithin n s r)
reachable-IsWithin n t (stopped_all s r) = let h = reachable-IsWithin n s r in ground (arith, h)

-- A task under way, and one that is done for good.
abbrev pub IsRunning : ManagedTask → Type 0
IsRunning t = (t.state ≡ running) × (t.task ≡ alive) × (t.restart_count ≤ t.max_restarts)

abbrev IsFailed : ManagedTask → Type 0
IsFailed t =
    (t.state ≡ failed)
    × (t.task ≡ done)
    × (t.last_start_time < t.last_failure_time)
    × (t.max_restarts ≤ t.restart_count)

crash_restarts :
    (x : Crash) (t : ManagedTask)
    → IsRunning t
    → t.restart_count < t.max_restarts
    → IsRunning (crash x t)
      × ((crash x t).restart_count ≡ t.restart_count + 1)
      × ((crash x t).max_restarts ≡ t.max_restarts)
unfolding crash visit launch run_wrapper
crash_restarts x t r lt = ground (arith, r, lt)

crash_fails :
    (x : Crash) (t : ManagedTask)
    → IsRunning t
    → t.max_restarts ≤ t.restart_count
    → IsFailed (crash x t)
unfolding crash visit launch run_wrapper
crash_fails x t r le = ground (arith, r, le)

crash-IsFailed : (x : Crash) (t : ManagedTask) → IsFailed t → IsFailed (crash x t)
unfolding crash visit
crash-IsFailed x t f = ground (arith, f)

crash_loop-IsFailed : (xs : List Crash) (t : ManagedTask) → IsFailed t → IsFailed (crash_loop xs t)
unfolding crash_loop
crash_loop-IsFailed [] t f = f
crash_loop-IsFailed (x ∷ xs) t f = crash_loop-IsFailed xs (crash x t) (crash-IsFailed x t f)

-- A running task that crashes after each start, at a later tick than the start, is FAILED exactly
-- when its restarts before and its crashes together exceed `max_restarts`.
pub crash_loop_iff :
    (xs : List Crash) (t : ManagedTask)
    → IsRunning t
    → ((crash_loop xs t).state ≡ failed) ↔ (t.max_restarts < t.restart_count + length xs)
unfolding crash_loop
crash_loop_iff [] t r = (λ h. absurd (ground (arith, h, r)), λ h. absurd (omega (arith, h, r.2)))
crash_loop_iff (x ∷ xs) t r = elim (le_or_lt t.max_restarts t.restart_count) [
  | inl le ↦
      (λ h. omega (arith, le), λ h. (crash_loop-IsFailed xs (crash x t) (crash_fails x t r le)).0)
  | inr lt ↦
      let (again, count, same) = crash_restarts x t r lt in
      let rest = crash_loop_iff xs (crash x t) again in
      (
        λ h. let k = rest.0 h in omega (arith, k, count, same),
        λ h. rest.1 (omega (arith, h, count, same)),
      )
]

-- A task whose exception comes in the same tick of the clock as its start counts as one that
-- returned: the next visit stops it, and later visits leave it so, whatever restarts are left.
pub visit_same_tick :
    (e : String) (v v' : Visit) (t : ManagedTask)
    → t.state ≡ running
    → let crashed = run_wrapper (raises e t.last_start_time) t in
      ((visit v crashed).state ≡ stopped)
      × ((visit v crashed).restart_count ≡ t.restart_count)
      × (visit v' (visit v crashed) ≡ visit v crashed)
unfolding run_wrapper visit
visit_same_tick e v v' t r = ground (arith, r)
