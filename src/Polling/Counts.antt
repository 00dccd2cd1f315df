-- ===== src/Polling/Counts.antt =====
-- The counters of src/bms_2030_5_client/polling/worker.py, and a stop that comes too early.
use ieee2030_5_cold_client.Prelude.{
  ℕ, ◌+◌, ◌≤◌, ◌≡◌, refl, String, Bool, true, false, Option, some, List, [], ◌∷◌, arith,
  if◌then◌else◌, if_intro, option_intro_eq, str_eq, Bool-cases, inl, inr,
}
use ieee2030_5_cold_client.Prelude.Dict.{Dict, lookup, insert}
use ieee2030_5_cold_client.Registers.{RegisterWriter}
use ieee2030_5_cold_client.Polling.{FloatOps, Xml, PollTargetConfig, TargetState, Surroundings}
use ieee2030_5_cold_client.Polling.Worker.{
  PollingConfig, PollingWorker, named, fresh, init_target_states, create, poll_one, poll_each,
  poll_cycle, under_way, start, signal_stop, end_stop, thread_begins, thread_connects, thread_ends,
  replace_config, set_target_enabled, put_enabled,
}

module _ {F : Type 0} where
  -- The sums of the counters of the targets.
  abbrev pub polls_in : Dict (TargetState F) → ℕ
  polls_in [] = 0
  polls_in ((id, s) ∷ d) = s.poll_count + polls_in d

  abbrev pub errors_in : Dict (TargetState F) → ℕ
  errors_in [] = 0
  errors_in ((id, s) ∷ d) = s.error_count + errors_in d

  -- The totals hold the counters of the targets and more, and there are no more errors than polls.
  abbrev pub IsCounted : PollingWorker F → Type 0
  IsCounted p =
      (polls_in p.target_states ≤ p.total_polls)
      × (errors_in p.target_states ≤ p.total_errors)
      × (p.total_errors ≤ p.total_polls)

  poll_one_counts :
      (f : FloatOps F) (x : Xml) (clients : List String) (now : ℕ) (s : TargetState F)
      (w : Option RegisterWriter) (e : Surroundings)
      → let r = poll_one f x clients now s w e in
        (r.0.poll_count ≡ s.poll_count + r.3)
        × (r.0.error_count ≡ s.error_count + r.4)
        × (r.4 ≤ r.3)
  unfolding poll_one
  poll_one_counts f x clients now s w e = ground arith

  poll_each_counts :
      (f : FloatOps F) (x : Xml) (clients : List String) (now : ℕ) (d : Dict (TargetState F))
      (w : Option RegisterWriter) (e : Surroundings)
      → let r = poll_each f x clients now d w e in
        (polls_in r.0 ≡ polls_in d + r.3) × (errors_in r.0 ≡ errors_in d + r.4) × (r.4 ≤ r.3)
  unfolding poll_each
  poll_each_counts f x clients now [] w e = (refl, refl, omega arith)
  poll_each_counts f x clients now ((id, s) ∷ d) w e =
      let one = poll_one f x clients now s w e in
      let (a, b, c) = poll_one_counts f x clients now s w e in
      let (p, q, r) = poll_each_counts f x clients now d one.1 one.2 in
      (omega (arith, a, p), omega (arith, b, q), omega (arith, c, r))

  -- The counters of one target, replaced by those of another that are the same.
  insert_counts :
      (id : String) (s t : TargetState F) (d : Dict (TargetState F))
      → lookup id d ≡ some s
      → t.poll_count ≡ s.poll_count
      → t.error_count ≡ s.error_count
      → (polls_in (insert id t d) ≡ polls_in d) × (errors_in (insert id t d) ≡ errors_in d)
  unfolding lookup insert
  insert_counts id s t [] h p q = absurd (ground (arith, h))
  insert_counts id s t ((j, u) ∷ d) h p q = elim (Bool-cases (str_eq j id)) [
    | inl e ↦ ground (arith, e, h, p, q)
    | inr e ↦
        let (a, b) = insert_counts id s t d (ground (arith, e, h)) p q in ground (arith, e, a, b)
  ]

  insert_zero :
      (id : String) (t : PollTargetConfig F) (d : Dict (TargetState F))
      → (polls_in d ≡ 0) × (errors_in d ≡ 0)
      → (polls_in (insert id (fresh t) d) ≡ 0) × (errors_in (insert id (fresh t) d) ≡ 0)
  unfolding insert
  insert_zero id t [] h = (refl, refl)
  insert_zero id t ((j, u) ∷ d) h =
      let ih = insert_zero id t d (omega (arith, h.0), omega (arith, h.1)) in ground (arith, h, ih)

  init_zero :
      (ts : List (PollTargetConfig F)) (profiles : List String) (d : Dict (TargetState F))
      → (polls_in d ≡ 0) × (errors_in d ≡ 0)
      → (polls_in (init_target_states ts profiles d) ≡ 0)
        × (errors_in (init_target_states ts profiles d) ≡ 0)
  unfolding init_target_states
  init_zero [] profiles d h = h
  init_zero (t ∷ ts) profiles d h =
      init_zero ts profiles (if named t.profile_name profiles then insert t.id (fresh t) d else d) (
        if_intro (λ (e : Dict (TargetState F)). (polls_in e ≡ 0) × (errors_in e ≡ 0))
          (named t.profile_name profiles) (insert_zero t.id t d h) h)

  -- What the thread and the callers can do, in any order.
  pub data IsReachable (f : FloatOps F) (x : Xml) : PollingWorker F → Type 0 where
    created : (c : PollingConfig F) (simulation : Bool) → IsReachable f x (create c simulation)
    started : (p : PollingWorker F) → IsReachable f x p → IsReachable f x (start p).1
    signalled : (p : PollingWorker F) → IsReachable f x p → IsReachable f x (signal_stop p).1
    waited : (p : PollingWorker F) → IsReachable f x p → IsReachable f x (end_stop p)
    begun : (p : PollingWorker F) → IsReachable f x p → IsReachable f x (thread_begins p)
    connected :
        (clients : List String) (w : RegisterWriter) (p : PollingWorker F)
        → IsReachable f x p
        → IsReachable f x (thread_connects clients w p)
    cycled :
        (p : PollingWorker F) (e : Surroundings)
        → IsReachable f x p
        → IsReachable f x (poll_cycle f x p e).0
    ended : (p : PollingWorker F) → IsReachable f x p → IsReachable f x (thread_ends p)
    replaced :
        (c : PollingConfig F) (p : PollingWorker F)
        → IsReachable f x p
        → IsReachable f x (replace_config c p)
    switched :
        (id : String) (enabled : Bool) (p : PollingWorker F)
        → IsReachable f x p
        → IsReachable f x (set_target_enabled id enabled p).1

  switch-IsCounted :
      (id : String) (enabled : Bool) (p : PollingWorker F)
      → IsCounted p
      → IsCounted (set_target_enabled id enabled p).1
  unfolding set_target_enabled
  switch-IsCounted id enabled p h =
      option_intro_eq (λ (q : Bool × PollingWorker F). IsCounted q.1) (lookup id p.target_states)
        {n = (false, p)} {f = λ s. (true, put_enabled id enabled p s)} (λ e. h)
        (λ s e.
          let (a, b) =
            insert_counts id s (record s { target = record s.target { enabled = enabled } })
              p.target_states e refl refl in
          (omega (arith, a, h.0), omega (arith, b, h.1), h.2))

  -- Whatever the thread and its callers do, in any order, the total of polls is at least the sum of
  -- the polls of the targets, that of errors at least the sum of theirs, and there are no more errors
  -- than polls.
  pub reachable-IsCounted :
      (f : FloatOps F) (x : Xml) (p : PollingWorker F) → IsReachable f x p → IsCounted p
  unfolding create start signal_stop end_stop thread_begins thread_connects thread_ends
      replace_config poll_cycle
  reachable-IsCounted f x p (created c simulation) =
      let z = init_zero c.poll_targets c.profiles [] (refl, refl) in
      (omega (arith, z), omega (arith, z), omega arith)
  reachable-IsCounted f x p (started s r) =
      if_intro (λ (q : Bool × PollingWorker F). IsCounted q.1) (under_way s.state)
        (reachable-IsCounted f x s r) (reachable-IsCounted f x s r)
  reachable-IsCounted f x p (signalled s r) =
      if_intro (λ (q : Bool × PollingWorker F). IsCounted q.1) (under_way s.state)
        (reachable-IsCounted f x s r) (reachable-IsCounted f x s r)
  reachable-IsCounted f x p (waited s r) = reachable-IsCounted f x s r
  reachable-IsCounted f x p (begun s r) = reachable-IsCounted f x s r
  reachable-IsCounted f x p (connected clients w s r) = reachable-IsCounted f x s r
  reachable-IsCounted f x p (cycled s e r) =
      let h = reachable-IsCounted f x s r in
      let k = poll_each_counts f x s.clients e.now s.target_states s.modbus_writer e in
      (omega (arith, h.0, k.0), omega (arith, h.1, k.1), omega (arith, h.2, k.2))
  reachable-IsCounted f x p (ended s r) = reachable-IsCounted f x s r
  reachable-IsCounted f x p (replaced c s r) =
      let z = init_zero c.poll_targets c.profiles [] (refl, refl) in
      let h = reachable-IsCounted f x s r in (omega (arith, z), omega (arith, z), h.2)
  reachable-IsCounted f x p (switched id enabled s r) =
      switch-IsCounted id enabled s (reachable-IsCounted f x s r)
