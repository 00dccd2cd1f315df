-- ===== src/Polling/Worker.antt =====
-- The worker of src/bms_2030_5_client/polling/worker.py: its targets, a cycle over them, and the steps of its
-- thread and of its callers.
use ieee2030_5_cold_client.Prelude.{
  ℕ, ◌+◌, String, Bool, true, false, Option, none, some, List, [], ◌∷◌, ◌||◌, not, if◌then◌else◌,
  str_eq,
}
use ieee2030_5_cold_client.Prelude.Dict.{Dict, lookup, insert}
use ieee2030_5_cold_client.Registers.{RegisterWriter, Sent}
use ieee2030_5_cold_client.Polling.{
  PollStatus, success, FloatOps, Xml, PollTargetConfig, PollResult, TargetState, Surroundings,
}
use ieee2030_5_cold_client.Polling.Target.{should_poll, poll_target}

-- `PollingWorkerState`.
pub data PollingWorkerState : Type 0 where
  stopped starting running stopping : PollingWorkerState

-- The thread: none, one before its event loop is made, one with the loop, at work, and the stop
-- event where there is one.
pub data Thread : Type 0 where
  no_thread spawned initialising looping : Thread

-- What is read of `RuntimeConfig`: the names of the profiles.
pub record PollingConfig (F : Type 0) : Type 0 where
  pub poll_targets : List (PollTargetConfig F)
  pub profiles : List String

pub record PollingWorker (F : Type 0) : Type 0 where
  pub config : PollingConfig F
  pub simulation_mode : Bool
  pub state : PollingWorkerState
  pub thread : Thread
  pub stop_event : Option Bool
  pub target_states : Dict (TargetState F)
  pub clients : List String
  pub modbus_writer : Option RegisterWriter
  pub total_polls : ℕ
  pub total_errors : ℕ

abbrev pub named : String → List String → Bool
named s [] = false
named s (x ∷ xs) = str_eq x s || named s xs

abbrev pub is_success_status : PollStatus → Bool
is_success_status s = elim s [ success ↦ true | _ ↦ false ]

abbrev pub one_if : Bool → ℕ
one_if b = if b then 1 else 0

abbrev pub push : Option Sent → List Sent → List Sent
push none ss = ss
push (some s) ss = s ∷ ss

abbrev pub under_way : PollingWorkerState → Bool
under_way s = elim s [ running ↦ true | starting ↦ true | _ ↦ false ]

module _ {F : Type 0} where
  abbrev pub fresh : PollTargetConfig F → TargetState F
  fresh t = record {
    target = t;
    profile = t.profile_name;
    last_poll_time = none;
    last_result = none;
    poll_count = 0;
    error_count = 0;
  }

  -- `_init_target_states`: a target without its profile is left out.
  unfoldable pub init_target_states :
      List (PollTargetConfig F) → List String → Dict (TargetState F) → Dict (TargetState F)
  init_target_states [] profiles d = d
  init_target_states (t ∷ ts) profiles d =
      init_target_states ts profiles
        (if named t.profile_name profiles then insert t.id (fresh t) d else d)

  unfoldable pub create : PollingConfig F → Bool → PollingWorker F
  create c simulation = record {
    config = c;
    simulation_mode = simulation;
    state = stopped;
    thread = no_thread;
    stop_event = none;
    target_states = init_target_states c.poll_targets c.profiles [];
    clients = [];
    modbus_writer = none;
    total_polls = 0;
    total_errors = 0;
  }

  -- The state of a target after its poll, in a cycle that began at `now`.
  abbrev pub record_poll : ℕ → PollResult F → TargetState F → TargetState F
  record_poll now r s = record s {
    last_poll_time = some now;
    last_result = some r;
    poll_count = s.poll_count + 1;
    error_count = s.error_count + one_if (not (is_success_status r.status));
  }

  -- One target in the loop of `_poll_cycle`, with the numbers of polls and of errors.
  unfoldable pub poll_one :
      FloatOps F
      → Xml
      → List String
      → ℕ
      → TargetState F
      → Option RegisterWriter
      → Surroundings
      → TargetState F × Option RegisterWriter × Surroundings × ℕ × ℕ
  poll_one f x clients now s w e =
      let turn = e.turns e.at in
      let (result, w', sent) = poll_target f x s (named s.profile clients) turn w in
      let e' : Surroundings = record e {
        now = e.now + turn.milliseconds;
        at = e.at + 1;
        sent = push sent e.sent;
      } in
      if should_poll s e.now
      then (record_poll now result s, w', e', 1, one_if (not (is_success_status result.status)))
      else (s, w, e, 0, 0)

  unfoldable pub poll_each :
      FloatOps F
      → Xml
      → List String
      → ℕ
      → Dict (TargetState F)
      → Option RegisterWriter
      → Surroundings
      → Dict (TargetState F) × Option RegisterWriter × Surroundings × ℕ × ℕ
  poll_each f x clients now [] w e = ([], w, e, 0, 0)
  poll_each f x clients now ((id, s) ∷ d) w e =
      let (s', w', e', polls, errors) = poll_one f x clients now s w e in
      let (d', w'', e'', more, bad) = poll_each f x clients now d w' e' in
      ((id, s') ∷ d', w'', e'', polls + more, errors + bad)

  -- `_poll_cycle`.
  unfoldable pub poll_cycle :
      FloatOps F → Xml → PollingWorker F → Surroundings → PollingWorker F × Surroundings
  poll_cycle f x p e =
      let (d, w, e', polls, errors) =
        poll_each f x p.clients e.now p.target_states p.modbus_writer e in
      (
        record p {
          target_states = d;
          modbus_writer = w;
          total_polls = p.total_polls + polls;
          total_errors = p.total_errors + errors;
        },
        e',
      )

  -- `start`: the thread is made.
  unfoldable pub start : PollingWorker F → Bool × PollingWorker F
  start p =
      if under_way p.state
      then (false, p)
      else (true, record p { state = starting; thread = spawned })

  -- The first part of `stop`: the state, and the stop event where the thread has made one.
  unfoldable pub signal_stop : PollingWorker F → Bool × PollingWorker F
  signal_stop p =
      let event : Option Bool = elim p.stop_event [ none ↦ none | some b ↦ some true ] in
      if under_way p.state
      then (true, record p { state = stopping; stop_event = event })
      else (false, p)

  -- The second part, after the thread was waited for, ten seconds at most.
  unfoldable pub end_stop : PollingWorker F → PollingWorker F
  end_stop p = record p { state = stopped }

  -- The thread makes its loop and its event, then connects, then works, and ends.
  unfoldable pub thread_begins : PollingWorker F → PollingWorker F
  thread_begins p = record p { thread = initialising; stop_event = some false }

  unfoldable pub thread_connects : List String → RegisterWriter → PollingWorker F → PollingWorker F
  thread_connects clients w p = record p {
    thread = looping;
    clients = clients;
    modbus_writer = some w;
    state = running;
  }

  unfoldable pub thread_ends : PollingWorker F → PollingWorker F
  thread_ends p = record p {
    thread = no_thread;
    stop_event = none;
    clients = [];
    modbus_writer = none;
    state = stopped;
  }

  -- `reload`, the part between the stop and the start.
  unfoldable pub replace_config : PollingConfig F → PollingWorker F → PollingWorker F
  unfolding init_target_states
  replace_config c p = record p {
    config = c;
    target_states = init_target_states c.poll_targets c.profiles [];
  }

  -- `set_target_enabled`.
  abbrev pub put_enabled : String → Bool → PollingWorker F → TargetState F → PollingWorker F
  put_enabled id enabled p s = record p {
    target_states =
        insert id (record s { target = record s.target { enabled = enabled } }) p.target_states;
  }

  unfoldable pub set_target_enabled : String → Bool → PollingWorker F → Bool × PollingWorker F
  set_target_enabled id enabled p = elim (lookup id p.target_states) [
    | none ↦ (false, p)
    | some s ↦ (true, put_enabled id enabled p s)
  ]
