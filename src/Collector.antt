-- ===== src/Collector.antt =====
-- The data collector of src/bms_2030_5_client/modbus/modbus_client.py: the connection states of
-- `_collection_loop` and its reconnects. A round is one pass of the loop's body; what the Modbus
-- client answers in it, and the time, are the round's. How long the DEGRADED state sleeps, a float,
-- is not computed; the log lines and the data callbacks are not kept.
pub mod Escalation
use ieee2030_5_cold_client.Prelude.{
  ℕ, ◌+◌, ◌*◌, String, Bool, true, false, Option, none, some, List, [], ◌∷◌, if◌then◌else◌, leb,
  ltb, Outcome, returned, raised,
}

pub data ConnectionState : Type 0 where
  disconnected connected unstable degraded : ConnectionState

abbrev pub same_state : ConnectionState → ConnectionState → Bool
same_state disconnected disconnected = true
same_state connected connected = true
same_state unstable unstable = true
same_state degraded degraded = true
same_state _ _ = false

pub record HealthStatus : Type 0 where
  pub state : ConnectionState
  pub consecutive_failures : ℕ
  pub last_success_time : Option ℕ
  pub last_failure_time : Option ℕ
  pub last_error : Option String
  pub total_reconnects : ℕ

pub record Collector (S : Type 0) : Type 0 where
  pub latest_snapshot : Option S
  pub running : Bool
  pub reconnect_delay : ℕ
  pub degraded_retries : ℕ
  pub health : HealthStatus
  -- the states that the callbacks were told, the newest first
  pub notified : List ConnectionState

-- What `read_snapshot` ends with.
pub data Reading (S : Type 0) : Type 0 where
  snapshot : S → Reading S
  client_error : String → Reading S
  unexpected : String → Reading S

pub record Round (S : Type 0) : Type 0 where
  pub read : Reading S
  pub connected : Outcome Bool
  pub now : ℕ

abbrev pub unstable_threshold : ℕ
unstable_threshold = 2

abbrev pub degraded_threshold : ℕ
degraded_threshold = 10

module _ {S : Type 0} where
  -- `_transition_state`.
  abbrev pub transition : ConnectionState → Collector S → Collector S
  transition new c =
      if same_state c.health.state new
      then c
      else record c { health = record c.health { state = new }; notified = new ∷ c.notified }

  -- A snapshot has been read.
  abbrev pub succeed : S → ℕ → Collector S → Collector S
  succeed s now c = transition connected (record c {
    latest_snapshot = some s;
    reconnect_delay = 1;
    health = record c.health { consecutive_failures = 0; last_success_time = some now };
  })

  abbrev count_reconnect : Collector S → Collector S
  count_reconnect c = record c {
    health = record c.health { total_reconnects = c.health.total_reconnects + 1 };
  }

  abbrev retry_failed : String → ℕ → Collector S → Collector S
  retry_failed e now c = record c {
    health = record c.health { last_error = some e; last_failure_time = some now };
  }

  -- The read that confirms a reconnection.
  confirm : Reading S → ℕ → Collector S → Collector S
  confirm (snapshot s) now c = record (succeed s now c) { degraded_retries = 0 }
  confirm (client_error e) now c = retry_failed e now c
  confirm (unexpected e) now c = retry_failed e now c

  -- The branch for the DEGRADED state.
  reconnect_degraded : Outcome Bool → Round S → Collector S → Collector S
  unfolding confirm
  reconnect_degraded (returned true) x c = confirm x.read x.now (count_reconnect c)
  reconnect_degraded (returned false) x c = c
  reconnect_degraded (raised e) x c = retry_failed e x.now c

  -- The reconnection after a failed read.
  reconnect : Outcome Bool → Collector S → Collector S
  reconnect answer c =
      let doubled = 2 * c.reconnect_delay in
      let slept = record c { reconnect_delay = if ltb 60 doubled then 60 else doubled } in
      elim answer [
        | returned true ↦ count_reconnect slept
        | returned false ↦ slept
        | raised e ↦ slept
      ]

  fail : String → Round S → Collector S → Collector S
  unfolding reconnect
  fail e x c =
      let failures = c.health.consecutive_failures + 1 in
      let failed = record c {
        health = record c.health {
          consecutive_failures = failures;
          last_failure_time = some x.now;
          last_error = some e;
        };
      } in
      if leb degraded_threshold failures
      then transition degraded failed
      else reconnect x.connected
          (if leb unstable_threshold failures then transition unstable failed else failed)

  collect : Reading S → Round S → Collector S → Collector S
  unfolding fail
  collect (snapshot s) x c = succeed s x.now c
  collect (client_error e) x c = fail e x c
  collect (unexpected e) x c = c

  -- One pass of the loop's body.
  pub round : Round S → Collector S → Collector S
  unfolding reconnect_degraded collect
  round x c =
      let retried = record c { degraded_retries = c.degraded_retries + 1 } in
      if same_state c.health.state degraded
      then reconnect_degraded x.connected x retried
      else collect x.read x c

  pub run : List (Round S) → Collector S → Collector S
  unfolding round
  run [] c = c
  run (x ∷ xs) c = run xs (round x c)

  -- `start`, where `alive` is whether the client is connected and `answer` what `connect` returns.
  pub start : Bool → Bool → Collector S → Collector S
  start alive answer c =
      let told = if alive then c else if answer then transition connected c else c in
      if c.running then c else record told { running = true }

  pub stop : Collector S → Collector S
  stop c = transition disconnected (record c { running = false })
