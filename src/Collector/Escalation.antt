-- ===== src/Collector/Escalation.antt =====
-- The escalation of the connection states in src/bms_2030_5_client/modbus/modbus_client.py.
use ieee2030_5_cold_client.Prelude.{
  ◌+◌, if_intro, ◌<◌, ◌≤◌, ◌≡◌, ◌↔◌, Bool, true, List, [], ◌∷◌, String, arith, Outcome, returned,
  some,
}
use ieee2030_5_cold_client.Prelude.Lists.{length, All}
use ieee2030_5_cold_client.Collector.{
  connected, unstable, degraded, Collector, Reading, snapshot, client_error, unexpected, Round,
  confirm, reconnect_degraded, reconnect, fail, collect, round, run, start, stop, same_state,
}

module _ {S : Type 0} where
  -- DEGRADED goes with ten failed reads in a row, UNSTABLE with two to nine, and the delay of a
  -- reconnection is between 1 and 60 seconds.
  abbrev pub IsSound : Collector S → Type 0
  IsSound c =
      ((c.health.state ≡ degraded) ↔ (10 ≤ c.health.consecutive_failures))
      × ((c.health.state ≡ unstable)
          ↔ ((2 ≤ c.health.consecutive_failures) × (c.health.consecutive_failures < 10)))
      × (1 ≤ c.reconnect_delay)
      × (c.reconnect_delay ≤ 60)

  reconnect_degraded-IsSound :
      (o : Outcome Bool) (x : Round S) (c : Collector S)
      → IsSound c
      → IsSound (reconnect_degraded o x c)
  unfolding reconnect_degraded confirm
  reconnect_degraded-IsSound o x c h = ground arith

  fail-IsSound : (e : String) (x : Round S) (c : Collector S) → IsSound c → IsSound (fail e x c)
  unfolding fail reconnect
  fail-IsSound e x c h = ground arith

  collect-IsSound :
      (r : Reading S) (x : Round S) (c : Collector S) → IsSound c → IsSound (collect r x c)
  unfolding collect
  collect-IsSound (snapshot s) x c h = ground arith
  collect-IsSound (client_error e) x c h = fail-IsSound e x c h
  collect-IsSound (unexpected e) x c h = h

  round-IsSound : (x : Round S) (c : Collector S) → IsSound c → IsSound (round x c)
  unfolding round
  round-IsSound x c h =
      if_intro IsSound (same_state c.health.state degraded)
        (reconnect_degraded-IsSound x.connected x
          (record c { degraded_retries = c.degraded_retries + 1 }) h)
        (collect-IsSound x.read x c h)

  -- Whatever the reads and the reconnections end with, the loop keeps its states in step with its
  -- count of failed reads in a row: DEGRADED is at ten, UNSTABLE from two to nine, and the delay of
  -- a reconnection stays between 1 and 60 seconds.
  pub run-IsSound : (xs : List (Round S)) (c : Collector S) → IsSound c → IsSound (run xs c)
  unfolding run
  run-IsSound [] c h = h
  run-IsSound (x ∷ xs) c h = run-IsSound xs (round x c) (round-IsSound x c h)

  -- A round whose read ends with a ModbusClientError.
  abbrev pub IsFailed : Round S → Type 0
  IsFailed x = (e : String) × (x.read ≡ client_error e)

  round_failed :
      (x : Round S) (c : Collector S)
      → IsFailed x
      → IsSound c
      → ((c.health.consecutive_failures < 10)
          → (round x c).health.consecutive_failures ≡ c.health.consecutive_failures + 1)
        × ((10 ≤ c.health.consecutive_failures)
            → (round x c).health.consecutive_failures ≡ c.health.consecutive_failures)
  unfolding round reconnect_degraded confirm collect fail reconnect
  round_failed x c (e, failed) h = ground (arith, failed)

  run_failed :
      (xs : List (Round S)) (c : Collector S)
      → All IsFailed xs
      → IsSound c
      → (10 ≤ (run xs c).health.consecutive_failures)
        ↔ (10 ≤ c.health.consecutive_failures + length xs)
  unfolding run
  run_failed [] c f h = (λ k. omega (arith, k), λ k. omega (arith, k))
  run_failed (x ∷ xs) c (f, fs) h =
      let step = round_failed x c f h in
      let rest = run_failed xs (round x c) fs (round-IsSound x c h) in ground (arith, step, rest)

  -- When every read of a run ends with a `ModbusClientError`, a collector that is sound before the
  -- run, which means that its state fits its count of failures, ends DEGRADED exactly if the
  -- failures before the run and its rounds make ten or more, whatever the reconnections in between
  -- answer.
  pub run_degrades_iff :
      (xs : List (Round S)) (c : Collector S)
      → All IsFailed xs
      → IsSound c
      → ((run xs c).health.state ≡ degraded) ↔ (10 ≤ c.health.consecutive_failures + length xs)
  run_degrades_iff xs c f h =
      let sound = run-IsSound xs c h in
      let count = run_failed xs c f h in
      (λ e. count.0 ((sound.0).0 e), λ k. (sound.0).1 (count.1 k))

  -- From every state, a round that reads a snapshot over a connection that stands leads to
  -- CONNECTED, with no failures counted and the shortest delay; the snapshot is the latest one.
  pub round_recovers :
      (x : Round S) (c : Collector S) (s : S)
      → x.read ≡ snapshot s
      → x.connected ≡ returned true
      → ((round x c).health.state ≡ connected)
        × ((round x c).health.consecutive_failures ≡ 0)
        × ((round x c).reconnect_delay ≡ 1)
        × ((round x c).latest_snapshot ≡ some s)
  unfolding round reconnect_degraded confirm collect
  round_recovers x c s r k = ground (arith, r, k)

  -- A restart does not forget: a running collector that is DEGRADED, stopped, started again with a
  -- connection and then failing at its first read, is DEGRADED at once.
  pub start-stop_degrades :
      (alive : Bool) (x : Round S) (c : Collector S)
      → IsSound c
      → c.health.state ≡ degraded
      → IsFailed x
      → ((start alive true (stop c)).running ≡ true)
        × ((round x (start alive true (stop c))).health.state ≡ degraded)
  unfolding start stop round collect fail
  start-stop_degrades alive x c h d (e, failed) = ground (arith, failed)
