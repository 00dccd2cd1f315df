-- ===== src/Modbus.antt =====
-- `write_register` and `read_registers` of `ModbusBMSClient` in
-- src/bms_2030_5_client/modbus/modbus_client.py, through which the power writer reaches the power
-- conversion system. pymodbus is not in the repository: its replies are the schedule's. Taking the
-- lock is an await, so it has a turn of its own; each call of pymodbus has one, and each sleep
-- between two attempts. The length of a sleep is the schedule's.
pub mod Attempts
pub mod Retries
use ieee2030_5_cold_client.Prelude.{
  ℕ, zero, suc, String, Bool, true, false, List, ◌∷◌, if◌then◌else◌, ◌==◌, Outcome, returned,
  raised,
}
use ieee2030_5_cold_client.Stop.{is_stopped}
use ieee2030_5_cold_client.World.{
  World, Write, Reply, turn, wait, replied, error_response, modbus_exception, other_exception,
}

-- The one field of the client that decides what it does.
pub record ModbusBmsClient : Type 0 where
  pub read_max_retries : ℕ

-- How an attempt goes on: only an error response and a `ModbusException` are retried.
abbrev pub after_reply {ℓ} :
    {A : Type 0} {R : Type ℓ} → Reply A → (A → R) → (retry : R) → (String → R) → R
after_reply (replied a) done retry other = done a
after_reply error_response done retry other = retry
after_reply modbus_exception done retry other = retry
after_reply (other_exception e) done retry other = other e

-- The await of the `write_register` of pymodbus.
unfoldable pub put_register : ℕ → ℕ → Bool → World → World
put_register address value asked w =
    let sent : Write = record {
      address = address;
      value = value;
      asked_while_stopped = asked;
      while_stopped = is_stopped w.stop;
    } in
    wait (record w { writes = sent ∷ w.writes })

-- The loop of `write_register`, on the attempts that are left; a sleep precedes each but the first.
unfoldable pub write_attempts : ℕ → ℕ → Bool → ℕ → World → Outcome Bool × World
write_attempts address value asked zero w = (returned false, w)
write_attempts address value asked (suc left) w =
    let w' = put_register address value asked w in
    let rest = write_attempts address value asked left (wait w') in
    after_reply (turn w).wrote (λ u. (returned true, w'))
      (if left == 0 then (returned false, w') else rest) (λ e. (raised e, w'))

abbrev pub not_connected : String
not_connected = "Not connected to BMS"

-- What a client raises that lost its connection while this call waited for the lock.
abbrev pub no_client : String
no_client = "'NoneType' object has no attribute"

unfoldable pub write_register : ModbusBmsClient → ℕ → ℕ → World → Outcome Bool × World
write_register c address value w =
    let w' = wait w in
    if (turn w).connected
    then if (turn w').connected
      then write_attempts address value (is_stopped w.stop) c.read_max_retries w'
      else (raised no_client, w')
    else (raised not_connected, w)

-- The loop of `read_registers`.
unfoldable pub read_attempts : ℕ → World → Outcome (List ℕ) × World
read_attempts zero w = (raised "Failed to read", w)
read_attempts (suc left) w =
    let w' = wait w in
    let rest = read_attempts left (wait w') in
    after_reply (turn w).registers (λ registers. (returned registers, w'))
      (if left == 0 then (raised "Failed to read", w') else rest) (λ e. (raised e, w'))

unfoldable pub read_registers : ModbusBmsClient → World → Outcome (List ℕ) × World
read_registers c w =
    let w' = wait w in
    if (turn w).connected
    then if (turn w').connected then read_attempts c.read_max_retries w' else (raised no_client, w')
    else (raised not_connected, w)
