-- ===== src/Pcs/Retries.antt =====
-- The retry loop of `write_power_to_modbus` in src/bms_2030_5_client/modbus/power_writer.py, where
-- no other task touches the emergency stop: it ends with the first call of the Modbus client that
-- returns True.
use ieee2030_5_cold_client.Prelude.{
  ℕ, zero, suc, ◌<◌, ◌≡◌, ◌≢◌, refl, Bool, true, false, [], ◌∙◌, arith, Outcome, returned, raised,
  if_intro, ◌==◌,
}
use ieee2030_5_cold_client.Prelude.Int.{ℤ}
use ieee2030_5_cold_client.Stop.{is_stopped}
use ieee2030_5_cold_client.Pcs.Words.{low_word}
use ieee2030_5_cold_client.World.{World, turn, wait, make_calls}
use ieee2030_5_cold_client.Modbus.{put_register, write_attempts, write_register, ModbusBmsClient}
use ieee2030_5_cold_client.Modbus.Attempts.{after_reply_intro}
use ieee2030_5_cold_client.Pcs.{
  ModbusPowerWriter, PowerWriteResult, power_to_register_value, attempts, settle, written,
  write_power_to_modbus,
}
use ieee2030_5_cold_client.Pcs.Writes.{writes-written}

-- No other task calls the emergency stop, and it does not hold.
pub record IsQuiet (w : World) : Type 0 where
  pub calls : (k : ℕ) → (w.schedule k).calls ≡ []
  pub clear : is_stopped w.stop ≡ false

wait-IsQuiet : (w : World) → IsQuiet w → IsQuiet (wait w)
unfolding wait make_calls
wait-IsQuiet w q = record { calls = q.calls; clear = rw (q.calls w.at) q.clear }

put_register-IsQuiet : (a v : ℕ) (b : Bool) (w : World) → IsQuiet w → IsQuiet (put_register a v b w)
unfolding put_register wait make_calls
put_register-IsQuiet a v b w q = record { calls = q.calls; clear = rw (q.calls w.at) q.clear }

write_attempts-IsQuiet :
    (a v : ℕ) (b : Bool) (n : ℕ) (w : World) → IsQuiet w → IsQuiet (write_attempts a v b n w).1
unfolding write_attempts
write_attempts-IsQuiet a v b zero w q = q
write_attempts-IsQuiet a v b (suc n) w q =
    let Q = λ (r : Outcome Bool × World). IsQuiet r.1 in
    let sent = put_register-IsQuiet a v b w q in
    let again = write_attempts-IsQuiet a v b n _ (wait-IsQuiet (put_register a v b w) sent) in
    after_reply_intro Q (turn w).wrote (λ u. sent) (if_intro Q (n == 0) sent again) (λ e. sent)

write_register-IsQuiet :
    (c : ModbusBmsClient) (a v : ℕ) (w : World) → IsQuiet w → IsQuiet (write_register c a v w).1
unfolding write_register
write_register-IsQuiet c a v w q =
    let Q = λ (r : Outcome Bool × World). IsQuiet r.1 in
    let locked = wait-IsQuiet w q in
    if_intro Q (turn w).connected
      (if_intro Q (turn (wait w)).connected
        (write_attempts-IsQuiet a v (is_stopped w.stop) c.read_max_retries (wait w) locked) locked)
      q

module _ (wr : ModbusPowerWriter) (p : ℤ) where
  -- The call of the Modbus client in one round of the loop, and the world in which the next round
  -- begins.
  abbrev pub call : World → Outcome Bool × World
  call w =
      write_register wr.modbus wr.config.power_setpoint_address
        (low_word (power_to_register_value wr p)) w

  abbrev pub after_rounds : ℕ → World → World
  after_rounds zero w = w
  after_rounds (suc k) w = after_rounds k (wait (call w).1)

  attempts_clear :
      (n : ℕ) (w : World)
      → is_stopped w.stop ≡ false
      → attempts wr p (suc n) w
        ≡ settle wr p n (call w).0 (call w).1 (attempts wr p n (wait (call w).1))
  unfolding attempts
  attempts_clear n w clear = rw clear

  settle_refused :
      (left : ℕ) (o : Outcome Bool) (w : World)
      (rest : PowerWriteResult × ModbusPowerWriter × World)
      → o ≢ returned true
      → settle wr p (suc left) o w rest ≡ rest
  unfolding settle
  settle_refused left (returned true) w rest h = absurd (h refl)
  settle_refused left (returned false) w rest h = refl
  settle_refused left (raised e) w rest h = refl

  -- What a confirmed call leaves: a success, and the writes as they were.
  abbrev Confirmed : PowerWriteResult × ModbusPowerWriter × World → World → Type 0
  Confirmed t w = (t.0.success ≡ true) × (t.2.writes ≡ w.writes)

  written-Confirmed : (w : World) → Confirmed (written wr p w) w
  unfolding written
  written-Confirmed w = (refl, writes-written wr p w)

  attempts-Confirmed :
      (i n : ℕ) (w : World)
      → IsQuiet w
      → i < n
      → ((j : ℕ) → j < i → (call (after_rounds j w)).0 ≢ returned true)
      → (call (after_rounds i w)).0 ≡ returned true
      → Confirmed (attempts wr p n w) (call (after_rounds i w)).1
  unfolding settle
  attempts-Confirmed i zero w q h refused confirmed = absurd (omega arith)
  attempts-Confirmed zero (suc n) w q h refused confirmed =
      rw (attempts_clear n w q.clear) (rw confirmed (written-Confirmed (call w).1))
  attempts-Confirmed (suc i) (suc zero) w q h refused confirmed = absurd (omega arith)
  attempts-Confirmed (suc i) (suc (suc n)) w q h refused confirmed =
      rw
        (attempts_clear (suc n) w q.clear
          ∙ settle_refused n (call w).0 (call w).1 _ (refused 0 (omega arith)))
        (attempts-Confirmed i (suc n) (wait (call w).1)
          (wait-IsQuiet (call w).1 (write_register-IsQuiet _ _ _ w q)) (omega arith)
          (λ j hj. refused (suc j) (omega arith)) confirmed)

  -- Where no other task touches the emergency stop, the loop ends with the first call of the Modbus
  -- client that returns True: if the first `i` calls end with False or an exception, and the next
  -- one returns True, and `i` is below `max_retries`, then the result is a success, and the
  -- register writes are those of these `i + 1` calls.
  pub write_power_to_modbus_retries :
      (i : ℕ) (w : World)
      → IsQuiet w
      → i < wr.config.max_retries
      → ((j : ℕ) → j < i → (call (after_rounds j w)).0 ≢ returned true)
      → (call (after_rounds i w)).0 ≡ returned true
      → ((write_power_to_modbus wr p w).0.success ≡ true)
        × ((write_power_to_modbus wr p w).2.writes ≡ (call (after_rounds i w)).1.writes)
  unfolding write_power_to_modbus
  write_power_to_modbus_retries i w = attempts-Confirmed i wr.config.max_retries w
