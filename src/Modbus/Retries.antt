-- ===== src/Modbus/Retries.antt =====
-- The retries of `write_register` in src/bms_2030_5_client/modbus/modbus_client.py: it ends with the first
-- answered attempt, whatever becomes of the emergency stop in the meantime.
use ieee2030_5_cold_client.Prelude.{
  ℕ, zero, suc, ◌+◌, ◌*◌, ◌<◌, ◌≡◌, ◌⊎◌, inl, inr, refl, ap, Bool, true, false, List, ◌∷◌, ◌++◌,
  arith, ◌∙◌, ◌==◌, Outcome, returned,
}
use mathlib.Core.Path.{subst}
use ieee2030_5_cold_client.Prelude.Lists.{length}
use ieee2030_5_cold_client.Stop.{is_stopped}
use ieee2030_5_cold_client.World.{
  World, Write, Reply, turn, wait, replied, error_response, modbus_exception,
}
use ieee2030_5_cold_client.Modbus.{ModbusBmsClient, put_register, write_attempts, write_register}
use ieee2030_5_cold_client.Modbus.Attempts.{
  put, sent, rest-Sends, write_attempts-Sends, writes-put_register,
}

-- What pymodbus ends with, where `write_register` tries again.
abbrev pub IsRetried : Reply (Unit {0}) → Type 0
IsRetried o = (o ≡ error_response) ⊎ (o ≡ modbus_exception)

writes-wait : (w : World) → (wait w).writes ≡ w.writes
unfolding wait
writes-wait w = refl

suc_positive : (n : ℕ) → (suc n == 0) ≡ false
suc_positive n = ground arith

module _ (address value : ℕ) (asked : Bool) where
  -- One attempt that is retried, with at least one more to come.
  write_attempts_retried :
      (n : ℕ) (w : World)
      → IsRetried (turn w).wrote
      → write_attempts address value asked (suc (suc n)) w
        ≡ write_attempts address value asked (suc n) (wait (put_register address value asked w))
  unfolding write_attempts
  write_attempts_retried n w (inl e) = rw (e, suc_positive n) refl
  write_attempts_retried n w (inr e) = rw (e, suc_positive n) refl

  write_attempts_confirmed :
      (n : ℕ) (w : World)
      → (turn w).wrote ≡ replied tt
      → write_attempts address value asked (suc n) w
        ≡ (returned true, put_register address value asked w)
  unfolding write_attempts
  write_attempts_confirmed n w e = rw e refl

  next_fields :
      (w : World)
      → let w' = wait (put_register address value asked w) in
        (w'.schedule ≡ w.schedule) × (w'.at ≡ w.at + 2) × (length w'.writes ≡ suc (length w.writes))
  unfolding put_register wait
  next_fields w = (refl, omega arith, refl)

  length-put_register :
      (w : World) → length (put_register address value asked w).writes ≡ suc (length w.writes)
  unfolding put_register wait
  length-put_register w = refl

  abbrev Confirmed : Outcome Bool × World → ℕ → Type 0
  Confirmed r n = (r.0 ≡ returned true) × (length r.1.writes ≡ n)

  write_attempts-Confirmed :
      (i n : ℕ) (w : World)
      → i < n
      → ((j : ℕ) → j < i → IsRetried (w.schedule (w.at + 2 * j)).wrote)
      → (w.schedule (w.at + 2 * i)).wrote ≡ replied tt
      → Confirmed (write_attempts address value asked n w) (suc (i + length w.writes))
  unfolding wait put_register
  write_attempts-Confirmed i zero w h refused reply = absurd (omega arith)
  write_attempts-Confirmed zero (suc n) w h refused reply =
      let reply₀ : (turn w).wrote ≡ replied tt =
        subst (λ k. (w.schedule k).wrote ≡ replied tt) (omega arith) reply in
      rw (write_attempts_confirmed n w reply₀) (refl, omega (arith, length-put_register w))
  write_attempts-Confirmed (suc i) (suc zero) w h refused reply = absurd (omega arith)
  write_attempts-Confirmed (suc i) (suc (suc n)) w h refused reply =
      let w' = wait (put_register address value asked w) in
      let later : (k : ℕ) → w.at + 2 * suc k ≡ w'.at + 2 * k =
        λ k. omega (arith, (next_fields w).1) in
      let first : IsRetried (turn w).wrote =
        subst (λ k. IsRetried (w.schedule k).wrote) (omega arith) (refused 0 (omega arith)) in
      let c =
        write_attempts-Confirmed i (suc n) w' (omega arith)
          (λ j hj.
            subst (λ k. IsRetried (w.schedule k).wrote) (later j) (refused (suc j) (omega arith)))
          (subst (λ k. (w.schedule k).wrote ≡ replied tt) (later i) reply) in
      rw (write_attempts_retried n w first) (c.0, omega (arith, c.1, (next_fields w).2))

  -- The writes of a run whose first attempt is retried while the stop holds.
  write_attempts_ignores :
      (n : ℕ) (w : World)
      → IsRetried (turn w).wrote
      → is_stopped (wait (put address value asked w)).stop ≡ true
      → (later : List Write) × ((write_attempts address value asked (suc (suc n)) w).1.writes
          ≡ later
            ++ record (sent address value asked w) { while_stopped = true }
              ∷ sent address value asked w
              ∷ w.writes)
  write_attempts_ignores n w h stopped =
      let w' = wait (put address value asked w) in
      let s =
        rest-Sends address value asked n w'
          (write_attempts-Sends address value asked n (wait (put address value asked w'))) in
      let second = λ (b : Bool).
        record (sent address value asked w) { while_stopped = b }
        ∷ sent address value asked w
        ∷ w.writes in
      (
        s.sent,
        ap (λ r. r.1.writes) (write_attempts_retried n w h)
            ∙ s.writes
            ∙ ap (λ ws. s.sent ++ ws)
                (writes-put_register address value asked w'
                  ∙ ap (λ ws. sent address value asked w' ∷ ws)
                      (writes-wait (put address value asked w))
                  ∙ ap (λ ws. sent address value asked w' ∷ ws)
                      (writes-put_register address value asked w)
                  ∙ ap second stopped),
      )

-- A connected client whose first `i` register writes end with an error response or a
-- `ModbusException`, and whose next one is answered, with `i` below `read_max_retries`, returns True
-- after exactly `i + 1` register writes.
pub write_register_retries :
    (c : ModbusBmsClient) (address value i : ℕ) (w : World)
    → (turn w).connected ≡ true
    → (turn (wait w)).connected ≡ true
    → i < c.read_max_retries
    → ((j : ℕ) → j < i → IsRetried (w.schedule (w.at + 1 + 2 * j)).wrote)
    → (w.schedule (w.at + 1 + 2 * i)).wrote ≡ replied tt
    → ((write_register c address value w).0 ≡ returned true)
      × (length (write_register c address value w).1.writes ≡ suc (i + length w.writes))
unfolding write_register wait
write_register_retries c address value i w here there h refused reply =
    rw (here, there)
      (write_attempts-Confirmed address value (is_stopped w.stop) i c.read_max_retries (wait w) h
        refused reply)

-- `write_register` makes no test of the emergency stop: where a connected client with more than one
-- attempt is to try its first register write again, and the stop holds when the next attempt begins,
-- a register write leaves while the stop holds, also where the stop did not hold when
-- `write_register` was called.
pub write_register_ignores_stop :
    (c : ModbusBmsClient) (address value : ℕ) (w : World)
    → (turn w).connected ≡ true
    → (turn (wait w)).connected ≡ true
    → 1 < c.read_max_retries
    → IsRetried (turn (wait w)).wrote
    → is_stopped (wait (put_register address value (is_stopped w.stop) (wait w))).stop ≡ true
    → (later : List Write) × (first : Write) × ((write_register c address value w).1.writes
        ≡ later
          ++ record {
            address = address;
            value = value;
            asked_while_stopped = is_stopped w.stop;
            while_stopped = true;
          }
            ∷ first
            ∷ w.writes)
unfolding write_register
write_register_ignores_stop c address value w here there h retried stopped =
    rw (here, there) (by_limit c.read_max_retries h)
  where
    by_limit :
        (n : ℕ)
        → 1 < n
        → (later : List Write) × (first : Write) × ((write_attempts address value
              (is_stopped w.stop)
              n
              (wait w)).1.writes
            ≡ later
              ++ record {
                address = address;
                value = value;
                asked_while_stopped = is_stopped w.stop;
                while_stopped = true;
              }
                ∷ first
                ∷ w.writes)
    by_limit zero l = absurd (omega arith)
    by_limit (suc zero) l = absurd (omega arith)
    by_limit (suc (suc n)) l =
        let r =
          write_attempts_ignores address value (is_stopped w.stop) n (wait w) retried stopped in
        let first = sent address value (is_stopped w.stop) (wait w) in
        (
          r.0,
          first,
          r.1
              ∙ ap (λ ws. r.0 ++ record (first) { while_stopped = true } ∷ first ∷ ws)
                  (writes-wait w),
        )
