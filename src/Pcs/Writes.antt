-- ===== src/Pcs/Writes.antt =====
-- What `write_power_to_modbus` of src/bms_2030_5_client/modbus/power_writer.py sends, and what it
-- reports.
use ieee2030_5_cold_client.Prelude.{
  ℕ, zero, suc, ◌+◌, ◌*◌, ◌≡◌, refl, inl, inr, Bool, true, false, List, arith, Bool-cases, ◌∙◌,
  Outcome, returned, raised, if_intro, ◌==◌,
}
use ieee2030_5_cold_client.Prelude.Int.{ℤ}
use ieee2030_5_cold_client.Pcs.Words.{low_word}
use ieee2030_5_cold_client.Stop.{is_stopped}
use ieee2030_5_cold_client.World.{World, Write, turn, wait}
use ieee2030_5_cold_client.World.Sends.{
  Sends, Sends-none, Sends-map, Sends-wait, Sends-append, Sends-le,
}
use ieee2030_5_cold_client.Modbus.{ModbusBmsClient, write_register, read_attempts, read_registers}
use ieee2030_5_cold_client.Modbus.Attempts.{after_reply_intro, IsAsked, write_register-Sends}
use ieee2030_5_cold_client.Pcs.{
  ModbusPowerWriter, PowerWriteResult, attempts, settle, written, verify, write_power_to_modbus,
  power_to_register_value,
}

writes-read_attempts : (n : ℕ) (w : World) → (read_attempts n w).1.writes ≡ w.writes
unfolding read_attempts wait
writes-read_attempts zero w = refl
writes-read_attempts (suc n) w =
    let P = λ (r : Outcome (List ℕ) × World). r.1.writes ≡ w.writes in
    after_reply_intro P (turn w).registers (λ a. refl)
      (if_intro P (n == 0) refl (writes-read_attempts n (wait (wait w)))) (λ e. refl)

writes-read_registers : (c : ModbusBmsClient) (w : World) → (read_registers c w).1.writes ≡ w.writes
unfolding read_registers wait
writes-read_registers c w =
    if_intro (λ (r : Outcome (List ℕ) × World). r.1.writes ≡ w.writes) (turn w).connected
      (if_intro (λ (r : Outcome (List ℕ) × World). r.1.writes ≡ w.writes) (turn (wait w)).connected
        (writes-read_attempts c.read_max_retries (wait w)) refl)
      refl

writes-verify : (wr : ModbusPowerWriter) (w : World) → (verify wr w).1.writes ≡ w.writes
unfolding verify wait
writes-verify wr w = ground (arith, writes-read_registers wr.modbus (wait w))

pub writes-written :
    (wr : ModbusPowerWriter) (p : ℤ) (w : World) → (written wr p w).2.writes ≡ w.writes
unfolding written
writes-written wr p w = writes-verify wr w

-- The most register writes that one command of the writer can make.
abbrev pub write_limit : ModbusPowerWriter → ℕ
write_limit wr = wr.config.max_retries * wr.modbus.read_max_retries

module _ (wr : ModbusPowerWriter) (p : ℤ) where
  -- A write of the setpoint `p` to the configured register, asked for while the stop did not hold.
  abbrev pub IsSetpointWrite : Write → Type 0
  IsSetpointWrite e =
      (e.address ≡ wr.config.power_setpoint_address)
      × (e.value ≡ low_word (power_to_register_value wr p))
      × (e.asked_while_stopped ≡ false)

  settle-Sends :
      (left m : ℕ) (sent : Outcome Bool) (w₁ : World)
      (rest : PowerWriteResult × ModbusPowerWriter × World)
      → Sends IsSetpointWrite m w₁ rest.2
      → Sends IsSetpointWrite m w₁ (settle wr p left sent w₁ rest).2
  unfolding settle
  settle-Sends left m (returned true) w₁ rest h = Sends-none _ m w₁ _ (writes-written wr p w₁)
  settle-Sends zero m (returned false) w₁ rest h = Sends-none _ m w₁ _ refl
  settle-Sends (suc left) m (returned false) w₁ rest h = h
  settle-Sends zero m (raised e) w₁ rest h = Sends-none _ m w₁ _ refl
  settle-Sends (suc left) m (raised e) w₁ rest h = h

  abbrev setpoint : ℕ
  setpoint = wr.config.power_setpoint_address

  abbrev value : ℕ
  value = low_word (power_to_register_value wr p)

  abbrev write : World → Outcome Bool × World
  write w = write_register wr.modbus setpoint value w

  write-Sends :
      (w : World)
      → is_stopped w.stop ≡ false
      → Sends IsSetpointWrite wr.modbus.read_max_retries w (write w).1
  write-Sends w clear =
      Sends-map (IsAsked setpoint value (is_stopped w.stop)) IsSetpointWrite
        wr.modbus.read_max_retries w (write w).1 (λ e h. (h.0, h.1, h.2 ∙ clear))
        (write_register-Sends wr.modbus setpoint value w)

  attempts-Sends :
      (n : ℕ) (w : World)
      → Sends IsSetpointWrite (n * wr.modbus.read_max_retries) w (attempts wr p n w).2
  unfolding attempts
  attempts-Sends zero w = Sends-none _ _ w w refl
  attempts-Sends (suc n) w = elim (Bool-cases (is_stopped w.stop)) [
    | inl stopped ↦ rw stopped (Sends-none _ _ w w refl)
    | inr clear ↦
        let rest = attempts wr p n (wait (write w).1) in
        let m = n * wr.modbus.read_max_retries in
        rw clear (
          Sends-le _ (wr.modbus.read_max_retries + m) _ w _ (omega arith) (
            Sends-append _ wr.modbus.read_max_retries m w (write w).1 _ (write-Sends w clear) (
              settle-Sends n m (write w).0 (write w).1 rest
                (Sends-wait _ m (write w).1 rest.2 (attempts-Sends n (wait (write w).1))))))
  ]

  -- A run of `write_power_to_modbus` makes at most `max_retries` times `read_max_retries` register
  -- writes. Each of them carries the low word of the scaled setpoint to the configured register and
  -- was asked of the Modbus client at a moment when the emergency stop did not hold, whatever the
  -- device replies and the other tasks call.
  pub write_power_to_modbus-Sends :
      (w : World) → Sends IsSetpointWrite (write_limit wr) w (write_power_to_modbus wr p w).2
  unfolding write_power_to_modbus
  write_power_to_modbus-Sends w = attempts-Sends wr.config.max_retries w
