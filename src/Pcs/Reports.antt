-- ===== src/Pcs/Reports.antt =====
-- The result that `write_power_to_modbus` of src/bms_2030_5_client/modbus/power_writer.py returns,
-- on every path.
use ieee2030_5_cold_client.Prelude.{
  ℕ, zero, suc, ◌≡◌, refl, Bool, true, false, none, some, Bool-cases, inl, inr, Outcome, returned,
  raised, is_some,
}
use ieee2030_5_cold_client.Prelude.Int.{ℤ}
use ieee2030_5_cold_client.Stop.{is_stopped}
use ieee2030_5_cold_client.World.{World, wait}
use ieee2030_5_cold_client.Modbus.{write_register}
use ieee2030_5_cold_client.Pcs.Words.{low_word}
use ieee2030_5_cold_client.Pcs.{
  ModbusPowerWriter, PowerWriteResult, attempts, settle, power_to_register_value,
  write_power_to_modbus,
}

-- A success carries no error and leaves the writer at the new setpoint; a failure carries an
-- error and leaves the writer as it was.
abbrev pub Reports : ModbusPowerWriter → ℤ → PowerWriteResult × ModbusPowerWriter × World → Type 0
Reports wr p (r, wr', w') =
    (r.requested_power_w ≡ p)
    × (r.success ≡ true
        → (r.error_message ≡ none)
          × (wr'.current_power_w ≡ p)
          × (r.raw_value ≡ some (power_to_register_value wr p)))
    × (r.success ≡ false → (is_some r.error_message ≡ true) × (wr' ≡ wr))
    × (wr'.config ≡ wr.config)

module _ (wr : ModbusPowerWriter) (p : ℤ) where
  settle-Reports :
      (left : ℕ) (sent : Outcome Bool) (w : World)
      (rest : PowerWriteResult × ModbusPowerWriter × World)
      → Reports wr p rest
      → Reports wr p (settle wr p left sent w rest)
  unfolding settle
  settle-Reports left (returned true) w rest h = (refl, (λ e. (refl, refl, refl)), (λ e. cc), refl)
  settle-Reports zero (returned false) w rest h = (refl, (λ e. cc), (λ e. (refl, refl)), refl)
  settle-Reports (suc left) (returned false) w rest h = h
  settle-Reports zero (raised t) w rest h = (refl, (λ e. cc), (λ e. (refl, refl)), refl)
  settle-Reports (suc left) (raised t) w rest h = h

  attempts-Reports : (n : ℕ) (w : World) → Reports wr p (attempts wr p n w)
  unfolding attempts
  attempts-Reports zero w = (refl, (λ e. cc), (λ e. (refl, refl)), refl)
  attempts-Reports (suc n) w = elim (Bool-cases (is_stopped w.stop)) [
    | inl stopped ↦ rw stopped (refl, (λ e. cc), (λ e. (refl, refl)), refl)
    | inr clear ↦
        let first =
          write_register wr.modbus wr.config.power_setpoint_address
            (low_word (power_to_register_value wr p)) w in
        rw clear (
          settle-Reports n first.0 first.1 (attempts wr p n (wait first.1))
            (attempts-Reports n (wait first.1)))
  ]

  -- The result names the power that was asked for; it is a success with no error, the raw register
  -- value and the writer at the new setpoint, or a failure with an error text and the writer as it
  -- was. The configuration never changes.
  pub write_power_to_modbus-Reports : (w : World) → Reports wr p (write_power_to_modbus wr p w)
  unfolding write_power_to_modbus
  write_power_to_modbus-Reports w = attempts-Reports wr.config.max_retries w
