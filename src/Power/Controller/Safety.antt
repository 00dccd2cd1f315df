-- ===== src/Power/Controller/Safety.antt =====
-- Which register writes the commands of `SafePowerController` in
-- src/bms_2030_5_client/power_control.py can cause.
use ieee2030_5_cold_client.Prelude.{
  ℕ, ◌≡◌, refl, option_intro, Option, none, some, List, [], ◌∷◌, Bool-cases, inl, inr,
}
use ieee2030_5_cold_client.Prelude.Int.{ℤ, pos}
use ieee2030_5_cold_client.Stop.{is_stopped}
use ieee2030_5_cold_client.World.{World, Write}
use ieee2030_5_cold_client.World.Sends.{Sends, Sends-none, Sends-map}
use ieee2030_5_cold_client.Modbus.{write_register}
use ieee2030_5_cold_client.Modbus.Attempts.{IsAsked, write_register-Sends}
use ieee2030_5_cold_client.Pcs
use ieee2030_5_cold_client.Pcs.{
  scale_error, pcs_on, ModbusPowerWriter, PowerWriteResult, write_power_to_modbus,
}
use ieee2030_5_cold_client.Pcs.Writes.{IsSetpointWrite, write_limit, write_power_to_modbus-Sends}
use ieee2030_5_cold_client.Power.Limits.{Fault, validate}
use ieee2030_5_cold_client.Power.Controller.{
  ControlMode, dry_run, production, PowerControlResult, SafePowerController, send, perform, checked,
  set_power_setpoint, disconnect, disconnect_pcs, reconnect, reconnect_pcs,
}

abbrev pub retries : Option ModbusPowerWriter → ℕ
retries none = 0
retries (some wr) = write_limit wr

module _ (c : SafePowerController) (p : ℤ) where
  -- A write by the controller's own writer in production mode, of the setpoint `p`, which the limits
  -- and the state of charge allow, asked for while the emergency stop did not hold.
  abbrev pub IsAuthorised : Write → Type 0
  IsAuthorised e =
      (wr : ModbusPowerWriter) × (c.pcs_writer ≡ some wr)
      × (c.control_mode ≡ production)
      × (validate c.limits p c.current_soc ≡ [])
      × IsSetpointWrite wr p e

  module _ (valid : validate c.limits p c.current_soc ≡ []) (live : c.control_mode ≡ production)
      (command : ModbusPowerWriter → World → PowerWriteResult × ModbusPowerWriter × World)
      (sends : (wr : ModbusPowerWriter) (w : World)
        → Sends (IsSetpointWrite wr p) (write_limit wr) w (command wr w).2) where
    send-Sends :
        (o : Option ModbusPowerWriter) (w : World)
        → c.pcs_writer ≡ o
        → Sends IsAuthorised (retries o) w (send o command c p w).2
    unfolding send
    send-Sends none w e = Sends-none _ 0 w w refl
    send-Sends (some wr) w e = elim (Bool-cases (is_stopped w.stop)) [
      | inl stopped ↦ rw stopped (Sends-none _ (write_limit wr) w w refl)
      | inr clear ↦ rw clear (
          option_intro
            (λ (r : PowerControlResult × SafePowerController × World).
              Sends IsAuthorised (write_limit wr) w r.2)
            (scale_error wr p)
            (Sends-map (IsSetpointWrite wr p) IsAuthorised (write_limit wr) w (command wr w).2
              (λ x h. (wr, e, live, valid, h)) (sends wr w))
            (λ t. Sends-none _ (write_limit wr) w w refl))
    ]

  perform-Sends :
      (m : ControlMode) (w : World)
      → c.control_mode ≡ m
      → validate c.limits p c.current_soc ≡ []
      → Sends IsAuthorised (retries c.pcs_writer) w (perform m c p w).2
  unfolding perform
  perform-Sends dry_run w e valid = Sends-none _ (retries c.pcs_writer) w w refl
  perform-Sends production w e valid =
      send-Sends valid e (λ wr. write_power_to_modbus wr p) (λ wr. write_power_to_modbus-Sends wr p)
        c.pcs_writer w refl

  checked-Sends :
      (fs : List Fault) (w : World)
      → validate c.limits p c.current_soc ≡ fs
      → Sends IsAuthorised (retries c.pcs_writer) w (checked fs c p w).2
  unfolding checked
  checked-Sends [] w e = perform-Sends c.control_mode w refl e
  checked-Sends (f ∷ fs) w e = Sends-none _ (retries c.pcs_writer) w w refl

  -- Whatever the device replies and the other tasks call, every register write that
  -- `set_power_setpoint` causes is authorised: production mode, the controller's own writer, a
  -- request that passes the validation, the configured register with the scaled setpoint, and no
  -- emergency stop at the moment when the Modbus client was asked for the write. There are at most
  -- `max_retries` times `read_max_retries` of them.
  pub set_power_setpoint-Sends :
      (w : World) → Sends IsAuthorised (retries c.pcs_writer) w (set_power_setpoint p c w).2
  unfolding set_power_setpoint
  set_power_setpoint-Sends w = elim (Bool-cases (is_stopped w.stop)) [
    | inl stopped ↦ rw stopped (Sends-none _ (retries c.pcs_writer) w w refl)
    | inr clear ↦ rw clear (checked-Sends (validate c.limits p c.current_soc) w refl)
  ]

Pcs-disconnect-Sends :
    (wr : ModbusPowerWriter) (w : World)
    → Sends (IsSetpointWrite wr (pos 0)) (write_limit wr) w (Pcs.disconnect wr w).2
unfolding Pcs.disconnect
Pcs-disconnect-Sends wr w = write_power_to_modbus-Sends wr (pos 0) w

validate_zero : (c : SafePowerController) → validate c.limits (pos 0) c.current_soc ≡ []
unfolding validate
validate_zero c = refl

-- Whatever the device replies and the other tasks call, every register write that `disconnect_pcs`
-- causes is authorised for the setpoint 0: production mode, the controller's own writer, the
-- configured register with the word of 0, and no emergency stop at the moment when the Modbus client
-- was asked for the write. There are at most `max_retries` times `read_max_retries` of them.
pub disconnect_pcs-Sends :
    (c : SafePowerController) (w : World)
    → Sends (IsAuthorised c (pos 0)) (retries c.pcs_writer) w (disconnect_pcs c w).2
unfolding disconnect_pcs disconnect
disconnect_pcs-Sends c w = elim (Bool-cases (is_stopped w.stop)) [
  | inl stopped ↦ rw stopped (Sends-none _ (retries c.pcs_writer) w w refl)
  | inr clear ↦ rw clear (by_mode c.control_mode refl)
]
  where
    by_mode :
        (m : ControlMode)
        → c.control_mode ≡ m
        → Sends (IsAuthorised c (pos 0)) (retries c.pcs_writer) w (disconnect m c w).2
    by_mode dry_run e = Sends-none _ (retries c.pcs_writer) w w refl
    by_mode production e =
        send-Sends c (pos 0) (validate_zero c) e Pcs.disconnect Pcs-disconnect-Sends c.pcs_writer w
          refl

-- The most register writes of one pulse.
abbrev pub pulses : Option ModbusPowerWriter → ℕ
pulses none = 0
pulses (some wr) = wr.modbus.read_max_retries

-- The pulse that switches the system on.
abbrev pub IsPulse : World → Write → Type 0
IsPulse w = IsAsked pcs_on 1 (is_stopped w.stop)

Pcs-reconnect-Sends :
    (wr : ModbusPowerWriter) (w : World)
    → Sends (IsPulse w) wr.modbus.read_max_retries w (Pcs.reconnect wr w).2
unfolding Pcs.reconnect
Pcs-reconnect-Sends wr w = write_register-Sends wr.modbus pcs_on 1 w

-- The only register writes that `reconnect_pcs` causes are pulses of PCS_ON, at most
-- `read_max_retries`. They are made whether the emergency stop holds or not.
pub reconnect_pcs-Sends :
    (c : SafePowerController) (w : World)
    → Sends (IsPulse w) (pulses c.pcs_writer) w (reconnect_pcs c w).2
unfolding reconnect_pcs
reconnect_pcs-Sends c w = by_mode c.control_mode c.pcs_writer
  where
    by_mode :
        (m : ControlMode) (o : Option ModbusPowerWriter)
        → Sends (IsPulse w) (pulses o) w (reconnect m o c w).2
    by_mode dry_run o = Sends-none _ (pulses o) w w refl
    by_mode production none = Sends-none _ 0 w w refl
    by_mode production (some wr) = Pcs-reconnect-Sends wr w

-- In production mode with a writer, `reconnect_pcs` sends what `write_register` sends.
pub world-reconnect_pcs :
    (c : SafePowerController) (w : World) (wr : ModbusPowerWriter)
    → c.control_mode ≡ production
    → c.pcs_writer ≡ some wr
    → (reconnect_pcs c w).2 ≡ (write_register wr.modbus pcs_on 1 w).1
unfolding reconnect_pcs Pcs.reconnect
world-reconnect_pcs c w wr m o = rw (m, o) refl
