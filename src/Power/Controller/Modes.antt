-- ===== src/Power/Controller/Modes.antt =====
-- What the mode of `SafePowerController` in src/bms_2030_5_client/power_control.py decides, and how
-- its results are to be read.
use ieee2030_5_cold_client.Prelude.{
  String, ◌≡◌, ◌⊎◌, Bool, true, false, Option, none, some, [], arith, Outcome, returned, nonempty,
  or_text, eq_iff,
}
use ieee2030_5_cold_client.Prelude.Int.{ℤ}
use ieee2030_5_cold_client.Stop.{is_stopped}
use ieee2030_5_cold_client.World.{World}
use ieee2030_5_cold_client.Pcs.{ModbusPowerWriter, write_power_to_modbus}
use ieee2030_5_cold_client.Power.Limits.{validate}
use ieee2030_5_cold_client.Power.Controller.{
  dry_run, production, PowerControlConfig, SafePowerController, success, create, set_power_setpoint,
  disconnect_pcs, reconnect_pcs,
}

-- A controller in production mode exists only behind a token that is not empty, from the
-- configuration or else the environment, and that `verify_lockfile` accepted.
pub create_production :
    (config : PowerControlConfig) (writer : Option ModbusPowerWriter) (env_token : String)
    (verify_lockfile : String → Outcome Bool) (c : SafePowerController)
    → create config writer env_token verify_lockfile ≡ returned c
    → c.control_mode ≡ production
    → (nonempty (or_text config.safety_token env_token) ≡ true)
      × (verify_lockfile (or_text config.safety_token env_token) ≡ returned true)
unfolding create
create_production config writer env_token verify_lockfile c h m = ground arith

-- In dry-run mode `set_power_setpoint`, `disconnect_pcs` and `reconnect_pcs` change neither the world
-- nor the controller, nor claim to have executed.
pub dry_run_silent :
    (p : ℤ) (c : SafePowerController) (w : World)
    → c.control_mode ≡ dry_run
    → ((set_power_setpoint p c w).1 ≡ c)
      × ((set_power_setpoint p c w).2 ≡ w)
      × ((disconnect_pcs c w).1 ≡ c)
      × ((disconnect_pcs c w).2 ≡ w)
      × ((reconnect_pcs c w).1 ≡ c)
      × ((reconnect_pcs c w).2 ≡ w)
      × ((set_power_setpoint p c w).0.executed ≡ false)
      × ((disconnect_pcs c w).0.executed ≡ false)
      × ((reconnect_pcs c w).0.executed ≡ false)
unfolding set_power_setpoint disconnect_pcs reconnect_pcs
dry_run_silent p c w m = ground arith

-- In production mode with a writer, a result of `set_power_setpoint` without errors means that the
-- setpoint was written, or that the write failed with an error whose text is empty; a result that
-- claims to be executed has no errors.
pub set_power_setpoint_success :
    (p : ℤ) (c : SafePowerController) (w : World) (wr : ModbusPowerWriter)
    → c.control_mode ≡ production
    → c.pcs_writer ≡ some wr
    → (success (set_power_setpoint p c w).0 ≡ true
        → ((write_power_to_modbus wr p w).0.success ≡ true)
          ⊎ (((write_power_to_modbus wr p w).0.success ≡ false)
              × (or_text (write_power_to_modbus wr p w).0.error_message "" ≡ "")))
      × ((set_power_setpoint p c w).0.executed ≡ true → success (set_power_setpoint p c w).0 ≡ true)
unfolding set_power_setpoint success
set_power_setpoint_success p c w wr m o = (
  λ h. ground (arith, eq_iff (or_text (write_power_to_modbus wr p w).0.error_message "") ""),
  λ h. ground arith,
)

-- In production mode without a writer, every request that passes the validation while the stop does
-- not hold ends without an error, though nothing was sent: the world is as it was and the result
-- is neither executed nor simulated.
pub set_power_setpoint_no_writer :
    (p : ℤ) (c : SafePowerController) (w : World)
    → c.control_mode ≡ production
    → c.pcs_writer ≡ none
    → is_stopped w.stop ≡ false
    → validate c.limits p c.current_soc ≡ []
    → (success (set_power_setpoint p c w).0 ≡ true)
      × ((set_power_setpoint p c w).0.executed ≡ false)
      × ((set_power_setpoint p c w).0.simulated ≡ false)
      × ((set_power_setpoint p c w).2 ≡ w)
unfolding set_power_setpoint success
set_power_setpoint_no_writer p c w m o clear valid = ground arith
