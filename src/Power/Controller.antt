-- ===== src/Power/Controller.antt =====
-- `SafePowerController` of src/bms_2030_5_client/power_control.py. The request id, the timestamp and the
-- message of a result, and the audit log, are for people to read, and are not kept.
pub mod Safety
pub mod Modes
use ieee2030_5_cold_client.Prelude.{
  String, Bool, true, false, Option, none, some, List, [], ◌∷◌, ◌&&◌, not, if◌then◌else◌, Outcome,
  returned, raised, nonempty, or_text, str_eq,
}
use ieee2030_5_cold_client.Prelude.Int.{ℤ, pos}
use ieee2030_5_cold_client.Stop.{is_stopped}
use ieee2030_5_cold_client.World.{World}
use ieee2030_5_cold_client.Pcs
use ieee2030_5_cold_client.Pcs.{
  scale_error, ModbusPowerWriter, PowerWriteResult, write_power_to_modbus,
}
use ieee2030_5_cold_client.Power.Limits.{
  PowerLimits, Fault, emergency_stop_active, message, validate,
}

pub data ControlMode : Type 0 where
  dry_run production : ControlMode

pub record PowerControlConfig : Type 0 where
  pub mode : String
  pub limits : PowerLimits
  -- the attributes `_runtime_mode` and `_safety_token`, which other modules may set
  pub runtime_mode : Option String
  pub safety_token : Option String

pub record PowerControlResult : Type 0 where
  pub mode : ControlMode
  pub requested_power_w : ℤ
  pub executed : Bool
  pub simulated : Bool
  pub errors : List Fault

-- `len(self.errors) == 0`.
unfoldable pub success : PowerControlResult → Bool
success r = elim r.errors [ [] ↦ true | _ ∷ _ ↦ false ]

pub record SafePowerController : Type 0 where
  pub limits : PowerLimits
  pub current_power_w : ℤ
  pub current_soc : Option ℤ
  pub pcs_writer : Option ModbusPowerWriter
  pub control_mode : ControlMode

unfoldable pub resolve_control_mode : PowerControlConfig → ControlMode
resolve_control_mode config =
    if str_eq (or_text config.runtime_mode config.mode) "production" then production else dry_run

-- `_verify_production_authorization`: the token of the configuration or else of the environment.
verify_production_authorization :
    PowerControlConfig → String → (String → Outcome Bool) → Outcome (Unit {0})
verify_production_authorization config env_token verify_lockfile =
    let token = or_text config.safety_token env_token in
    if nonempty token
    then elim (verify_lockfile token) [
      | returned true ↦ returned tt
      | returned false ↦
          raised
            "Production mode requires CLI unlock. Run: bms-unlock-production --config config/runtime.yaml"
      | raised e ↦ raised e
    ]
    else raised
        "Production mode requires safety_token in runtime.yaml (power_control.production_auth.safety_token)"

unfoldable pub create :
    PowerControlConfig
    → Option ModbusPowerWriter
    → String
    → (String → Outcome Bool)
    → Outcome SafePowerController
unfolding resolve_control_mode verify_production_authorization
create config pcs_writer env_token verify_lockfile =
    let mode = resolve_control_mode config in
    let c : SafePowerController = record {
      limits = config.limits;
      current_power_w = pos 0;
      current_soc = none;
      pcs_writer = pcs_writer;
      control_mode = mode;
    } in
    elim mode [
      | dry_run ↦ returned c
      | production ↦ elim (verify_production_authorization config env_token verify_lockfile) [
        | returned u ↦ returned c
        | raised e ↦ raised e
      ]
    ]

pub set_pcs_writer : Option ModbusPowerWriter → SafePowerController → SafePowerController
set_pcs_writer writer c = record c { pcs_writer = writer }

pub update_current_state : ℤ → Option ℤ → SafePowerController → SafePowerController
update_current_state current_power_w current_soc c = record c {
  current_power_w = current_power_w;
  current_soc = current_soc;
}

abbrev refused : SafePowerController → ℤ → List Fault → PowerControlResult
refused c power_w errors = record {
  mode = c.control_mode;
  requested_power_w = power_w;
  executed = false;
  simulated = false;
  errors = errors;
}

abbrev simulation : ℤ → PowerControlResult
simulation power_w = record {
  mode = dry_run;
  requested_power_w = power_w;
  executed = false;
  simulated = true;
  errors = [];
}

-- `[error_message] if (error_message and not executed) else []`.
write_errors : PowerWriteResult → List Fault
write_errors r = elim r.error_message [
  | none ↦ []
  | some e ↦ if nonempty e && not r.success then message e ∷ [] else []
]

-- The result of a write, and the controller with its writer as the write left it. The writer catches
-- every exception of the Modbus client itself, so that the `except` around its call is only taken
-- for a scale factor that raises.
conclude :
    SafePowerController
    → ℤ
    → PowerWriteResult × ModbusPowerWriter × World
    → PowerControlResult × SafePowerController × World
unfolding write_errors
conclude c power_w (r, wr, w) = (
  record {
    mode = production;
    requested_power_w = power_w;
    executed = r.success;
    simulated = false;
    errors = write_errors r;
  },
  record c { pcs_writer = some wr },
  w,
)

abbrev write_exception : SafePowerController → ℤ → String → PowerControlResult
write_exception c power_w e = record (refused c power_w (message e ∷ [])) { mode = production }

abbrev no_writer :
    SafePowerController → ℤ → World → PowerControlResult × SafePowerController × World
no_writer c power_w w = (record (refused c power_w []) { mode = production }, c, w)

-- The production branch of `set_power_setpoint` and `disconnect_pcs`, with its second look at the stop.
send :
    Option ModbusPowerWriter
    → (ModbusPowerWriter → World → PowerWriteResult × ModbusPowerWriter × World)
    → SafePowerController
    → ℤ
    → World
    → PowerControlResult × SafePowerController × World
unfolding conclude
send none command c power_w w = no_writer c power_w w
send (some wr) command c power_w w =
    if is_stopped w.stop
    then (refused c power_w (emergency_stop_active ∷ []), c, w)
    else elim (scale_error wr power_w) [
      | some e ↦ (write_exception c power_w e, c, w)
      | none ↦ conclude c power_w (command wr w)
    ]

-- `set_power_setpoint` behind its checks.
perform :
    ControlMode → SafePowerController → ℤ → World → PowerControlResult × SafePowerController × World
unfolding send
perform dry_run c power_w w = (simulation power_w, c, w)
perform production c power_w w =
    send c.pcs_writer (λ wr. write_power_to_modbus wr power_w) c power_w w

-- `set_power_setpoint` behind the emergency stop, with the errors of the validation.
checked :
    List Fault → SafePowerController → ℤ → World → PowerControlResult × SafePowerController × World
unfolding perform
checked [] c power_w w = perform c.control_mode c power_w w
checked (f ∷ fs) c power_w w = (refused c power_w (f ∷ fs), c, w)

unfoldable pub set_power_setpoint :
    ℤ → SafePowerController → World → PowerControlResult × SafePowerController × World
unfolding checked
set_power_setpoint power_w c w =
    if is_stopped w.stop
    then (refused c power_w (emergency_stop_active ∷ []), c, w)
    else checked (validate c.limits power_w c.current_soc) c power_w w

disconnect :
    ControlMode → SafePowerController → World → PowerControlResult × SafePowerController × World
unfolding send
disconnect dry_run c w = (simulation (pos 0), c, w)
disconnect production c w = send c.pcs_writer Pcs.disconnect c (pos 0) w

unfoldable pub disconnect_pcs :
    SafePowerController → World → PowerControlResult × SafePowerController × World
unfolding disconnect
disconnect_pcs c w =
    if is_stopped w.stop
    then (refused c (pos 0) (emergency_stop_active ∷ []), c, w)
    else disconnect c.control_mode c w

-- `reconnect_pcs` does not look at the emergency stop.
reconnect :
    ControlMode
    → Option ModbusPowerWriter
    → SafePowerController
    → World
    → PowerControlResult × SafePowerController × World
unfolding conclude
reconnect dry_run wr c w = (simulation (pos 0), c, w)
reconnect production none c w = no_writer c (pos 0) w
reconnect production (some wr) c w = conclude c (pos 0) (Pcs.reconnect wr w)

unfoldable pub reconnect_pcs :
    SafePowerController → World → PowerControlResult × SafePowerController × World
unfolding reconnect
reconnect_pcs c w = reconnect c.control_mode c.pcs_writer c w
