-- ===== src/Pcs.antt =====
-- src/bms_2030_5_client/modbus/power_writer.py: `ModbusPowerWriter` writes power setpoints to the
-- power conversion system. Audit log lines and display timestamps are not kept, and the length of a
-- sleep is the schedule's. `int(x * factor)` and `int(x / factor)` are floating point: the
-- configured factor is taken as the functions on integers that it makes. For a factor that is
-- infinite or NaN the first one raises, before `write_power_to_modbus` does anything: the
-- power controller looks at `scale_error` first, and the functions here that write a power are for
-- one that is scaled.
pub mod Words
pub mod Writes
pub mod Reports
pub mod Retries
pub mod Adapter
use ieee2030_5_cold_client.Prelude.{
  ℕ, zero, suc, ◌+◌, ◌-◌, ◌%◌, String, Bool, true, false, Option, none, some, List, [], ◌∷◌,
  if◌then◌else◌, Outcome, returned, raised,
}
use ieee2030_5_cold_client.Prelude.Int.{ℤ, pos, negsuc}
use ieee2030_5_cold_client.Stop.{EmergencyStop, is_stopped, trigger}
use ieee2030_5_cold_client.World.{World, wait}
use ieee2030_5_cold_client.Modbus.{ModbusBmsClient, write_register, read_registers}
use Prim.Native.String.{◌++◌}
use Words.{low_word}

abbrev pub pcs_on : ℕ
pcs_on = 7850

abbrev pub power_setpoint : ℕ
power_setpoint = 7852

-- What a scale factor does: what `int(x * factor)` raises, where it does, its value elsewhere, and
-- `int(x / factor)`, where that raises nothing.
pub record Scale : Type 0 where
  pub fails : ℤ → Option String
  pub times : ℤ → ℤ
  pub over : ℤ → Option ℤ

pub record ModbusPowerWriterConfig : Type 0 where
  pub power_setpoint_address : ℕ
  pub power_scale_factor : Scale
  pub verify_after_write : Bool
  pub max_retries : ℕ

pub record ModbusPowerWriter : Type 0 where
  pub modbus : ModbusBmsClient
  pub config : ModbusPowerWriterConfig
  pub current_power_w : ℤ
  pub last_write_time : Option ℕ

pub record PowerWriteResult : Type 0 where
  pub success : Bool
  pub requested_power_w : ℤ
  pub actual_power_w : Option ℤ
  pub error_message : Option String
  pub register_address : Option ℕ
  pub raw_value : Option ℤ

abbrev pub failure : ℤ → String → PowerWriteResult
failure power_w message = record {
  success = false;
  requested_power_w = power_w;
  actual_power_w = none;
  error_message = some message;
  register_address = none;
  raw_value = none;
}

pub power_to_register_value : ModbusPowerWriter → ℤ → ℤ
power_to_register_value wr power_w = wr.config.power_scale_factor.times power_w

-- What `_power_to_register_value` raises.
abbrev pub scale_error : ModbusPowerWriter → ℤ → Option String
scale_error wr power_w = wr.config.power_scale_factor.fails power_w

pub register_value_to_power : ModbusPowerWriter → ℕ → Option ℤ
register_value_to_power wr value = wr.config.power_scale_factor.over (pos value)

-- `if registers: return ... registers[0]`; an exception is logged and gives None.
actual_power : ModbusPowerWriter → Outcome (List ℕ) → Option ℤ
actual_power wr (returned []) = none
actual_power wr (returned (v ∷ vs)) = register_value_to_power wr v
actual_power wr (raised e) = none

read_actual_power : ModbusPowerWriter → World → Option ℤ × World
unfolding actual_power
read_actual_power wr w = let (r, w') = read_registers wr.modbus w in (actual_power wr r, w')

-- The read-back after a write that went through, behind its sleep.
verify : ModbusPowerWriter → World → Option ℤ × World
unfolding read_actual_power
verify wr w = if wr.config.verify_after_write then read_actual_power wr (wait w) else (none, w)

pub written : ModbusPowerWriter → ℤ → World → PowerWriteResult × ModbusPowerWriter × World
unfolding verify power_to_register_value
written wr power_w w =
    let (actual, w') = verify wr w in
    (
      record {
        success = true;
        requested_power_w = power_w;
        actual_power_w = actual;
        error_message = none;
        register_address = some wr.config.power_setpoint_address;
        raw_value = some (power_to_register_value wr power_w);
      },
      record wr { current_power_w = power_w; last_write_time = some w'.now },
      w',
    )

-- What follows the await of `write_register`, with `left` attempts still to come: the rest of the
-- loop is `rest`. A reply of False is raised as an exception and caught below with the others.
settle :
    ModbusPowerWriter
    → ℤ
    → (left : ℕ) → Outcome Bool
    → World
    → (rest : PowerWriteResult × ModbusPowerWriter × World)
    → PowerWriteResult × ModbusPowerWriter × World
unfolding written
settle wr power_w left (returned true) w rest = written wr power_w w
settle wr power_w zero (returned false) w rest = (failure power_w "Modbus write failed", wr, w)
settle wr power_w (suc left) (returned false) w rest = rest
settle wr power_w zero (raised e) w rest = (failure power_w e, wr, w)
settle wr power_w (suc left) (raised e) w rest = rest

-- The retry loop, on the attempts that are left.
attempts : ModbusPowerWriter → ℤ → ℕ → World → PowerWriteResult × ModbusPowerWriter × World
unfolding settle power_to_register_value
attempts wr power_w zero w = (failure power_w "Max retries exceeded", wr, w)
attempts wr power_w (suc left) w =
    let value = low_word (power_to_register_value wr power_w) in
    let (sent, w') = write_register wr.modbus wr.config.power_setpoint_address value w in
    let rest = attempts wr power_w left (wait w') in
    if is_stopped w.stop
    then (failure power_w "Aborted: emergency stop active", wr, w)
    else settle wr power_w left sent w' rest

unfoldable pub write_power_to_modbus :
    ModbusPowerWriter → ℤ → World → PowerWriteResult × ModbusPowerWriter × World
unfolding attempts
write_power_to_modbus wr power_w w = attempts wr power_w wr.config.max_retries w

unfoldable pub set_power :
    ModbusPowerWriter → ℤ → World → PowerWriteResult × ModbusPowerWriter × World
set_power wr power_w w = write_power_to_modbus wr power_w w

unfoldable pub disconnect : ModbusPowerWriter → World → PowerWriteResult × ModbusPowerWriter × World
unfolding set_power
disconnect wr w = set_power wr (pos 0) w

pulse : Outcome Bool → PowerWriteResult
pulse (returned true) = record {
  success = true;
  requested_power_w = pos 0;
  actual_power_w = none;
  error_message = none;
  register_address = none;
  raw_value = none;
}
pulse (returned false) = failure (pos 0) "Failed to pulse PCS_ON"
pulse (raised e) = failure (pos 0) ("PCS_ON write error: " ++ e)

unfoldable pub reconnect : ModbusPowerWriter → World → PowerWriteResult × ModbusPowerWriter × World
unfolding pulse
reconnect wr w = let (sent, w') = write_register wr.modbus pcs_on 1 w in (pulse sent, wr, w')

pub emergency_stop :
    String → ModbusPowerWriter → World → PowerWriteResult × ModbusPowerWriter × World
emergency_stop reason wr w = (
  record (failure (pos 0) ("Emergency stop: " ++ reason)) { success = true },
  record wr { current_power_w = pos 0 },
  record w { stop = trigger reason w.now w.stop },
)
