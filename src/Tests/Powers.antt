-- ===== src/Tests/Powers.antt =====
-- The theorems on src/bms_2030_5_client/power_control.py,
-- src/bms_2030_5_client/modbus/power_writer.py and src/bms_2030_5_client/cli/unlock_production.py
-- at concrete worlds.
use ieee2030_5_cold_client.Prelude.{
  ℕ, ◌+◌, ◌*◌, ◌≡◌, ◌≢◌, ◌↔◌, ◌<◌, refl, String, true, false, none, some, List, [], ◌∷◌, ◌++◌, inl,
  zero, suc, arith, returned, nonempty, str_eq, eq_iff, or_text,
}
use ieee2030_5_cold_client.Prelude.Int.{pos, negsuc}
use ieee2030_5_cold_client.Prelude.Lists.{length}
use Prim.Native.String.{◌++◌ as append}
use ieee2030_5_cold_client.Stop.{is_stopped, trigger}
use ieee2030_5_cold_client.World.{World, Write, triggered, wait, make_call, make_calls}
use ieee2030_5_cold_client.Modbus.{put_register, write_attempts, write_register}
use ieee2030_5_cold_client.Modbus.Retries.{
  IsRetried, write_register_retries, write_register_ignores_stop,
}
use ieee2030_5_cold_client.Pcs.{write_power_to_modbus}
use ieee2030_5_cold_client.World.Sends.{Sends}
use ieee2030_5_cold_client.Pcs.Writes.{write_limit, IsSetpointWrite, write_power_to_modbus-Sends}
use ieee2030_5_cold_client.Pcs.Reports.{Reports, write_power_to_modbus-Reports}
use ieee2030_5_cold_client.Pcs.Retries.{IsQuiet, call, after_rounds, write_power_to_modbus_retries}
use ieee2030_5_cold_client.Power.Limits.{default_limits, post_init, validate}
use ieee2030_5_cold_client.Power.Limits.Range.{IsValid, Allowed, post_init_iff, validate_iff}
use ieee2030_5_cold_client.Power.Unlock.{
  verify_lockfile, create_lockfile, verify_lockfile-create_lockfile_iff,
}
use ieee2030_5_cold_client.Power.Controller.{
  dry_run, PowerControlConfig, SafePowerController, create, set_power_setpoint, disconnect_pcs,
  reconnect_pcs,
}
use ieee2030_5_cold_client.Power.Controller.Safety.{IsAuthorised, retries, set_power_setpoint-Sends}
use ieee2030_5_cold_client.Power.Controller.Modes.{create_production, dry_run_silent}
use ieee2030_5_cold_client.Tests.{world, writer, modbus_client, controller}

write_power_to_modbus-Sends_example :
    Sends
      (IsSetpointWrite writer (pos 500))
      (write_limit writer)
      world
      (write_power_to_modbus writer (pos 500) world).2
write_power_to_modbus-Sends_example = write_power_to_modbus-Sends writer (pos 500) world

write_power_to_modbus-Reports_example :
    Reports writer (pos 500) (write_power_to_modbus writer (pos 500) world)
write_power_to_modbus-Reports_example = write_power_to_modbus-Reports writer (pos 500) world

world-IsQuiet : IsQuiet world
unfolding is_stopped
world-IsQuiet = record { calls = λ k. refl; clear = refl }

no_round_before :
    (j : ℕ)
    → j < 0
    → (call writer (pos 500) (after_rounds writer (pos 500) j world)).0 ≢ returned true
no_round_before j lt e = absurd (omega (arith, lt))

confirmed : (call writer (pos 500) world).0 ≡ returned true
unfolding write_register write_attempts put_register wait
confirmed = refl

write_power_to_modbus_retries_example :
    ((write_power_to_modbus writer (pos 500) world).0.success ≡ true)
    × ((write_power_to_modbus writer (pos 500) world).2.writes
        ≡ (call writer (pos 500) world).1.writes)
write_power_to_modbus_retries_example =
    write_power_to_modbus_retries writer (pos 500) 0 world world-IsQuiet (omega arith)
      no_round_before confirmed

first-IsRetried : (j : ℕ) → j < 1 → IsRetried (world.schedule (world.at + 1 + 2 * j)).wrote
first-IsRetried zero lt = inl refl
first-IsRetried (suc j) lt = absurd (omega (arith, lt))

write_register_retries_example :
    ((write_register modbus_client 7852 500 world).0 ≡ returned true)
    × (length (write_register modbus_client 7852 500 world).1.writes ≡ 2)
unfolding wait
write_register_retries_example =
    write_register_retries modbus_client 7852 500 1 world refl refl (omega arith) first-IsRetried
      refl

-- Each await sees the stop called.
abbrev alarmed : World
alarmed = record world {
  schedule = λ k. record (world.schedule k) { calls = triggered "door open" ∷ [] };
}

alarm_holds :
    is_stopped (wait (put_register 7852 500 (is_stopped alarmed.stop) (wait alarmed))).stop ≡ true
unfolding wait put_register make_calls make_call is_stopped trigger
alarm_holds = refl

abbrev write_under_stop : Write
write_under_stop = record {
  address = 7852;
  value = 500;
  asked_while_stopped = is_stopped alarmed.stop;
  while_stopped = true;
}

write_register_ignores_stop_example :
    (later : List Write) × (first : Write) × ((write_register modbus_client 7852 500
        alarmed).1.writes
      ≡ later ++ write_under_stop ∷ first ∷ [])
unfolding wait
write_register_ignores_stop_example =
    write_register_ignores_stop modbus_client 7852 500 alarmed refl refl (omega arith) (inl refl)
      alarm_holds

default_limits-IsValid : IsValid default_limits
unfolding post_init
default_limits-IsValid = (post_init_iff default_limits).0 refl

validate_iff_example :
    (validate default_limits (negsuc 4999) none ≡ []) ↔ Allowed default_limits (negsuc 4999) none
validate_iff_example = validate_iff default_limits (negsuc 4999) none default_limits-IsValid

abbrev bess1 : String
bess1 = "bess1"

abbrev bess2 : String
bess2 = "bess2"

-- A stand-in for the HMAC.
abbrev joined : String → String → String → String
joined token hostname timestamp = append token (append hostname timestamp)

verify_lockfile-create_lockfile_iff_example :
    (verify_lockfile joined str_eq bess1 "token" (create_lockfile joined str_eq bess1 "token" "now")
      ≡ returned true)
    ↔ ((bess1 ≡ bess1) × (joined "token" bess1 "now" ≡ joined "token" bess1 "now"))
verify_lockfile-create_lockfile_iff_example =
    verify_lockfile-create_lockfile_iff joined str_eq eq_iff bess1 "token" "now" bess1 "token" refl
      refl refl

set_power_setpoint-Sends_example :
    Sends
      (IsAuthorised controller (pos 500))
      (retries controller.pcs_writer)
      world
      (set_power_setpoint (pos 500) controller world).2
set_power_setpoint-Sends_example = set_power_setpoint-Sends controller (pos 500) world

abbrev live_config : PowerControlConfig
live_config = record {
  mode = "dry_run";
  limits = default_limits;
  runtime_mode = some "production";
  safety_token = some "token";
}

abbrev fresh : SafePowerController
fresh = record controller { pcs_writer = none }

created : create live_config none "" (λ token. returned true) ≡ returned fresh
unfolding create
created = refl

create_production_example :
    (nonempty (or_text live_config.safety_token "") ≡ true) × (returned true ≡ returned true)
create_production_example =
    create_production live_config none "" (λ token. returned true) fresh created refl

abbrev rehearsal : SafePowerController
rehearsal = record controller { control_mode = dry_run }

dry_run_silent_example :
    ((set_power_setpoint (pos 500) rehearsal world).1 ≡ rehearsal)
    × ((set_power_setpoint (pos 500) rehearsal world).2 ≡ world)
    × ((disconnect_pcs rehearsal world).1 ≡ rehearsal)
    × ((disconnect_pcs rehearsal world).2 ≡ world)
    × ((reconnect_pcs rehearsal world).1 ≡ rehearsal)
    × ((reconnect_pcs rehearsal world).2 ≡ world)
    × ((set_power_setpoint (pos 500) rehearsal world).0.executed ≡ false)
    × ((disconnect_pcs rehearsal world).0.executed ≡ false)
    × ((reconnect_pcs rehearsal world).0.executed ≡ false)
dry_run_silent_example = dry_run_silent (pos 500) rehearsal world refl

zero_allowed : validate default_limits (pos 500) none ≡ []
unfolding validate
zero_allowed = refl
