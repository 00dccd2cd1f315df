-- ===== src/Tests/Events.antt =====
-- The theorems on src/bms_2030_5_client/dera/handler.py at concrete events.
use ieee2030_5_cold_client.Prelude.{◌+◌, ◌≡◌, ◌≢◌, refl, Bool, false, some, arith}
use ieee2030_5_cold_client.Pcs.{pcs_on}
use ieee2030_5_cold_client.World.Sends.{Sends}
use ieee2030_5_cold_client.Modbus.{write_register}
use ieee2030_5_cold_client.Modbus.Attempts.{IsAsked}
use ieee2030_5_cold_client.Power.Controller.Safety.{pulses, retries}
use ieee2030_5_cold_client.Handler.{
  lift_stop, DerControlEvent, Handler, execute_control, handle_control,
}
use ieee2030_5_cold_client.Handler.Sending.{
  IsCaused, execute_control-Sends, execute_control_reconnects,
}
use ieee2030_5_cold_client.Handler.Tracking.{IsBounded, IsHandled, handle_control-IsHandled}
use ieee2030_5_cold_client.Tests.{
  world, stopped_world, writer, modbus_client, controller, control, connect_control, handler_of,
}

abbrev handler : Handler
handler = handler_of control

not_the_active_one : handler.active_event ≢ some 0
not_the_active_one e = absurd (ground (arith, e))

execute_control-Sends_example :
    Sends
      (IsCaused controller control)
      (pulses controller.pcs_writer + retries controller.pcs_writer)
      world
      (execute_control 0 handler world).1
execute_control-Sends_example = execute_control-Sends 0 handler world

execute_control_reconnects_example :
    let w₀ = lift_stop "opModConnect=true" stopped_world in
    ((execute_control 0 (handler_of connect_control) stopped_world).1.writes
      ≡ (write_register modbus_client pcs_on 1 w₀).1.writes)
    × Sends
        (IsAsked pcs_on 1 false)
        3
        stopped_world
        (execute_control 0 (handler_of connect_control) stopped_world).1
execute_control_reconnects_example =
    execute_control_reconnects 0 (handler_of connect_control) stopped_world writer refl refl refl

handler-IsBounded : IsBounded handler
handler-IsBounded a e = ground (arith, e)

handle_control-IsHandled_example : IsHandled (handle_control control handler world)
handle_control-IsHandled_example = handle_control-IsHandled control handler world handler-IsBounded

abbrev never : DerControlEvent → DerControlEvent → Bool
never a b = false
