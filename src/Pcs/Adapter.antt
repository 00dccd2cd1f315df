-- ===== src/Pcs/Adapter.antt =====
-- `stop` and `de_energize` of `ModbusPowerWriter`, and `PCSPowerAdapter`, of
-- src/bms_2030_5_client/modbus/power_writer.py.
use ieee2030_5_cold_client.Prelude.{◌≡◌, refl, none, some, option_intro_eq, or_else, sym, ap, ◌∙◌}
use ieee2030_5_cold_client.Prelude.Int.{ℤ, pos}
use ieee2030_5_cold_client.World.{World}
use ieee2030_5_cold_client.Models.{DerControl, get_power_setpoint_w}
use ieee2030_5_cold_client.World.Sends.{Sends, Sends-none}
use ieee2030_5_cold_client.Pcs.Writes.{IsSetpointWrite, write_limit, write_power_to_modbus-Sends}
use ieee2030_5_cold_client.Pcs.{ModbusPowerWriter, PowerWriteResult, failure, set_power}

unfoldable pub stop : ModbusPowerWriter → World → PowerWriteResult × ModbusPowerWriter × World
stop wr w = set_power wr (pos 0) w

unfoldable pub de_energize :
    ModbusPowerWriter → World → PowerWriteResult × ModbusPowerWriter × World
de_energize wr w = set_power wr (pos 0) w

unfoldable pub apply_der_control :
    DerControl → ModbusPowerWriter → World → PowerWriteResult × ModbusPowerWriter × World
apply_der_control c wr w = elim (get_power_setpoint_w c) [
  | none ↦ (failure (pos 0) "No power setpoint in DERControl", wr, w)
  | some power_w ↦ set_power wr power_w w
]

-- `percent_of` is `int(max_power_w * percent / 100)` in the arithmetic of floats.
unfoldable pub apply_power_percent :
    (percent_of : ℤ → ℤ)
    → ℤ
    → ModbusPowerWriter
    → World
    → PowerWriteResult × ModbusPowerWriter × World
apply_power_percent percent_of max_power_w wr w = set_power wr (percent_of max_power_w) w

-- The adapter checks no limit and no state of charge of its own, but the writer keeps its bounds: at
-- most `max_retries` times `read_max_retries` writes of the setpoint of the control, none asked for
-- while the emergency stop holds, and none at all where the control has no setpoint.
pub apply_der_control-Sends :
    (c : DerControl) (wr : ModbusPowerWriter) (w : World) (p : ℤ)
    → or_else (get_power_setpoint_w c) p ≡ p
    → Sends (IsSetpointWrite wr p) (write_limit wr) w (apply_der_control c wr w).2
unfolding apply_der_control set_power
apply_der_control-Sends c wr w p h =
    option_intro_eq
      (λ (r : PowerWriteResult × ModbusPowerWriter × World).
        Sends (IsSetpointWrite wr p) (write_limit wr) w r.2)
      (get_power_setpoint_w c) {n = (failure (pos 0) "No power setpoint in DERControl", wr, w)}
      {f = λ power_w. set_power wr power_w w}
      (λ e. Sends-none (IsSetpointWrite wr p) (write_limit wr) w w refl)
      (λ q e. rw (same q e) (write_power_to_modbus-Sends wr p w))
  where
    same : (q : ℤ) → get_power_setpoint_w c ≡ some q → q ≡ p
    same q e = sym (ap (λ o. or_else o p) e) ∙ h
