-- ===== src/Handler/Sending.antt =====
-- The register writes that `_execute_control` of src/bms_2030_5_client/dera/handler.py causes, and
-- what the emergency stop does to it.
use ieee2030_5_cold_client.Prelude.{
  ℕ, ◌+◌, ◌≡◌, ◌⊎◌, inl, inr, refl, sym, ◌∙◌, ap, String, true, false, Option, none, some, arith,
  Bool-cases, if◌then◌else◌,
}
use ieee2030_5_cold_client.Prelude.Int.{ℤ, pos}
use ieee2030_5_cold_client.Stop.{is_stopped, reset_by_server}
use ieee2030_5_cold_client.World.{World, Write}
use ieee2030_5_cold_client.Models.{
  DerControl, op_mod_connect, op_mod_energize, is_true, is_false, get_power_setpoint_w,
}
use ieee2030_5_cold_client.Modbus.{write_register}
use ieee2030_5_cold_client.Modbus.Attempts.{IsAsked, write_register-Sends}
use mathlib.Core.Path.{subst}
use ieee2030_5_cold_client.Pcs.{ModbusPowerWriter, pcs_on}
use ieee2030_5_cold_client.World.Sends.{Sends, Sends-none, Sends-map, Sends-le, Sends-writes}
use ieee2030_5_cold_client.Power.Controller.{
  production, PowerControlResult, SafePowerController, set_power_setpoint, disconnect_pcs,
  reconnect_pcs,
}
use ieee2030_5_cold_client.Power.Controller.Safety.{
  IsAuthorised, IsPulse, retries, pulses, set_power_setpoint-Sends, disconnect_pcs-Sends,
  reconnect_pcs-Sends, world-reconnect_pcs,
}
use ieee2030_5_cold_client.Handler.{
  active, completed, Handler, change, set_status, supersede_and_set_active, command, lift_stop,
  apply_setpoint, dispatch, execute_control,
}
use ieee2030_5_cold_client.Handler.Execution.{writes-supersede, controller-supersede}

-- A write that a control may cause: the pulse of PCS_ON where it asks to connect, or a power that
-- the controller authorises, which is 0 or the control's setpoint. The stop does not hold when the
-- Modbus client is asked for it.
abbrev pub IsCaused : SafePowerController → DerControl → Write → Type 0
IsCaused c control e =
    ((is_true (op_mod_connect control) ≡ true)
      × (e.address ≡ pcs_on)
      × (e.value ≡ 1)
      × (e.asked_while_stopped ≡ false))
    ⊎ ((p : ℤ) × ((p ≡ pos 0) ⊎ (get_power_setpoint_w control ≡ some p)) × IsAuthorised c p e)

lift_stop_clears : (s : String) (w : World) → is_stopped (lift_stop s w).stop ≡ false
unfolding lift_stop is_stopped reset_by_server
lift_stop_clears s w = ground arith

writes-lift_stop : (s : String) (w : World) → (lift_stop s w).writes ≡ w.writes
unfolding lift_stop
writes-lift_stop s w = ground arith

command-Sends :
    (P : Write → Type 0) (n : ℕ)
    (run : SafePowerController → World → PowerControlResult × SafePowerController × World) (r : ℕ)
    (h : Handler) (w : World)
    → Sends P n w (run h.power_controller w).2
    → Sends P n w (command run r h w).1
unfolding command
command-Sends P n run r h w s =
    Sends-writes P n w (run h.power_controller w).2 w _ refl (writes-supersede _ _ _) s

module _ (control : DerControl) (r : ℕ) (h : Handler) (w : World) where
  abbrev c : SafePowerController
  c = h.power_controller

  abbrev limit : ℕ
  limit = pulses c.pcs_writer + retries c.pcs_writer

  zero-Sends :
      (w' : World)
      → Sends (IsAuthorised c (pos 0)) (retries c.pcs_writer) w w'
      → Sends (IsCaused c control) limit w w'
  zero-Sends w' s = Sends-le _ (retries c.pcs_writer) limit w w' (omega arith) (
      Sends-map _ (IsCaused c control) (retries c.pcs_writer) w w' (λ e a. inr (pos 0, inl refl, a))
        s)

  connect-Sends :
      is_true (op_mod_connect control) ≡ true
      → Sends
          (IsCaused c control)
          limit
          w
          (command reconnect_pcs r h (lift_stop "opModConnect=true" w)).1
  connect-Sends yes_connect =
      let w₀ = lift_stop "opModConnect=true" w in
      let s =
        Sends-map (IsPulse w₀) (IsCaused c control) (pulses c.pcs_writer) w₀ (reconnect_pcs c w₀).2
          (λ e a. inl (yes_connect, a.0, a.1, a.2 ∙ lift_stop_clears "opModConnect=true" w))
          (reconnect_pcs-Sends c w₀) in
      Sends-le _ (pulses c.pcs_writer) limit w _ (omega arith) (
        Sends-writes _ (pulses c.pcs_writer) w₀ _ w _ (sym (writes-lift_stop "opModConnect=true" w))
          refl (command-Sends _ (pulses c.pcs_writer) reconnect_pcs r h w₀ s))

  apply_setpoint-Sends :
      (o : Option ℤ)
      → get_power_setpoint_w control ≡ o
      → Sends (IsCaused c control) limit w (apply_setpoint o r h w).1
  unfolding apply_setpoint
  apply_setpoint-Sends none e = Sends-none _ limit w w refl
  apply_setpoint-Sends (some p) e =
      let w₁ = (supersede_and_set_active r h w).1 in
      rw (controller-supersede r h w) (
        Sends-writes _ limit w₁ _ w _ (sym (writes-supersede r h w)) refl (
          Sends-le _ (retries c.pcs_writer) limit w₁ _ (omega arith) (
            Sends-map _ (IsCaused c control) (retries c.pcs_writer) w₁ _ (λ x a. inr (p, inr e, a))
              (set_power_setpoint-Sends c p w₁))))

  energize-Sends :
      Sends
        (IsCaused c control)
        limit
        w
        (supersede_and_set_active r
          (change r (set_status completed) h)
          (lift_stop "opModEnergize=true" w)).1
  energize-Sends =
      Sends-none _ limit w _ (writes-supersede _ _ _ ∙ writes-lift_stop "opModEnergize=true" w)

  dispatch-Sends : Sends (IsCaused c control) limit w (dispatch control r h w).1
  unfolding dispatch
  dispatch-Sends = elim (Bool-cases (is_true (op_mod_connect control))) [
    | inl a ↦ rw a (connect-Sends a)
    | inr a ↦ elim (Bool-cases (is_true (op_mod_energize control))) [
      | inl b ↦ rw (a, b) energize-Sends
      | inr b ↦ elim (Bool-cases (is_stopped w.stop)) [
        | inl s ↦ rw (a, b, s) (Sends-none _ limit w w refl)
        | inr s ↦ rw (a, b, s) powered
      ]
    ]
  ]
    where
      powered :
          Sends
            (IsCaused c control)
            limit
            w
            (if is_false (op_mod_connect control)
              then command disconnect_pcs r h w
              else if is_false (op_mod_energize control)
              then command (set_power_setpoint (pos 0)) r h w
              else apply_setpoint (get_power_setpoint_w control) r h w).1
      powered = elim (Bool-cases (is_false (op_mod_connect control))) [
        | inl d ↦
            rw d
              (command-Sends _ limit disconnect_pcs r h w (zero-Sends _ (disconnect_pcs-Sends c w)))
        | inr d ↦ elim (Bool-cases (is_false (op_mod_energize control))) [
          | inl z ↦
              rw (d, z)
                (command-Sends _ limit (set_power_setpoint (pos 0)) r h w
                  (zero-Sends _ (set_power_setpoint-Sends c (pos 0) w)))
          | inr z ↦ rw (d, z) (apply_setpoint-Sends (get_power_setpoint_w control) refl)
        ]
      ]

-- Whatever the device replies and the other tasks call, every register write that the execution of
-- an event causes is one that its control accounts for: the pulse of PCS_ON for opModConnect=true,
-- or a power write, of 0 or of the control's own setpoint, that the power controller authorises.
-- None of them is asked of the Modbus client while the emergency stop holds, and there are at most
-- `max_retries` + 1 times `read_max_retries`.
pub execute_control-Sends :
    (r : ℕ) (h : Handler) (w : World)
    → Sends
        (IsCaused h.power_controller (h.objects r).control)
        (pulses h.power_controller.pcs_writer + retries h.power_controller.pcs_writer)
        w
        (execute_control r h w).1
unfolding execute_control
execute_control-Sends r h w =
    dispatch-Sends (h.objects r).control r
      (change r (λ e. record e { status = active; executed_time = some w.now }) h) w

-- An event with opModConnect=true lifts the emergency stop: in production mode with a writer its
-- execution sends what one `write_register` of the pulse of PCS_ON sends, called with the stop lifted.
-- These are at most `read_max_retries` register writes of 1 to PCS_ON, all asked for while the stop
-- did not hold, also where it held before.
pub execute_control_reconnects :
    (r : ℕ) (h : Handler) (w : World) (wr : ModbusPowerWriter)
    → is_true (op_mod_connect (h.objects r).control) ≡ true
    → h.power_controller.control_mode ≡ production
    → h.power_controller.pcs_writer ≡ some wr
    → let w₀ = lift_stop "opModConnect=true" w in
      ((execute_control r h w).1.writes ≡ (write_register wr.modbus pcs_on 1 w₀).1.writes)
      × Sends (IsAsked pcs_on 1 false) wr.modbus.read_max_retries w (execute_control r h w).1
unfolding execute_control dispatch command
execute_control_reconnects r h w wr a m o =
    let w₀ = lift_stop "opModConnect=true" w in
    let s =
      subst
        (λ b.
          Sends (IsAsked pcs_on 1 b) wr.modbus.read_max_retries w₀
            (write_register wr.modbus pcs_on 1 w₀).1)
        (lift_stop_clears "opModConnect=true" w) (write_register-Sends wr.modbus pcs_on 1 w₀) in
    let sent =
      writes-supersede _ _ _
      ∙ ap (λ w'. w'.writes) (world-reconnect_pcs h.power_controller w₀ wr m o) in
    rw a (sent, Sends-writes _ _ w₀ _ w _ (sym (writes-lift_stop "opModConnect=true" w)) sent s)
