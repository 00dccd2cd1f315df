-- ===== src/Power.antt =====
-- src/bms_2030_5_client/power_control.py: the checks that every power command passes on its way to
-- the power conversion system.
pub mod Limits
pub mod Unlock
pub mod UnlockCli
pub mod FromRuntime
pub mod Controller
