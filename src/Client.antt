-- ===== src/Client.antt =====
-- src/bms_2030_5_client/dera/der_client.py: `DERClient`, which follows the programs of an IEEE 2030.5 server,
-- schedules and executes their control events, resolves conflicts and reports back.
-- Each operation is one piece here: that the class's own three tasks interleave inside an operation
-- is not modelled; the emergency stop calls of other tasks at every await are.
pub mod State
pub mod Response
pub mod Conflict
pub mod Execution
pub mod Processing
pub mod Scheduling
pub mod Programs
pub mod Calm
