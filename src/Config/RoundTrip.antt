-- ===== src/Config/RoundTrip.antt =====
-- Each section of src/bms_2030_5_client/runtime_config.py, written and read again.
pub mod Sections
pub mod Targets
pub mod Power
