-- ===== src/Config/Valid.antt =====
-- What a loaded section of src/bms_2030_5_client/runtime_config.py is, section by section.
pub mod Sections
pub mod Targets
pub mod Power
pub mod Runtime
