-- ===== src/Config.antt =====
-- src/bms_2030_5_client/runtime_config.py: a configuration is read from the dictionaries that YAML gives, with
-- validation, and written back. A field that the code does not convert keeps whatever value it was
-- given. A float that is finite stands as an integer multiple of 2 ^ -1074, the smallest one.
pub mod Values
pub mod Checks
pub mod Parts
pub mod Sections
pub mod Targets
pub mod Power
pub mod Runtime
pub mod Checked
pub mod Valid
pub mod Accepts
pub mod RoundTrip
pub mod Laws
