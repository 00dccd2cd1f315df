-- ===== src/Tests/Writes.antt =====
-- The theorems on src/bms_2030_5_client/modbus/register_writer.py at concrete values.
use ieee2030_5_cold_client.Prelude.{◌≡◌, false, none, returned, Outcome, Option, String}
use ieee2030_5_cold_client.Prelude.Int.{pos, negsuc}
use ieee2030_5_cold_client.Pcs.Words.{signed16}
use ieee2030_5_cold_client.Registers.{
  int16, uint16, int32, uint32, Scaled, convert_value, RegisterWriter,
}
use ieee2030_5_cold_client.Registers.Words.{joined, signed32, convert_value_reads}

-- -70000, which a word cannot hold.
abbrev low_value : Scaled
low_value = record { truncated = negsuc 69999; high = 51080; low = 47104 }

abbrev acknowledged : Outcome (Option String)
acknowledged = returned none

abbrev register_writer : RegisterWriter
register_writer = record { simulation_mode = false; connected = false }

convert_value_reads_example :
    (signed16 (joined (convert_value int16 low_value)) ≡ negsuc 32767)
    × (pos (joined (convert_value uint16 low_value)) ≡ pos 0)
    × (signed32 (joined (convert_value int32 low_value)) ≡ negsuc 69999)
    × (pos (joined (convert_value uint32 low_value)) ≡ pos 0)
convert_value_reads_example = convert_value_reads low_value
