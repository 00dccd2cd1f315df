-- ===== src/Pcs/Words.antt =====
-- A signed value in a 16-bit register: `value & 0xFFFF` of
-- src/bms_2030_5_client/modbus/power_writer.py, on Python's unbounded integers, and the reading of
-- such a register as an S16.
use ieee2030_5_cold_client.Prelude.{ℕ, ◌-◌, ◌%◌, ◌<◌, ◌≡◌, arith, ltb, if◌then◌else◌}
use ieee2030_5_cold_client.Prelude.Int.{ℤ, pos, negsuc, ◌≤ℤ◌}

unfoldable pub low_word : ℤ → ℕ
low_word (pos n) = n % 65536
low_word (negsuc n) = 65535 - n % 65536

abbrev pub signed16 : ℕ → ℤ
signed16 v = if ltb v 32768 then pos v else negsuc (65535 - v)

pub low_word-lt : (z : ℤ) → low_word z < 65536
unfolding low_word
low_word-lt (pos n) = omega arith
low_word-lt (negsuc n) = omega arith

-- A value in the range of an S16 is read back from its register as it was.
pub signed16-low_word : (z : ℤ) → negsuc 32767 ≤ℤ z → z ≤ℤ pos 32767 → signed16 (low_word z) ≡ z
unfolding low_word
signed16-low_word (pos n) lo hi = ground arith
signed16-low_word (negsuc n) lo hi = ground arith
