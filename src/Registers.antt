-- ===== src/Registers.antt =====
-- `ModbusRegisterWriter` of src/bms_2030_5_client/modbus/register_writer.py: values as 16-bit registers, and
-- their writes. A value comes as `int(scaled_value)` and as the two words of its `struct.pack` as a
-- single float, for the arithmetic on floats is not modelled. Latency and log lines are not kept.
pub mod Words
use ieee2030_5_cold_client.Prelude.{
  ℕ, ◌+◌, ◌/◌, ◌%◌, String, Bool, true, false, Option, none, some, List, [], ◌∷◌, if◌then◌else◌,
  not, Outcome, returned, raised,
}
use ieee2030_5_cold_client.Prelude.Int.{ℤ, pos, negsuc, ltb_ℤ, ◌+ℤ◌}

-- The values of `ModbusDataType` that the conversion knows; any other text counts as `other`.
pub data DataType : Type 0 where
  int16 uint16 int32 uint32 float32 other : DataType

pub record Scaled : Type 0 where
  pub truncated : ℤ
  pub high : ℕ
  pub low : ℕ

-- `max(low, min(high, z))`.
abbrev pub clamp : ℤ → ℤ → ℤ → ℤ
clamp low high z = let m = if ltb_ℤ z high then z else high in if ltb_ℤ low m then m else low

-- The value of a number that is at least 0, as it is after the code's steps.
abbrev pub unsigned : ℤ → ℕ
unsigned (pos n) = n
unsigned (negsuc n) = 0

-- `if int_val < 0: int_val = int_val + size`.
wrap : ℤ → ℤ → ℕ
wrap size z = unsigned (if ltb_ℤ z (pos 0) then z +ℤ size else z)

-- `(n >> 16) & 0xFFFF` and `n & 0xFFFF`.
split : ℕ → List ℕ
split n = n / 65536 % 65536 ∷ n % 65536 ∷ []

unfoldable pub convert_value : DataType → Scaled → List ℕ
unfolding wrap split
convert_value int16 v = wrap (pos 65536) (clamp (negsuc 32767) (pos 32767) v.truncated) ∷ []
convert_value uint16 v = wrap (pos 65536) (clamp (pos 0) (pos 65535) v.truncated) ∷ []
convert_value int32 v =
    split (wrap (pos 4294967296) (clamp (negsuc 2147483647) (pos 2147483647) v.truncated))
convert_value uint32 v = split (wrap (pos 4294967296) (clamp (pos 0) (pos 4294967295) v.truncated))
convert_value float32 v = v.high ∷ v.low ∷ []
convert_value other v = wrap (pos 65536) (clamp (negsuc 32767) (pos 32767) v.truncated) ∷ []

pub record WriteResult : Type 0 where
  pub success : Bool
  pub address : ℕ
  pub raw_values : List ℕ
  pub error : Option String

pub record RegisterWriter : Type 0 where
  pub simulation_mode : Bool
  pub connected : Bool

-- What leaves for the device: the first address and the words.
pub record Sent : Type 0 where
  pub start : ℕ
  pub words : List ℕ

-- `result.isError()` gives a text, or the write went through.
reply_result : ℕ → List ℕ → Outcome (Option String) → WriteResult
reply_result address words (returned none) = record {
  success = true;
  address = address;
  raw_values = words;
  error = none;
}
reply_result address words (returned (some e)) = record {
  success = false;
  address = address;
  raw_values = words;
  error = some e;
}
reply_result address words (raised e) = record {
  success = false;
  address = address;
  raw_values = words;
  error = some e;
}

-- `connect`, where `connects` is whether the device would let the client connect; an exception of it
-- counts as no.
abbrev pub connect : Bool → RegisterWriter → Bool × RegisterWriter
connect connects w =
    let up = if w.connected then true else connects in
    if w.simulation_mode
    then (true, record w { connected = true })
    else (up, record w { connected = up })

abbrev pub close : RegisterWriter → RegisterWriter
close w = record w { connected = false }

-- `connects` is for `connect`, `reply` what the device would answer. The last part is
-- what was sent.
unfoldable pub write :
    ℕ
    → DataType
    → Scaled
    → Bool
    → Outcome (Option String)
    → RegisterWriter
    → WriteResult × RegisterWriter × Option Sent
unfolding reply_result
write address datatype value connects reply w =
    let words = convert_value datatype value in
    let open_writer = if w.connected then w else (connect connects w).1 in
    let sent : Sent = record { start = address; words = words } in
    if w.simulation_mode
    then (record { success = true; address = address; raw_values = words; error = none }, w, none)
    else if open_writer.connected
    then (reply_result address words reply, open_writer, some sent)
    else (
      record {
        success = false;
        address = address;
        raw_values = words;
        error = some "Not connected to Modbus server";
      },
      open_writer,
      none,
    )
