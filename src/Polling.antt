-- ===== src/Polling.antt =====
-- `PollingWorker` of src/bms_2030_5_client/polling/worker.py: targets that are polled at intervals, a value that is
-- taken from each reply, transformed and written to a register. Times are in milliseconds. Floats
-- with their arithmetic, ElementTree and the server are parameters; latency and log are left out.
pub mod Extract
pub mod Target
pub mod Worker
pub mod Outcomes
pub mod Counts
use ieee2030_5_cold_client.Prelude.{ℕ, String, Bool, true, false, Option, none, some, List, Outcome}
use ieee2030_5_cold_client.Prelude.Int.{ℤ}
use ieee2030_5_cold_client.Prelude.Dict.{Dict}
use ieee2030_5_cold_client.Registers.{DataType, Scaled, RegisterWriter, Sent}

-- `PollStatus`.
pub data PollStatus : Type 0 where
  success parse_error http_error connection_error timeout disabled write_error : PollStatus

-- The floats: `float(text)`, the operations, and what `write` makes of a value with the scale and the
-- offset of a register before it converts to words, which raises for an infinity and for NaN.
pub record FloatOps (F : Type 0) : Type 0 where
  pub parse : String → Option F
  pub times : F → F → F
  pub plus : F → F → F
  pub maximum : F → F → F
  pub minimum : F → F → F
  -- `(value + offset) * scale` as the data type needs it: an infinity is packed as a float32, but
  -- raises in the `int()` of the other types
  pub scaled : DataType → F → F → F → Outcome Scaled

-- ElementTree, after the namespaces are stripped: the texts of the elements that a path finds in a
-- document, in order, or None where parsing raises; and `str.strip`.
pub record Xml : Type 0 where
  pub findall : String → String → Option (List (Option String))
  pub strip : String → String

pub record ParseConfig : Type 0 where
  pub format : String
  pub xpath : Option String
  pub field_path : Option String

pub record TransformConfig (F : Type 0) : Type 0 where
  pub scale : F
  pub offset : F
  pub clamp_min : Option F
  pub clamp_max : Option F

pub record ModbusWriteConfig (F : Type 0) : Type 0 where
  pub address : ℕ
  pub datatype : DataType
  pub scale : F
  pub offset : F

pub record PollTargetConfig (F : Type 0) : Type 0 where
  pub id : String
  pub name : String
  pub enabled : Bool
  pub profile_name : String
  pub uri : String
  pub interval_ms : ℤ
  pub parse : ParseConfig
  pub transform : TransformConfig F
  pub modbus_write : Option (ModbusWriteConfig F)

pub record PollResult (F : Type 0) : Type 0 where
  pub target_id : String
  pub target_name : String
  pub status : PollStatus
  pub http_status : Option ℕ
  pub raw_value : Option String
  pub parsed_value : Option F
  pub transformed_value : Option F
  pub modbus_written : Bool
  pub modbus_address : Option ℕ
  pub modbus_error : Option String
  pub error_message : Option String

-- `TargetState`; of its profile the name is used.
pub record TargetState (F : Type 0) : Type 0 where
  pub target : PollTargetConfig F
  pub profile : String
  pub last_poll_time : Option ℕ
  pub last_result : Option (PollResult F)
  pub poll_count : ℕ
  pub error_count : ℕ

-- How a GET ends: a response with its status, the text `HTTP {status}` and its body, one of the
-- errors of the client with its message, or another exception.
pub data Reply : Type 0 where
  response : ℕ → (http_status body : String) → Reply
  timed_out : String → Reply
  unreachable : String → Reply
  client_error : String → Reply
  exception : String → Reply

-- What the surroundings do during one poll.
pub record Turn : Type 0 where
  pub milliseconds : ℕ
  pub reply : Reply
  pub connects : Bool
  pub wrote : Outcome (Option String)

-- The clock, the turns to come, and the register writes that were sent, the newest first.
pub record Surroundings : Type 0 where
  pub now : ℕ
  pub turns : ℕ → Turn
  pub at : ℕ
  pub sent : List Sent
