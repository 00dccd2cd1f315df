-- ===== src/World.antt =====
-- What the process shares and what surrounds it, as an explicit schedule. At each `await` the other
-- tasks may call `EmergencyStop`, the clock moves on, and the awaited call ends with what the
-- device or the server did. The schedule holds all of that for every await to come, so a statement
-- about every schedule is a statement about every interleaving.
pub mod Sends
use ieee2030_5_cold_client.Prelude.{ℕ, ◌+◌, ◌%◌, String, Bool, List, [], ◌∷◌, Outcome}
use ieee2030_5_cold_client.Prelude.Int.{ℤ, pos, ◌+ℤ◌}
use ieee2030_5_cold_client.Stop.{EmergencyStop, trigger, is_stopped, reset_by_server}

-- A call that another task makes while this one waits.
pub data StopCall : Type 0 where
  triggered : String → StopCall
  reset : String → StopCall

-- What an awaited call of pymodbus ends with: a reply, one for which `isError()` holds, a
-- `ModbusException`, or an exception of another class.
pub data Reply (A : Type 0) : Type 0 where
  replied : A → Reply A
  error_response : Reply A
  modbus_exception : Reply A
  other_exception : String → Reply A

pub record Turn : Type 0 where
  pub seconds : ℕ
  pub calls : List StopCall
  -- whether the Modbus client has its connection; the tasks that open and close it are not modelled
  pub connected : Bool
  pub wrote : Reply (Unit {0})
  pub registers : Reply (List ℕ)
  pub posted : Outcome (Unit {0})

-- A register write as it left the process: whether the emergency stop held when `write_register` was
-- called for it, and whether it held when this write left.
pub record Write : Type 0 where
  pub address : ℕ
  pub value : ℕ
  pub asked_while_stopped : Bool
  pub while_stopped : Bool

pub record World : Type 0 where
  pub stop : EmergencyStop
  pub now : ℕ
  pub schedule : ℕ → Turn
  pub at : ℕ
  -- what `str(uuid4())[:8]` gives, call by call
  pub uuids : ℕ → String
  pub drawn : ℕ
  -- the randomness behind `random.randint`, call by call
  pub dice : ℕ → ℕ
  -- the newest first
  pub writes : List Write

unfoldable pub make_call : ℕ → EmergencyStop → StopCall → EmergencyStop
unfolding trigger reset_by_server
make_call now s (triggered reason) = trigger reason now s
make_call now s (reset source) = (reset_by_server source s).1

unfoldable pub make_calls : ℕ → EmergencyStop → List StopCall → EmergencyStop
unfolding make_call
make_calls now s [] = s
make_calls now s (c ∷ cs) = make_calls now (make_call now s c) cs

abbrev pub turn : World → Turn
turn w = w.schedule w.at

-- The world when an await is over.
unfoldable pub wait : World → World
wait w =
    let now = w.now + (turn w).seconds in
    record w { stop = make_calls now w.stop (turn w).calls; now = now; at = w.at + 1 }

-- `random.randint(low, low + width)`: some number of that range.
unfoldable pub roll : ℤ → ℕ → World → ℤ × World
roll low width w = (low +ℤ pos (w.dice w.drawn % (width + 1)), record w { drawn = w.drawn + 1 })

-- What an awaited POST ends with.
unfoldable pub post : World → Outcome (Unit {0}) × World
post w = ((turn w).posted, wait w)

-- `str(uuid4())[:8]`.
unfoldable pub draw : World → String × World
draw w = (w.uuids w.drawn, record w { drawn = w.drawn + 1 })
