-- ===== src/Tests/Polls.antt =====
-- The theorems on src/bms_2030_5_client/polling/worker.py at a concrete worker, with natural numbers for floats.
use ieee2030_5_cold_client.Prelude.{
  ℕ, ◌+◌, ◌*◌, ◌≡◌, refl, true, false, none, some, [], ◌∷◌, str_eq, if◌then◌else◌, returned,
}
use ieee2030_5_cold_client.Prelude.Int.{pos}
use ieee2030_5_cold_client.Registers.{int16, RegisterWriter}
use ieee2030_5_cold_client.Polling.{
  FloatOps, Xml, ModbusWriteConfig, PollTargetConfig, response, Turn, Surroundings,
}
use ieee2030_5_cold_client.Polling.Extract.{parse_xpath, parse_xpath-first_text}
use ieee2030_5_cold_client.Polling.Target.{poll_target}
use ieee2030_5_cold_client.Polling.Worker.{
  starting, spawned, PollingConfig, PollingWorker, is_success_status, fresh, create, poll_cycle,
}
use ieee2030_5_cold_client.Polling.Outcomes.{
  is_consistent, poll_target-is_consistent, value_of, succeeds, poll_target-succeeds,
}
use ieee2030_5_cold_client.Polling.Counts.{IsCounted, created, cycled, reachable-IsCounted}

abbrev floats : FloatOps ℕ
floats = record {
  parse = λ s. if str_eq s "5000" then some 5000 else none;
  times = λ a b. a * b;
  plus = λ a b. a + b;
  maximum = λ a b. a + b;
  minimum = λ a b. a;
  scaled = λ d v s o. returned (record { truncated = pos v; high = 0; low = 0 });
}

-- Every path finds the same two elements.
abbrev xml : Xml
xml = record { findall = λ body path. some (none ∷ some "5000" ∷ []); strip = λ s. s }

abbrev register : ModbusWriteConfig ℕ
register = record { address = 4100; datatype = int16; scale = 1; offset = 0 }

abbrev target : PollTargetConfig ℕ
target = record {
  id = "limit";
  name = "Limit";
  enabled = true;
  profile_name = "utility";
  uri = "/derp/1/derc";
  interval_ms = pos 60000;
  parse = record { format = "sep_xml"; xpath = some "//opModFixedW/value"; field_path = none };
  transform = record { scale = 1; offset = 0; clamp_min = none; clamp_max = none };
  modbus_write = some register;
}

abbrev turn : Turn
turn = record {
  milliseconds = 80;
  reply = response 200 "HTTP 200" "<value>5000</value>";
  connects = true;
  wrote = returned none;
}

abbrev surroundings : Surroundings
surroundings = record { now = 100000; turns = λ k. turn; at = 0; sent = [] }

abbrev writer : RegisterWriter
writer = record { simulation_mode = false; connected = true }

abbrev polling_config : PollingConfig ℕ
polling_config = record { poll_targets = target ∷ []; profiles = "utility" ∷ [] }

parse_xpath-first_text_example : parse_xpath xml "<value>5000</value>" "//value" ≡ some "5000"
parse_xpath-first_text_example = parse_xpath-first_text xml "<value>5000</value>" "//value"

poll_target-is_consistent_example :
    is_consistent target (poll_target floats xml (fresh target) true turn (some writer)).0 ≡ true
poll_target-is_consistent_example =
    poll_target-is_consistent floats xml (fresh target) true turn (some writer)

poll_target-succeeds_example :
    is_success_status (poll_target floats xml (fresh target) true turn (some writer)).0.status
    ≡ succeeds floats xml target turn (some writer) (value_of floats xml target turn.reply)
poll_target-succeeds_example =
    poll_target-succeeds floats xml (fresh target) turn (some writer) refl

reachable-IsCounted_example :
    IsCounted (poll_cycle floats xml (create polling_config false) surroundings).0
reachable-IsCounted_example =
    reachable-IsCounted floats xml
      (poll_cycle floats xml (create polling_config false) surroundings).0
      (cycled (create polling_config false) surroundings (created polling_config false))

abbrev just_started : PollingWorker ℕ
just_started = record {
  config = polling_config;
  simulation_mode = false;
  state = starting;
  thread = spawned;
  stop_event = none;
  target_states = ("limit", fresh target) ∷ [];
  clients = [];
  modbus_writer = none;
  total_polls = 0;
  total_errors = 0;
}
