-- ===== src/Tests.antt =====
-- Concrete worlds, controllers, events and clients, on which the theorems are applied.
pub mod Powers
pub mod Events
pub mod Clients
pub mod Collectors
pub mod Writes
pub mod Supervisors
pub mod Subscriptions
pub mod Configs
pub mod Polls
pub mod Notifications
use ieee2030_5_cold_client.Prelude.{
  ℕ, String, Bool, true, false, none, some, [], ◌∷◌, if◌then◌else◌, ◌==◌, returned,
}
use ieee2030_5_cold_client.Prelude.Int.{ℤ, pos}
use ieee2030_5_cold_client.Stop.{EmergencyStop, running}
use ieee2030_5_cold_client.World.{Turn, World, replied, error_response}
use ieee2030_5_cold_client.Modbus.{ModbusBmsClient}
use ieee2030_5_cold_client.Models.{DateTimeInterval, DerControl, DerControlBase, DerProgram}
use ieee2030_5_cold_client.Pcs.{ModbusPowerWriterConfig, ModbusPowerWriter, power_setpoint}
use ieee2030_5_cold_client.Power.Limits.{default_limits}
use ieee2030_5_cold_client.Power.Controller.{ControlMode, production, SafePowerController}
use ieee2030_5_cold_client.Handler.{Status, completed, DerControlEvent, Handler}
use ieee2030_5_cold_client.Client.State.{TrackedControl, Client}

abbrev pub stopped : EmergencyStop
stopped = record { stopped = true; reason = some "door open"; timestamp = some 900 }

-- One second for each await; the device refuses the first register write and answers the others.
abbrev pub turn_at : ℕ → Turn
turn_at k = record {
  seconds = 1;
  calls = [];
  connected = true;
  wrote = if k == 1 then error_response else replied tt;
  registers = replied (500 ∷ []);
  posted = returned tt;
}

abbrev pub world : World
world = record {
  stop = running;
  now = 1000;
  schedule = turn_at;
  at = 0;
  uuids = λ k. "a1b2c3d4";
  drawn = 0;
  dice = λ k. 7;
  writes = [];
}

abbrev pub stopped_world : World
stopped_world = record world { stop = stopped }

abbrev pub writer_config : ModbusPowerWriterConfig
writer_config = record {
  power_setpoint_address = power_setpoint;
  power_scale_factor = record { fails = λ z. none; times = λ z. z; over = λ z. some z };
  verify_after_write = false;
  max_retries = 3;
}

abbrev pub modbus_client : ModbusBmsClient
modbus_client = record { read_max_retries = 3 }

abbrev pub writer : ModbusPowerWriter
writer = record {
  modbus = modbus_client;
  config = writer_config;
  current_power_w = pos 0;
  last_write_time = none;
}

abbrev pub controller : SafePowerController
controller = record {
  limits = default_limits;
  current_power_w = pos 0;
  current_soc = none;
  pcs_writer = some writer;
  control_mode = production;
}

abbrev pub fixed_5_kw : DerControlBase
fixed_5_kw = record {
  op_mod_fixed_w = some (record { value = pos 5; multiplier = 3 });
  op_mod_fixed_var = none;
  op_mod_max_lim_w = none;
  op_mod_connect = none;
  op_mod_energize = none;
}

-- It runs from 950 to 1250.
abbrev pub control : DerControl
control = record {
  object_id = "140001";
  href = some "/derp/1/derc/1";
  m_rid = some "C1F0";
  creation_time = pos 900;
  interval = some (record { duration = pos 300; start = pos 950 });
  event_status = none;
  randomize_start = none;
  randomize_duration = none;
  base = some fixed_5_kw;
  primacy = pos 2;
  reply_to = some "/rsps/1/rsp";
  response_required = none;
}

abbrev pub connect_control : DerControl
connect_control = record control {
  base = some (record fixed_5_kw { op_mod_fixed_w = none; op_mod_connect = some true });
}

abbrev pub event_of : DerControl → DerControlEvent
event_of c = record {
  control = c;
  status = completed;
  received_time = 990;
  executed_time = some 990;
  result = none;
  error_message = none;
}

-- Two events are tracked, and the second is the active one.
abbrev pub handler_of : DerControl → Handler
handler_of c = record {
  power_controller = controller;
  max_tracked_events = 100;
  completed_event_retention_s = 3600;
  objects = λ r. event_of c;
  allocated = 2;
  events = ("C1F0", 0) ∷ ("C1F1", 1) ∷ [];
  active_event = some 1;
  default_der_control = some control;
}

abbrev pub program : DerProgram
program = record {
  object_id = "140100";
  href = some "/derp/1";
  m_rid = some "P1";
  primacy = pos 2;
  der_control_list_href = some "/derp/1/derc";
  default_der_control_href = some "/derp/1/dderc";
}

abbrev pub tracked : TrackedControl
tracked = record {
  control = control;
  program = program;
  primacy = pos 2;
  event = some 1;
  randomized_start = none;
  randomized_duration = none;
  response_sent = true;
  status = completed;
  pending_response = none;
  response_retry_count = 0;
  last_response_attempt = 0;
}

-- The control of more weight, which has just come in.
abbrev pub urgent : TrackedControl
urgent = record tracked { primacy = pos 1 }

-- The control 0 holds the fixed power; the control 1 is the urgent one.
abbrev pub client : Client
client = record {
  handler = handler_of control;
  lfdi = some "3E4F45AB31EDFE5B67E343E5E4562E31984E23E5";
  enable_randomization = true;
  processed_event_retention = 100;
  response_max_retries = 3;
  tracked_programs = [];
  objects = λ r. if r == 1 then urgent else tracked;
  allocated = 2;
  tracked_controls = ("C1F0", 0) ∷ [];
  active_by_mode = ("opModFixedW", 0) ∷ [];
  processed = "C1F0" ∷ [];
  cancelled = [];
  active_default = none;
  active_default_program = none;
  controls_executed = 1;
  responses_sent = 2;
  posts = [];
}
