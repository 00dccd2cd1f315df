-- ===== src/Lib.antt =====
-- A model of the BMS IEEE 2030.5 client, src/bms_2030_5_client: how a control event of an IEEE 2030.5
-- server becomes register writes to the power conversion system, and how the client keeps its
-- connection to the battery system.
--
-- The parts, from the server down to the device:
--   Client (src/bms_2030_5_client/dera/der_client.py): `DERClient` polls the control lists of
--     its programs, takes up each control once, resolves conflicts between controls by mode,
--     executes or schedules them, reports to the server with retries, and applies the default
--     control. `State` has its state, `Response` the reports, `Conflict` the modes and their
--     holders, `Execution`, `Processing` (`_process_control` and the polls), `Scheduling` (a pass
--     of `_scheduler_loop`) and `Programs` its operations. `Calm` and its children prove what
--     every run of the client keeps.
--   Handler (src/bms_2030_5_client/dera/handler.py): `DERControlHandler` executes one event on
--     the power controller, supersedes and cancels. The emergency stop is lifted here, and tested
--     here.
--   Power (src/bms_2030_5_client/power_control.py): `Limits` is `PowerLimits` and
--     `PowerValidator`, `Controller` is `SafePowerController`, which
--     `FromRuntime` makes from the configuration. `Unlock` and `UnlockCli` are
--     src/bms_2030_5_client/cli/unlock_production.py, the lockfile of the production mode.
--   Pcs (src/bms_2030_5_client/modbus/power_writer.py): `ModbusPowerWriter`, which retries and
--     verifies register writes.
--   Modbus (src/bms_2030_5_client/modbus/modbus_client.py): `write_register` and `read_registers` of
--     `ModbusBMSClient`, through which the power writer reaches the device, with their lock and their
--     own retries; `Attempts` and `Retries` are about them.
--   Collector (src/bms_2030_5_client/modbus/modbus_client.py): the connection states of
--     `BMSDataCollector`, which reads the battery system beside all this and escalates its
--     reconnects.
--   Registers (src/bms_2030_5_client/modbus/register_writer.py): `ModbusRegisterWriter`, which
--     writes polled values as 16-bit registers.
--   Supervisor (src/bms_2030_5_client/task_supervisor.py): `TaskSupervisor`, which restarts the
--     background tasks.
--   Subs (src/bms_2030_5_client/subs/manager.py): `SubscriptionManager`. `Requests` has what it sends
--     for one subscription, `Lifecycle` its operations, and `Stopping` the one that cancels a renewal;
--     `Settled`, `Effects` and `Reachable` prove what stays true, `Refine`, `Latest` and `Reload`
--     compare a reload with the configuration, and `Renewals` is about the loop.
--   Config (src/bms_2030_5_client/runtime_config.py): the runtime configuration. `Values` has the
--     values of YAML and how a load ends, `Checks` the validators, `Sections`, `Targets`, `Power`
--     and `Runtime` the classes with `from_dict` and their parts of `to_dict`; `Valid`, `RoundTrip`
--     and `Laws` are about what is loaded.
--   Polling (src/bms_2030_5_client/polling/worker.py): `PollingWorker`. `Extract` takes the value from
--     a reply, `Target` is one poll, down to the write of Registers, and `Worker` the cycle, the thread
--     and its callers; `Outcomes` and `Counts` are about results and counters.
--   Notifications (src/bms_2030_5_client/subscription/notification_handler.py): the control that
--     `NotificationHandler` takes from a notification and its response; `Unanswered` is about the two.
--   Stop (src/bms_2030_5_client/power_control.py): `EmergencyStop`, one state for the whole
--     process.
--   Models (src/bms_2030_5_client/models/ieee2030_5_models.py): the resources that the other
--     parts read.
--   World: what surrounds the process. Each await takes a turn from a schedule, which says what
--     the device or server replies, how the clock moves, and which calls of the emergency stop the
--     other tasks make in the meantime. The register writes are recorded with whether the stop
--     held when the Modbus client was asked for them and when they left. `Sends` counts them.
--   Prelude: shared names, integers, lists, dictionaries, stable sorting. Tests: concrete
--     inputs.
--
-- Objects that the Python code shares (events, tracked controls) are references into a store in the
-- record of the component that owns them, so that an alias sees each change. The equality that
-- `@dataclass` generates, the GETs of the server, HMAC-SHA256 and its comparison are parameters.
--
-- Bounds and fuel: the retry loops run on their number of attempts left, `max_retries`,
-- `read_max_retries` and `response_max_retries`, as in the source; every other loop is over a list.
-- No fuel is added. Numbers of the source are unbounded integers; the register word is reduced
-- modulo 2^16 where the source masks it. Scale factors, which are floats, are functions on the
-- integers that may raise; a state of charge stands as an integer multiple of the smallest float.
--
-- Not modelled: the interleaving of the client's own tasks inside one operation, the polling of
-- function set assignments, audit and display texts, XML, HTTP, the database, the web interface, and
-- the CAN codec and the adapters.
pub mod Prelude
pub mod Stop
pub mod World
pub mod Modbus
pub mod Pcs
pub mod Power
pub mod Models
pub mod Handler
pub mod Client
pub mod Collector
pub mod Registers
pub mod Supervisor
pub mod Subs
pub mod Config
pub mod Polling
pub mod Notifications
pub mod Tests
