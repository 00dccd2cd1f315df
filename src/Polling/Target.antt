-- ===== src/Polling/Target.antt =====
-- One target of src/bms_2030_5_client/polling/worker.py: when it is due, and `_poll_target`.
use Prim.Native.String.{◌++◌ as append}
use ieee2030_5_cold_client.Prelude.{
  ℕ, String, Bool, true, false, Option, none, some, ◌&&◌, if◌then◌else◌, leb, ltb, not, is_some,
  returned, raised,
}
use ieee2030_5_cold_client.Prelude.Int.{ℤ, pos, ◌+ℤ◌, leb_ℤ}
use ieee2030_5_cold_client.Registers.{RegisterWriter, WriteResult, Sent, write}
use ieee2030_5_cold_client.Polling.{
  PollStatus, success, parse_error, http_error, connection_error, timeout, disabled, write_error,
  FloatOps, Xml, TransformConfig, PollTargetConfig, PollResult, TargetState, Reply, response,
  timed_out, unreachable, client_error, exception, Turn,
}
use ieee2030_5_cold_client.Polling.Extract.{parse_response}

abbrev pub text_or_none : Option String → String
text_or_none none = "None"
text_or_none (some s) = s

-- How a poll ends: its result, the writer, and what was sent to the device.
abbrev pub Polled : Type 0 → Type 0
Polled F = PollResult F × Option RegisterWriter × Option Sent

abbrev pub is_success : ℕ → Bool
is_success code = leb 200 code && ltb code 300

module _ {F : Type 0} where
  -- `next_poll_time` and `should_poll`.
  abbrev pub next_poll_time : TargetState F → ℤ
  next_poll_time t = elim t.last_poll_time [
    | none ↦ pos 0
    | some last ↦ pos last +ℤ t.target.interval_ms
  ]

  unfoldable pub should_poll : TargetState F → ℕ → Bool
  should_poll t now = t.target.enabled && leb_ℤ (next_poll_time t) (pos now)

  -- `TransformConfig.apply`.
  unfoldable pub apply : FloatOps F → TransformConfig F → F → F
  apply f t value =
      let result = f.plus (f.times value t.scale) t.offset in
      let raised_to : F = elim t.clamp_min [ none ↦ result | some m ↦ f.maximum result m ] in
      elim t.clamp_max [ none ↦ raised_to | some m ↦ f.minimum raised_to m ]

  abbrev pub without_response : PollTargetConfig F → PollStatus → Option String → PollResult F
  without_response t s e = record {
    target_id = t.id;
    target_name = t.name;
    status = s;
    http_status = none;
    raw_value = none;
    parsed_value = none;
    transformed_value = none;
    modbus_written = false;
    modbus_address = none;
    modbus_error = none;
    error_message = e;
  }

  abbrev pub failed : PollTargetConfig F → PollStatus → ℕ → String → PollResult F
  failed t s code e = record (without_response t s (some e)) { http_status = some code }

  -- The result where the value is there, and no write is configured.
  abbrev pub read_result : PollTargetConfig F → ℕ → String → F → F → PollResult F
  read_result t code raw parsed transformed = record (without_response t success none) {
    http_status = some code;
    raw_value = some raw;
    parsed_value = some parsed;
    transformed_value = some transformed;
  }

  abbrev pub unwritten : PollResult F → Option ℕ → Option String → PollResult F
  unwritten r address e = record r {
    status = write_error;
    modbus_address = address;
    modbus_error = e;
    error_message = some (append "Modbus write failed: " (text_or_none e));
  }

  -- After the write: its result decides between SUCCESS and WRITE_ERROR.
  abbrev pub written : PollResult F → WriteResult × RegisterWriter × Option Sent → Polled F
  written r (w, writer, sent) = (
    if w.success
        then record r { modbus_written = true; modbus_address = some w.address }
        else unwritten r (some w.address) w.error,
    some writer,
    sent,
  )

  -- `if target.modbus_write and self._modbus_writer:`; a value that does not convert raises out of
  -- the write.
  unfoldable pub write_value :
      FloatOps F → PollTargetConfig F → Turn → Option RegisterWriter → PollResult F → F → Polled F
  write_value f t turn none r value =
      (if is_some t.modbus_write then unwritten r none none else r, none, none)
  write_value f t turn (some w) r value = elim t.modbus_write [
    | none ↦ (r, some w, none)
    | some c ↦ elim (f.scaled c.datatype value c.scale c.offset) [
      | raised e ↦ (without_response t http_error (some e), some w, none)
      | returned v ↦ written r (write c.address c.datatype v turn.connects turn.wrote w)
    ]
  ]

  -- What follows `float(raw_value)`.
  unfoldable pub use_number :
      FloatOps F
      → PollTargetConfig F
      → Turn
      → Option RegisterWriter
      → ℕ
      → String
      → Option F
      → Polled F
  use_number f t turn w code raw none = (
    record (failed t parse_error code (append "Cannot convert '" (append raw "' to number"))) {
      raw_value = some raw;
    },
    w,
    none,
  )
  use_number f t turn w code raw (some parsed) =
      let value = apply f t.transform parsed in
      write_value f t turn w (read_result t code raw parsed value) value

  -- What follows `_parse_response`.
  unfoldable pub use_raw :
      FloatOps F → PollTargetConfig F → Turn → Option RegisterWriter → ℕ → Option String → Polled F
  use_raw f t turn w code none =
      (failed t parse_error code "Failed to parse value from response", w, none)
  use_raw f t turn w code (some raw) = use_number f t turn w code raw (f.parse raw)

  unfoldable pub use_reply :
      FloatOps F → Xml → PollTargetConfig F → Turn → Option RegisterWriter → Reply → Polled F
  use_reply f x t turn w (response code http_status body) =
      if is_success code
      then use_raw f t turn w code (parse_response x body t.parse)
      else (failed t http_error code http_status, w, none)
  use_reply f x t turn w (timed_out e) = (without_response t timeout (some e), w, none)
  use_reply f x t turn w (unreachable e) = (without_response t connection_error (some e), w, none)
  use_reply f x t turn w (client_error e) = (without_response t http_error (some e), w, none)
  use_reply f x t turn w (exception e) = (without_response t http_error (some e), w, none)

  -- `_poll_target`; `connected` is whether there is a client for the profile.
  unfoldable pub poll_target :
      FloatOps F → Xml → TargetState F → Bool → Turn → Option RegisterWriter → Polled F
  poll_target f x s connected turn w =
      if not s.target.enabled
      then (without_response s.target disabled none, w, none)
      else if connected
      then use_reply f x s.target turn w turn.reply
      else (
        without_response s.target connection_error
            (some (append "SEP client '" (append s.profile "' not available"))),
        w,
        none,
      )
