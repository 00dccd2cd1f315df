-- ===== src/Polling/Outcomes.antt =====
-- What a poll of src/bms_2030_5_client/polling/worker.py ends with.
use ieee2030_5_cold_client.Prelude.{
  ℕ, ◌≡◌, refl, String, Bool, true, false, Option, none, some, ◌&&◌, arith, if◌then◌else◌, if_intro,
  is_some, not, returned, raised, if_intro_eq,
}
use ieee2030_5_cold_client.Registers.{RegisterWriter, write}
use ieee2030_5_cold_client.Polling.{
  success, http_error, disabled, write_error, FloatOps, Xml, PollTargetConfig, PollResult,
  TargetState, Reply, response, timed_out, unreachable, client_error, exception, Turn,
}
use ieee2030_5_cold_client.Polling.Extract.{parse_response}
use ieee2030_5_cold_client.Polling.Target.{
  Polled, apply, failed, read_result, write_value, is_success, use_number, use_raw, use_reply,
  poll_target,
}
use ieee2030_5_cold_client.Polling.Worker.{is_success_status}

abbrev same_bool : Bool → Bool → Bool
same_bool true b = b
same_bool false b = not b

-- The value is there.
abbrev pub has_value : {F : Type 0} → PollResult F → Bool
has_value r = is_some r.transformed_value

-- What goes together in the result of a poll of `t`: SUCCESS and WRITE_ERROR come with a value and
-- the others without; a write is configured exactly when it is reported with SUCCESS or fails; only
-- SUCCESS is without a message; and nothing was sent without a value.
abbrev pub is_consistent : {F : Type 0} → PollTargetConfig F → PollResult F → Bool
is_consistent t r = elim r.status [
  | success ↦
      has_value r
      && same_bool r.modbus_written (is_some t.modbus_write)
      && not (is_some r.error_message)
  | write_error ↦
      has_value r && not r.modbus_written && is_some t.modbus_write && is_some r.error_message
  | disabled ↦ not (has_value r) && not r.modbus_written
  | _ ↦ not (has_value r) && not r.modbus_written && is_some r.error_message
]

module _ {F : Type 0} (f : FloatOps F) (x : Xml) where
  -- The number in a reply, where there is one.
  abbrev pub number_in : Option String → Option F
  number_in none = none
  number_in (some raw) = f.parse raw

  abbrev pub value_of : PollTargetConfig F → Reply → Option F
  value_of t (response code http_status body) =
      if is_success code then number_in (parse_response x body t.parse) else none
  value_of t (timed_out e) = none
  value_of t (unreachable e) = none
  value_of t (client_error e) = none
  value_of t (exception e) = none

  -- Whether the write that is configured goes through; where none is, nothing has to.
  abbrev pub write_succeeds : PollTargetConfig F → Turn → Option RegisterWriter → F → Bool
  write_succeeds t turn w value = elim t.modbus_write [
    | none ↦ true
    | some c ↦ elim w [
      | none ↦ false
      | some wr ↦ elim (f.scaled c.datatype value c.scale c.offset) [
        | raised e ↦ false
        | returned v ↦ (write c.address c.datatype v turn.connects turn.wrote wr).0.success
      ]
    ]
  ]

  abbrev pub succeeds : PollTargetConfig F → Turn → Option RegisterWriter → Option F → Bool
  succeeds t turn w none = false
  succeeds t turn w (some v) = write_succeeds t turn w (apply f t.transform v)

  -- What is proved of every end `q` of a poll in which `v` was read.
  abbrev IsRight : PollTargetConfig F → Turn → Option RegisterWriter → Option F → Polled F → Type 0
  IsRight t turn w v q =
      (is_consistent t q.0 ≡ true)
      × (is_success_status q.0.status ≡ succeeds t turn w v)
      × ((v ≡ none) → (q.1 ≡ w) × (q.2 ≡ none))

  write_value-IsRight :
      (t : PollTargetConfig F) (turn : Turn) (w : Option RegisterWriter) (code : ℕ) (raw : String)
      (parsed : F)
      → let value = apply f t.transform parsed in
        IsRight t turn w
          (some parsed)
          (write_value f t turn w (read_result t code raw parsed value) value)
  unfolding write_value
  write_value-IsRight t turn w code raw parsed = ground arith

  use_number-IsRight :
      (t : PollTargetConfig F) (turn : Turn) (w : Option RegisterWriter) (code : ℕ) (raw : String)
      (v : Option F)
      → IsRight t turn w v (use_number f t turn w code raw v)
  unfolding use_number
  use_number-IsRight t turn w code raw none = (refl, refl, λ e. (refl, refl))
  use_number-IsRight t turn w code raw (some v) = write_value-IsRight t turn w code raw v

  use_raw-IsRight :
      (t : PollTargetConfig F) (turn : Turn) (w : Option RegisterWriter) (code : ℕ)
      (o : Option String)
      → IsRight t turn w (number_in o) (use_raw f t turn w code o)
  unfolding use_raw
  use_raw-IsRight t turn w code none = (refl, refl, λ e. (refl, refl))
  use_raw-IsRight t turn w code (some raw) = use_number-IsRight t turn w code raw (f.parse raw)

  use_reply-IsRight :
      (t : PollTargetConfig F) (turn : Turn) (w : Option RegisterWriter) (r : Reply)
      → IsRight t turn w (value_of t r) (use_reply f x t turn w r)
  unfolding use_reply
  use_reply-IsRight t turn w (response code http_status body) = by_code (is_success code)
    where
      by_code :
          (b : Bool)
          → IsRight t turn w (if b then number_in (parse_response x body t.parse) else none) (
              if b
              then use_raw f t turn w code (parse_response x body t.parse)
              else (failed t http_error code http_status, w, none))
      by_code true = use_raw-IsRight t turn w code (parse_response x body t.parse)
      by_code false = (refl, refl, λ e. (refl, refl))
  use_reply-IsRight t turn w (timed_out e) = (refl, refl, λ e. (refl, refl))
  use_reply-IsRight t turn w (unreachable e) = (refl, refl, λ e. (refl, refl))
  use_reply-IsRight t turn w (client_error e) = (refl, refl, λ e. (refl, refl))
  use_reply-IsRight t turn w (exception e) = (refl, refl, λ e. (refl, refl))

  -- The result of every poll is consistent: SUCCESS and WRITE_ERROR come with a value and all other
  -- results without one; SUCCESS has no message, and reports a write exactly where one is configured;
  -- WRITE_ERROR comes only where one is; and every error has a message.
  pub poll_target-is_consistent :
      (s : TargetState F) (connected : Bool) (turn : Turn) (w : Option RegisterWriter)
      → is_consistent s.target (poll_target f x s connected turn w).0 ≡ true
  unfolding poll_target
  poll_target-is_consistent s connected turn w =
      let P = λ (q : Polled F). is_consistent s.target q.0 ≡ true in
      if_intro P (not s.target.enabled) refl
        (if_intro P connected (use_reply-IsRight s.target turn w turn.reply).0 refl)

  -- A poll of an enabled target with a client is a SUCCESS exactly when the reply is a 2xx whose text
  -- is a number, and the write that is configured, if any, goes through with the transformed number.
  pub poll_target-succeeds :
      (s : TargetState F) (turn : Turn) (w : Option RegisterWriter)
      → s.target.enabled ≡ true
      → is_success_status (poll_target f x s true turn w).0.status
        ≡ succeeds s.target turn w (value_of s.target turn.reply)
  unfolding poll_target
  poll_target-succeeds s turn w on =
      if_intro_eq
        (λ (q : Polled F).
          is_success_status q.0.status ≡ succeeds s.target turn w (value_of s.target turn.reply))
        (not s.target.enabled) (λ e. absurd (ground (arith, e, on)))
        (λ e. (use_reply-IsRight s.target turn w turn.reply).1)

  -- Without a number in the reply nothing is written, and the writer stays as it is.
  pub poll_target_silent :
      (s : TargetState F) (connected : Bool) (turn : Turn) (w : Option RegisterWriter)
      → value_of s.target turn.reply ≡ none
      → ((poll_target f x s connected turn w).1 ≡ w)
        × ((poll_target f x s connected turn w).2 ≡ none)
  unfolding poll_target
  poll_target_silent s connected turn w h =
      let P = λ (q : Polled F). (q.1 ≡ w) × (q.2 ≡ none) in
      if_intro P (not s.target.enabled) (refl, refl)
        (if_intro P connected ((use_reply-IsRight s.target turn w turn.reply).2 h) (refl, refl))
