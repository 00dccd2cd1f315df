-- ===== src/Client/Response.antt =====
-- `_send_response` of src/bms_2030_5_client/dera/der_client.py: a report on a control, posted with retries, and its
-- repetition on a later poll.
use Prim.Native.Nat.{bit_or}
use Prim.Native.String.{◌++◌ as append}
use ieee2030_5_cold_client.Prelude.{
  ℕ, zero, suc, ◌+◌, ◌/◌, ◌%◌, String, Bool, true, false, Option, none, some, [], ◌∷◌,
  if◌then◌else◌, ◌==◌, nonempty, or_text, is_some, Outcome, returned, raised,
}
use ieee2030_5_cold_client.Prelude.Dict.{Dict}
use ieee2030_5_cold_client.World.{World, wait, post}
use ieee2030_5_cold_client.Models.{DerControl, DerControlBase}
use ieee2030_5_cold_client.Client.State.{
  ResponseStatus, event_received, event_started, Response, TrackedControl, Client, change,
}

abbrev flag : Bool → ℕ → ℕ
flag true bit = bit
flag false bit = 0

-- `_calculate_modes_responded`. The two power factor modes are no fields of `DERControlBase`, so their
-- tests fail.
base_bitmap : DerControlBase → ℕ
base_bitmap b =
    bit_or
      (bit_or
        (bit_or
          (bit_or (flag (is_some b.op_mod_connect) 0x1) (flag (is_some b.op_mod_energize) 0x2))
          (flag (is_some b.op_mod_fixed_var) 0x10))
        (flag (is_some b.op_mod_fixed_w) 0x20))
      (flag (is_some b.op_mod_max_lim_w) 0x2000)

unfoldable pub calculate_modes_responded : DerControl → ℕ
unfolding base_bitmap
calculate_modes_responded control = elim control.base [ none ↦ 0 | some b ↦ base_bitmap b ]

-- `response_required & 0x01`, `0x02` and `0x04`, where a missing mask is 0x07.
unfoldable pub should_send : DerControl → ResponseStatus → Bool
should_send control status =
    let required : ℕ = elim control.response_required [ none ↦ 7 | some n ↦ n ] in
    elim status [
      | event_received ↦ required % 2 == 1
      | event_started ↦ required / 2 % 2 == 1
      | _ ↦ required / 4 % 2 == 1
    ]

-- `replyTo`, or else the control's own address with "/rsp".
unfoldable pub reply_target : DerControl → Option String
reply_target control =
    let to = or_text control.reply_to "" in
    let href = or_text control.href "" in
    if nonempty to then some to else if nonempty href then some (append href "/rsp") else none

unfoldable pub make_response : String → ResponseStatus → DerControl → Client → Response
unfolding calculate_modes_responded
make_response to status control c = record {
  reply_to = to;
  end_device_lfdi = or_text c.lfdi "";
  status = status;
  subject = or_text control.m_rid "";
  modes_responded = calculate_modes_responded control;
}

abbrev pub delivered : TrackedControl → TrackedControl
delivered t = record t { pending_response = none; response_retry_count = 0; response_sent = true }

abbrev pub not_delivered : ℕ → ℕ → TrackedControl → TrackedControl
not_delivered count now t = record t { response_retry_count = count; last_response_attempt = now }

abbrev is_returned : Outcome (Unit {0}) → Bool
is_returned (returned u) = true
is_returned (raised e) = false

abbrev pub undelivered : ResponseStatus → TrackedControl → TrackedControl
undelivered s t = record t { pending_response = some s }

-- The loop of POSTs, with `left` attempts to come and `done` made; the result says whether one of
-- them went through. The sleep is before each attempt but the first.
unfoldable pub post_loop : ℕ → ℕ → Response → ℕ → Client → World → Bool × Client × World
post_loop zero done x r c w = (false, c, w)
post_loop (suc left) done x r c w =
    let (reply, w₁) = post w in
    let sent = record c { posts = x ∷ c.posts } in
    let failed = change r (not_delivered (done + 1) w₁.now) sent in
    let again = post_loop left (done + 1) x r failed (wait w₁) in
    let pending = change r (undelivered x.status) failed in
    if is_returned reply
    then (true, change r delivered (record sent { responses_sent = sent.responses_sent + 1 }), w₁)
    else if left == 0
    then (false, pending, w₁)
    else again

-- The part after `should_send`, by the address to reply to.
unfoldable pub send_to : Option String → ResponseStatus → ℕ → Client → World → Bool × Client × World
send_to none status r c w = (
  true,
  change r (λ t. record t { response_sent = true })
      (record c { responses_sent = c.responses_sent + 1 }),
  w,
)
send_to (some to) status r c w =
    post_loop c.response_max_retries 0 (make_response to status (c.objects r).control c) r c w

unfoldable pub send_response : ℕ → ResponseStatus → Client → World → Bool × Client × World
send_response r status c w =
    if should_send (c.objects r).control status
    then send_to (reply_target (c.objects r).control) status r c w
    else (true, c, w)

-- The client and the world after a report whose result the code drops.
unfoldable pub report : ℕ → ResponseStatus → Client → World → Client × World
report r status c w = let (_, c', w') = send_response r status c w in (c', w')

unfoldable pub retry_all : Dict ℕ → Client → World → Client × World
retry_all [] c w = (c, w)
retry_all ((_, r) ∷ d) c w =
    let next : Client × World = elim (c.objects r).pending_response [
      | none ↦ (c, w)
      | some s ↦ report r s c w
    ] in
    retry_all d next.0 next.1

unfoldable pub retry_pending_responses : Client → World → Client × World
retry_pending_responses c w = retry_all c.tracked_controls c w
