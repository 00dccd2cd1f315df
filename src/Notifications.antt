-- ===== src/Notifications.antt =====
-- `NotificationHandler` of src/bms_2030_5_client/subscription/notification_handler.py: the control in a
-- notification, and the response to it.
use ieee2030_5_cold_client.Prelude.{
  ℕ, ◌+◌, String, Bool, true, false, ◌||◌, Option, none, some, List, [], ◌∷◌, if◌then◌else◌, str_eq,
  or_text, Outcome, returned, raised,
}
use ieee2030_5_cold_client.Prelude.Text.{is_in, strip_ns}
use ieee2030_5_cold_client.Prelude.Int.{ℤ, pos}
use ieee2030_5_cold_client.Models.{
  SignedPerCent, PerCent, DateTimeInterval, DerControlBase, DerControl,
}
use ieee2030_5_cold_client.World.{World, post}
use ieee2030_5_cold_client.Client.State.{Response, ResponseStatus}
use ieee2030_5_cold_client.Client.Response.{reply_target, calculate_modes_responded}
pub mod Unanswered

-- ElementTree on the elements `E` of a document, the `type` attribute of an element ("" where it is
-- missing), `int()` and `str.lower`; what raises is none. A negative multiplier is not modelled.
pub record ElementTree (E : Type 0) : Type 0 where
  pub fromstring : String → Option E
  pub children : E → List E
  pub tag : E → String
  pub text : E → Option String
  pub xsi_type : E → String
  pub int : String → Option ℤ
  pub natural : String → Option ℕ
  pub lower : String → String

abbrev pub then_put : {A B : Type 0} → Option A → (A → B) → Option B
then_put none f = none
then_put (some a) f = some (f a)

-- A loop over the elements that sets fields of one object, and may raise.
unfoldable pub each : {E A : Type 0} → (E → A → Option A) → List E → A → Option A
each f [] a = some a
each f (e ∷ es) a = elim (f e a) [ none ↦ none | some b ↦ each f es b ]

abbrev pub no_base : DerControlBase
no_base = record {
  op_mod_fixed_w = none;
  op_mod_fixed_var = none;
  op_mod_max_lim_w = none;
  op_mod_connect = none;
  op_mod_energize = none;
}

-- `DERControl()`.
abbrev pub new_control : String → DerControl
new_control object_id = record {
  object_id = object_id;
  href = none;
  m_rid = none;
  creation_time = pos 0;
  interval = none;
  event_status = none;
  randomize_start = none;
  randomize_duration = none;
  base = none;
  primacy = pos 0;
  reply_to = none;
  response_required = none;
}

module _ {E : Type 0} (x : ElementTree E) where
  abbrev pub local_tag : E → String
  local_tag e = strip_ns (x.tag e)

  -- `int(e.text or "0")`
  abbrev pub int_of : E → Option ℤ
  int_of e = x.int (or_text (x.text e) "0")

  -- `_parse_signed_percent`.
  abbrev pub signed_percent_child : E → SignedPerCent → Option SignedPerCent
  signed_percent_child e p =
      if str_eq (local_tag e) "value"
      then then_put (int_of e) (λ n. record p { value = n })
      else if str_eq (local_tag e) "multiplier"
      then then_put (x.natural (or_text (x.text e) "0")) (λ n. record p { multiplier = n })
      else some p

  abbrev pub parse_signed_percent : E → Option SignedPerCent
  parse_signed_percent e =
      each signed_percent_child (x.children e) (record { value = pos 0; multiplier = 0 })

  -- `_parse_percent`.
  abbrev pub percent_child : E → PerCent → Option PerCent
  percent_child e p =
      if str_eq (local_tag e) "value"
      then then_put (int_of e) (λ n. record p { value = n })
      else some p

  abbrev pub parse_percent : E → Option PerCent
  parse_percent e = each percent_child (x.children e) (record { value = pos 0 })

  abbrev pub interval_child : E → DateTimeInterval → Option DateTimeInterval
  interval_child e i =
      if str_eq (local_tag e) "duration"
      then then_put (int_of e) (λ n. record i { duration = n })
      else if str_eq (local_tag e) "start"
      then then_put (int_of e) (λ n. record i { start = n })
      else some i

  -- `e.text.lower() in ("true", "1")`, which raises on an element without text.
  abbrev pub truth : E → Option Bool
  truth e = then_put (x.text e) (λ s. str_eq (x.lower s) "true" || str_eq (x.lower s) "1")

  -- `rampTms` is read as a number; the model keeps no field for it.
  abbrev pub base_child : E → DerControlBase → Option DerControlBase
  base_child e b =
      if str_eq (local_tag e) "opModFixedW"
      then then_put (parse_signed_percent e) (λ p. record b { op_mod_fixed_w = some p })
      else if str_eq (local_tag e) "opModFixedVar"
      then then_put (parse_signed_percent e) (λ p. record b { op_mod_fixed_var = some p })
      else if str_eq (local_tag e) "opModMaxLimW"
      then then_put (parse_percent e) (λ p. record b { op_mod_max_lim_w = some p })
      else if str_eq (local_tag e) "opModConnect"
      then then_put (truth e) (λ t. record b { op_mod_connect = some t })
      else if str_eq (local_tag e) "opModEnergize"
      then then_put (truth e) (λ t. record b { op_mod_energize = some t })
      else if str_eq (local_tag e) "rampTms"
      then then_put (int_of e) (λ n. b)
      else some b

  -- `_parse_der_control`. `description` and `version` are read; the model keeps no field for them.
  unfoldable pub control_child : E → DerControl → Option DerControl
  control_child e c =
      let tag = local_tag e in
      if str_eq tag "mRID"
      then some (record c { m_rid = x.text e })
      else if str_eq tag "description"
      then some c
      else if str_eq tag "version"
      then then_put (int_of e) (λ n. c)
      else if str_eq tag "creationTime"
      then then_put (int_of e) (λ n. record c { creation_time = n })
      else if str_eq tag "primacy"
      then then_put (int_of e) (λ n. record c { primacy = n })
      else if str_eq tag "interval"
      then then_put
          (each interval_child (x.children e) (record { duration = pos 0; start = pos 0 }))
          (λ i. record c { interval = some i })
      else if str_eq tag "randomizeStart"
      then then_put (int_of e) (λ n. record c { randomize_start = some n })
      else if str_eq tag "randomizeDuration"
      then then_put (int_of e) (λ n. record c { randomize_duration = some n })
      else if str_eq tag "DERControlBase"
      then then_put (each base_child (x.children e) no_base) (λ b. record c { base = some b })
      else some c

  unfoldable pub parse_der_control : String → E → Option DerControl
  parse_der_control object_id e = each control_child (x.children e) (new_control object_id)

  -- `_looks_like_der_control`.
  unfoldable pub looks_like_der_control : List E → Bool
  looks_like_der_control [] = false
  looks_like_der_control (e ∷ es) =
      str_eq (local_tag e) "DERControlBase"
      || str_eq (local_tag e) "interval"
      || looks_like_der_control es

  -- The loop of `_extract_der_control` over the elements of the document.
  unfoldable pub find_control : String → List E → Option DerControl
  find_control object_id [] = none
  find_control object_id (e ∷ es) =
      let rest = find_control object_id es in
      if str_eq (local_tag e) "Resource"
      then if is_in "DERControl" (x.xsi_type e) || looks_like_der_control (x.children e)
        then parse_der_control object_id e
        else rest
      else rest

  unfoldable pub extract_der_control : String → String → Option DerControl
  extract_der_control object_id raw_xml = elim (x.fromstring raw_xml) [
    | none ↦ none
    | some root ↦ find_control object_id (x.children root)
  ]

-- The counters of `_stats` that a response changes, and the responses, the newest first.
pub record Sending : Type 0 where
  pub lfdi : Option String
  pub responses_sent : ℕ
  pub errors : ℕ
  pub posts : List Response

-- `_send_control_response`.
unfoldable pub send_control_response :
    ResponseStatus → DerControl → Sending → World → Bool × Sending × World
unfolding calculate_modes_responded
send_control_response status control s w = elim (reply_target control) [
  | none ↦ (false, s, w)
  | some to ↦
      let response : Response = record {
        reply_to = to;
        end_device_lfdi = or_text s.lfdi "";
        status = status;
        subject = or_text control.m_rid "";
        modes_responded = calculate_modes_responded control;
      } in
      let s' = record s { posts = response ∷ s.posts } in
      let (reply, w') = post w in
      elim reply [
        | returned u ↦ (true, record s' { responses_sent = s'.responses_sent + 1 }, w')
        | raised e ↦ (false, record s' { errors = s'.errors + 1 }, w')
      ]
]
