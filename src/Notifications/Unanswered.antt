-- ===== src/Notifications/Unanswered.antt =====
-- Where the response to a control of a notification goes, for
-- src/bms_2030_5_client/subscription/notification_handler.py.
use mathlib.Core.Path.{transport}
use ieee2030_5_cold_client.Prelude.{
  ◌≡◌, refl, ap, String, false, ◌||◌, Option, none, some, List, [], ◌∷◌, if_intro, str_eq,
}
use ieee2030_5_cold_client.Prelude.Int.{pos}
use ieee2030_5_cold_client.Prelude.Text.{is_in}
use ieee2030_5_cold_client.Models.{DerControl}
use ieee2030_5_cold_client.World.{World}
use ieee2030_5_cold_client.Client.State.{ResponseStatus}
use ieee2030_5_cold_client.Client.Response.{reply_target}
use ieee2030_5_cold_client.Notifications.{
  ElementTree, then_put, each, no_base, new_control, local_tag, int_of, interval_child, base_child,
  control_child, parse_der_control, looks_like_der_control, find_control, extract_der_control,
  Sending, send_control_response,
}

-- What is true of an object that was not lost.
Kept : {A : Type 0} → (A → Type 0) → Option A → Type 0
Kept P none = Unit {0}
Kept P (some a) = P a

then_put-Kept :
    {A B : Type 0} (P : B → Type 0) (o : Option A) (f : A → B)
    → ((a : A) → P (f a))
    → Kept P (then_put o f)
unfolding Kept
then_put-Kept P none f h = tt
then_put-Kept P (some a) f h = h a

step-Kept :
    {A : Type 0} (P : A → Type 0) (o : Option A) (f : A → Option A)
    → Kept P o
    → ((a : A) → P a → Kept P (f a))
    → Kept P (elim o [ none ↦ none | some b ↦ f b ])
unfolding Kept
step-Kept P none f k h = tt
step-Kept P (some a) f k h = h a k

each-Kept :
    {E A : Type 0} (P : A → Type 0) (f : E → A → Option A)
    → ((e : E) (a : A) → P a → Kept P (f e a))
    → (es : List E) (a : A) → P a
    → Kept P (each f es a)
unfolding Kept each
each-Kept P f h [] a p = p
each-Kept P f h (e ∷ es) a p = step-Kept P (f e a) (each f es) (h e a p) (each-Kept P f h es)

-- The responses go to the address of the control, and no element of a notification sets one.
Unaddressed : DerControl → Type 0
Unaddressed c = reply_target c ≡ none

new_control-Unaddressed : (object_id : String) → Unaddressed (new_control object_id)
unfolding Unaddressed reply_target
new_control-Unaddressed object_id = refl

module _ {E : Type 0} (x : ElementTree E) where
  control_child-Unaddressed :
      (e : E) (c : DerControl) → Unaddressed c → Kept Unaddressed (control_child x e c)
  unfolding control_child Unaddressed Kept reply_target
  control_child-Unaddressed e c u =
      let tag = local_tag x e in
      if_intro (Kept Unaddressed) (str_eq tag "mRID") u (
        if_intro (Kept Unaddressed) (str_eq tag "description") u (
          if_intro (Kept Unaddressed) (str_eq tag "version")
            (then_put-Kept Unaddressed (int_of x e) (λ n. c) (λ n. u))
            (if_intro (Kept Unaddressed) (str_eq tag "creationTime")
              (then_put-Kept Unaddressed (int_of x e) (λ n. record c { creation_time = n })
                (λ n. u))
              (if_intro (Kept Unaddressed) (str_eq tag "primacy")
                (then_put-Kept Unaddressed (int_of x e) (λ n. record c { primacy = n }) (λ n. u))
                (if_intro (Kept Unaddressed) (str_eq tag "interval")
                  (then_put-Kept Unaddressed
                    (each (interval_child x) (x.children e)
                      (record { duration = pos 0; start = pos 0 }))
                    (λ i. record c { interval = some i }) (λ i. u))
                  (if_intro (Kept Unaddressed) (str_eq tag "randomizeStart")
                    (then_put-Kept Unaddressed (int_of x e)
                      (λ n. record c { randomize_start = some n }) (λ n. u))
                    (if_intro (Kept Unaddressed) (str_eq tag "randomizeDuration")
                      (then_put-Kept Unaddressed (int_of x e)
                        (λ n. record c { randomize_duration = some n }) (λ n. u))
                      (if_intro (Kept Unaddressed) (str_eq tag "DERControlBase")
                        (then_put-Kept Unaddressed (each (base_child x) (x.children e) no_base)
                          (λ b. record c { base = some b }) (λ b. u))
                        u))))))))

  find_control-Unaddressed :
      (object_id : String) (es : List E) → Kept Unaddressed (find_control x object_id es)
  unfolding find_control parse_der_control Kept
  find_control-Unaddressed object_id [] = tt
  find_control-Unaddressed object_id (e ∷ es) =
      let rest = find_control-Unaddressed object_id es in
      if_intro (Kept Unaddressed) (str_eq (local_tag x e) "Resource")
        (if_intro (Kept Unaddressed)
          (is_in "DERControl" (x.xsi_type e) || looks_like_der_control x (x.children e))
          (each-Kept Unaddressed (control_child x) control_child-Unaddressed (x.children e)
            (new_control object_id) (new_control-Unaddressed object_id))
          rest)
        rest

  extract_der_control-Unaddressed :
      (object_id raw_xml : String) → Kept Unaddressed (extract_der_control x object_id raw_xml)
  unfolding extract_der_control Kept
  extract_der_control-Unaddressed object_id raw_xml =
      elim (x.fromstring raw_xml)
        as (λ o.
          Kept Unaddressed
            (elim o [ none ↦ none | some root ↦ find_control x object_id (x.children root) ])) [
              | none ↦ tt
              | some root ↦ find_control-Unaddressed object_id (x.children root)
            ]

  -- A control that was taken from a notification gets no response: `_send_control_response` returns
  -- False for it without a POST and without a count, whatever the document and the status.
  pub send_control_response_never :
      (object_id raw_xml : String) (c : DerControl) (status : ResponseStatus) (s : Sending)
      (w : World)
      → (extract_der_control x object_id raw_xml ≡ some c)
      → (send_control_response status c s w ≡ (false, s, w))
  unfolding send_control_response Unaddressed Kept
  send_control_response_never object_id raw_xml c status s w extracted =
      let target : reply_target c ≡ none =
        transport (ap (Kept Unaddressed) extracted)
          (extract_der_control-Unaddressed object_id raw_xml) in
      rw (send_control_response, target) refl
