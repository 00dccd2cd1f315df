-- ===== src/Client/Processing/Durations.antt =====
-- A control that has no end, in `_process_control` of src/bms_2030_5_client/dera/der_client.py.
use ieee2030_5_cold_client.Prelude.{ℕ, ◌≡◌, Bool, none, some, if◌then◌else◌, ◌&&◌, arith}
use ieee2030_5_cold_client.Prelude.Int.{ℤ, pos, ltb_ℤ, leb_ℤ, int_laws}
use ieee2030_5_cold_client.World.{World}
use ieee2030_5_cold_client.Models.{DateTimeInterval}
use ieee2030_5_cold_client.Handler.{scheduled, cancelled, DerControlEvent}
use ieee2030_5_cold_client.Client.State.{
  event_received, event_expired, TrackedControl, Client, change, set_status,
}
use ieee2030_5_cold_client.Client.Response.{report}
use ieee2030_5_cold_client.Client.Processing.{effective_start, effective_end, place}

starts :
    (i : DateTimeInterval) (t : TrackedControl)
    → t.randomized_start ≡ none
    → effective_start i t ≡ i.start
unfolding effective_start
starts i t e = rw e (grind (arith, int_laws))

ends :
    (i : DateTimeInterval) (t : TrackedControl)
    → i.duration ≡ pos 0
    → t.randomized_duration ≡ none
    → effective_end i t ≡ i.start
unfolding effective_end
ends i t d e = rw (d, e) (grind (arith, int_laws))

-- The three ways of `place`, when the control starts and ends at once.
if_tests {ℓ} :
    {A : Type ℓ} (a now s e : ℤ) (x y z : A)
    → s ≡ a
    → e ≡ a
    → (if leb_ℤ s now && ltb_ℤ now e then x else if ltb_ℤ now s then y else z)
      ≡ (if leb_ℤ a now then z else y)
if_tests a now s e x y z p q = rw (p, q) (ground arith)

-- A new control whose interval has duration 0 (in `DateTimeInterval`: without an end) and whose
-- duration is not randomized is never executed on arrival: once its time has come it is cancelled
-- as expired, before that it is scheduled.
pub place_without_end :
    (same : DerControlEvent → DerControlEvent → Bool) (i : DateTimeInterval) (r : ℕ) (c : Client)
    (w : World)
    → i.duration ≡ pos 0
    → (c.objects r).randomized_duration ≡ none
    → (c.objects r).randomized_start ≡ none
    → place same (some i) r c w ≡ (
        if leb_ℤ i.start (pos w.now)
        then report r event_expired (change r (set_status cancelled) c) w
        else (let (c₁, w₁) = report r event_received c w in
            (change r (set_status scheduled) c₁, w₁)))
unfolding place effective_start effective_end
place_without_end same i r c w d rd rs =
    if_tests i.start (pos w.now) (effective_start i (c.objects r)) (effective_end i (c.objects r)) _
      _ _ (starts i (c.objects r) rs) (ends i (c.objects r) d rd)
