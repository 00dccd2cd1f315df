-- ===== src/Handler/Cancelling.antt =====
-- `cancel_control` of src/bms_2030_5_client/dera/handler.py: when it refuses.
use ieee2030_5_cold_client.Prelude.{
  ℕ, ◌≡◌, ◌↔◌, refl, Bool, false, Option, none, some, String, arith, Bool-cases, inl, inr,
}
use ieee2030_5_cold_client.Prelude.Dict.{lookup}
use ieee2030_5_cold_client.World.{World}
use ieee2030_5_cold_client.Handler.{
  DerControlEvent, Handler, can_cancel, cancel_found, cancel_control,
}

abbrev IsHeld : Option ℕ → Handler → Type 0
IsHeld o h = (r : ℕ) → o ≡ some r → can_cancel (h.objects r).status ≡ false

cancel_found_iff :
    (same : DerControlEvent → DerControlEvent → Bool) (o : Option ℕ) (h : Handler) (w : World)
    → IsHeld o h ↔ (cancel_found same o h w ≡ (false, h, w))
unfolding cancel_found
cancel_found_iff same none h w = (λ held. refl, λ e r found. cc)
cancel_found_iff same (some r) h w = (
  λ held. rw (held r refl) refl,
  λ e r' found. elim (Bool-cases (can_cancel (h.objects r).status)) [
    | inl can ↦ ground (arith, e, can)
    | inr cannot ↦ ground (arith, found, cannot)
  ],
)

-- `cancel_control` returns False and changes nothing exactly when the id is not tracked or the event
-- under it is in no status that can be cancelled; else it returns True.
pub cancel_control_refuses_iff :
    (same : DerControlEvent → DerControlEvent → Bool) (id : String) (h : Handler) (w : World)
    → ((r : ℕ) → lookup id h.events ≡ some r → can_cancel (h.objects r).status ≡ false)
      ↔ (cancel_control same id h w ≡ (false, h, w))
unfolding cancel_control
cancel_control_refuses_iff same id h w = cancel_found_iff same (lookup id h.events) h w
