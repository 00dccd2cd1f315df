-- ===== src/Client/Calm/Once.antt =====
-- `_process_control` of src/bms_2030_5_client/dera/der_client.py takes up each control once, by its id.
use ieee2030_5_cold_client.Prelude.{◌≡◌, refl, Bool, true, false, Bool-cases, inl, inr}
use ieee2030_5_cold_client.World.{World}
use ieee2030_5_cold_client.Models.{DerControl, DerProgram}
use ieee2030_5_cold_client.Handler.{DerControlEvent}
use ieee2030_5_cold_client.Client.State.{Client, control_id, mem, mem-keep_last}
use ieee2030_5_cold_client.Client.Processing.{
  randomized_start, randomized_duration, track, server_cancelled, place, process_control,
}
use ieee2030_5_cold_client.Client.Calm.{IsCalm}
use ieee2030_5_cold_client.Client.Calm.Polling.{place-IsCalm, track-IsCalm}

module _ (same : DerControlEvent → DerControlEvent → Bool) where
  known_after :
      (control : DerControl) (program : DerProgram) (c : Client) (w : World)
      → IsCalm c
      → server_cancelled control ≡ false
      → mem (control_id control) (process_control same control program c w).0.processed ≡ true
  unfolding process_control
  known_after control program c w calm plain =
      elim (Bool-cases (mem (control_id control) c.processed)) [
        | inl known ↦ rw (known, plain) known
        | inr fresh ↦
            let (start, w₁) = randomized_start c.enable_randomization control w in
            let (duration, w₂) = randomized_duration c.enable_randomization control w₁ in
            let (r, c₁) = track control program start duration c in
            let calm₁ = track-IsCalm control program start duration c calm in
            let placed = place-IsCalm same control.interval r c₁ w₂ calm₁ in
            let c₂ = (place same control.interval r c₁ w₂).0 in
            rw fresh (
              mem-keep_last c₂.processed_event_retention (control_id control) c₂.processed placed.2)
      ]

  known_again :
      (control : DerControl) (program : DerProgram) (c : Client) (w : World)
      → mem (control_id control) c.processed ≡ true
      → server_cancelled control ≡ false
      → process_control same control program c w ≡ (c, w)
  unfolding process_control
  known_again control program c w known plain = rw (known, plain) refl

  -- When a calm client has processed a control, and the next thing that it processes is a control of
  -- the same id, under any program and in any world, then the second one changes nothing and sends
  -- nothing, provided that the server has cancelled neither of the two.
  pub process_control_once :
      (control control' : DerControl) (program program' : DerProgram) (c : Client) (w w' : World)
      → IsCalm c
      → server_cancelled control ≡ false
      → server_cancelled control' ≡ false
      → control_id control' ≡ control_id control
      → process_control same control' program' (process_control same control program c w).0 w'
        ≡ ((process_control same control program c w).0, w')
  process_control_once control control' program program' c w w' calm plain plain' id =
      known_again control' program' (process_control same control program c w).0 w'
        (rw id (known_after control program c w calm plain)) plain'
