-- ===== src/Client/Conflict/Winning.antt =====
-- `_resolve_conflict` of src/bms_2030_5_client/dera/der_client.py: what a new control that wins has displaced.
use ieee2030_5_cold_client.Prelude.{
  ℕ, ◌≡◌, refl, Bool, true, false, some, List, [], ◌∷◌, String, arith, if_intro, option_intro,
  option_intro_eq, ◌∙◌, option_intro_eq,
}
use ieee2030_5_cold_client.Prelude.Int.{int_laws}
use ieee2030_5_cold_client.Prelude.Lists.{All}
use ieee2030_5_cold_client.Prelude.Dict.{Dict, lookup}
use ieee2030_5_cold_client.World.{World}
use ieee2030_5_cold_client.Handler.{superseded}
use ieee2030_5_cold_client.Client.State.{
  event_superseded, TrackedControl, Client, change, set_status, modes,
}
use ieee2030_5_cold_client.Client.Response.{report}
use ieee2030_5_cold_client.Client.Conflict.{keeps_mode, resolve_modes, resolve_conflict}
use ieee2030_5_cold_client.Client.Calm.Reports.{report-SameControls}

-- Of two controls at least one keeps the mode against the other, and both do only when their
-- primacies and their creation times agree: who wins does not depend on which came first, but for
-- such ties.
pub keeps_mode_iff :
    (a b : TrackedControl)
    → ((keeps_mode a b ≡ false) → (keeps_mode b a ≡ true))
      × ((keeps_mode a b ≡ true)
          → (keeps_mode b a ≡ true)
          → (a.primacy ≡ b.primacy) × (a.control.creation_time ≡ b.control.creation_time))
unfolding keeps_mode
keeps_mode_iff a b = (λ h. grind (arith, int_laws), λ h k. grind (arith, int_laws))

abbrev IsSuperseded : ℕ → Client → Type 0
IsSuperseded e c = (c.objects e).status ≡ superseded

supersede-IsSuperseded :
    (k e : ℕ) (c : Client) (w : World)
    → IsSuperseded k c
    → IsSuperseded k (report e event_superseded (change e (set_status superseded) c) w).0
supersede-IsSuperseded k e c w h =
    rw ((report-SameControls e event_superseded (change e (set_status superseded) c) w).0 k)
      (ground (arith, h))

-- A superseded control stays so.
resolve_modes-IsSuperseded :
    (k : ℕ) (ms : List String) (r : ℕ) (c : Client) (w : World)
    → IsSuperseded k c
    → IsSuperseded k (resolve_modes ms r c w).1
unfolding resolve_modes
resolve_modes-IsSuperseded k [] r c w h = h
resolve_modes-IsSuperseded k (m ∷ ms) r c w h =
    option_intro (λ (t : Bool × Client × World). IsSuperseded k t.1) (lookup m c.active_by_mode)
      (resolve_modes-IsSuperseded k ms r c w h)
      (λ e.
        if_intro (λ (t : Bool × Client × World). IsSuperseded k t.1)
          (keeps_mode (c.objects e) (c.objects r)) h
          (resolve_modes-IsSuperseded k ms r _ _ (supersede-IsSuperseded k e c w h)))

abbrev pub Displaced : Dict ℕ → List String → Client → Type 0
Displaced d ms c = All (λ m. (e : ℕ) → lookup m d ≡ some e → IsSuperseded e c) ms

abbrev Winning : Dict ℕ → List String → Bool × Client × World → Type 0
Winning d ms t = (t.0 ≡ false) → Displaced d ms t.1

resolve_modes-Displaced :
    (d : Dict ℕ) (ms : List String) (r : ℕ) (c : Client) (w : World)
    → c.active_by_mode ≡ d
    → Winning d ms (resolve_modes ms r c w)
unfolding resolve_modes
resolve_modes-Displaced d [] r c w same = λ won. tt
resolve_modes-Displaced d (m ∷ ms) r c w same =
    option_intro_eq (Winning d (m ∷ ms)) (lookup m c.active_by_mode)
      (λ free won. (λ e held. cc, resolve_modes-Displaced d ms r c w same won))
      (λ e held.
        let superseded_now = change e (set_status superseded) c in
        let (c₁, w₁) = report e event_superseded superseded_now w in
        let (status, _, _, _, modes_same, _, _) =
          report-SameControls e event_superseded superseded_now w in
        if_intro (Winning d (m ∷ ms)) (keeps_mode (c.objects e) (c.objects r))
          (λ won. absurd (ground (arith, won)))
          (λ won. (
            λ e' held'.
                resolve_modes-IsSuperseded e' ms r c₁ w₁
                  (ground (arith, status e', held, held', same)),
            resolve_modes-Displaced d ms r c₁ w₁ (modes_same ∙ same) won,
          )))

-- When a new control is not superseded, each control that held one of its modes is superseded.
pub resolve_conflict-Displaced :
    (r : ℕ) (c : Client) (w : World)
    → (resolve_conflict r c w).0 ≡ false
    → Displaced c.active_by_mode (modes (c.objects r).control) (resolve_conflict r c w).1
unfolding resolve_conflict
resolve_conflict-Displaced r c w won =
    resolve_modes-Displaced c.active_by_mode (modes (c.objects r).control) r c w refl won
