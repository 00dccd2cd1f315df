-- ===== src/Client/Programs.antt =====
-- `_track_program`, `_untrack_program` and `_fetch_default_control` of src/bms_2030_5_client/dera/der_client.py. The GET
-- of a default control is a parameter, as in `Processing`.
use ieee2030_5_cold_client.Prelude.{
  ℕ, String, Bool, true, false, Option, none, some, List, [], ◌∷◌, if◌then◌else◌, nonempty, or_text,
  str_eq, Outcome, returned, raised,
}
use ieee2030_5_cold_client.Prelude.Dict.{Dict, lookup, insert, erase}
use ieee2030_5_cold_client.World.{World, wait}
use ieee2030_5_cold_client.Models.{DerProgram, DefaultDerControl}
use ieee2030_5_cold_client.Client.State.{TrackedProgram, Client, program_id}
use ieee2030_5_cold_client.Client.Conflict.{cancel_tracked}

-- The entry of a program that is tracked already keeps its default control and poll time.
pub updated : DerProgram → Option TrackedProgram → TrackedProgram
updated program none = record {
  program = program;
  primacy = program.primacy;
  last_poll_time = 0;
  default_control = none;
}
updated program (some t) = record t { program = program; primacy = program.primacy }

module _ (get : (at : ℕ) → (href : String) → Outcome (Option DefaultDerControl)) where
  -- A GET that raises leaves the default control as it was; one that gives None clears it.
  unfoldable pub fetched :
      String → TrackedProgram → Outcome (Option DefaultDerControl) → Client → Client
  fetched id t (raised e) c = c
  fetched id t (returned d) c = record c {
    tracked_programs = insert id (record t { default_control = d }) c.tracked_programs;
  }

  unfoldable pub fetch_default_control : String → Client → World → Client × World
  unfolding fetched
  fetch_default_control id c w = elim (lookup id c.tracked_programs) [
    | none ↦ (c, w)
    | some t ↦
        let href = or_text t.program.default_der_control_href "" in
        if nonempty href then (fetched id t (get w.at href) c, wait w) else (c, w)
  ]

  unfoldable pub track_program : DerProgram → Client → World → Client × World
  track_program program c w =
      let id = program_id program in
      let t = updated program (lookup id c.tracked_programs) in
      fetch_default_control id (record c { tracked_programs = insert id t c.tracked_programs }) w

-- `ctrl.program.mRID == tracked.program.mRID`, where two missing mRIDs are equal.
abbrev same_mrid : Option String → Option String → Bool
same_mrid none none = true
same_mrid (some a) (some b) = str_eq a b
same_mrid _ _ = false

pub controls_of : Option String → Dict ℕ → Client → List String
controls_of m [] c = []
controls_of m ((k, r) ∷ d) c =
    let rest = controls_of m d c in
    if same_mrid (c.objects r).program.m_rid m then k ∷ rest else rest

unfoldable pub cancel_each : List String → Client → World → Client × World
cancel_each [] c w = (c, w)
cancel_each (k ∷ ks) c w = let (c₁, w₁) = cancel_tracked k c w in cancel_each ks c₁ w₁

unfoldable pub untrack_program : String → Client → World → Client × World
untrack_program id c w = elim (lookup id c.tracked_programs) [
  | none ↦ (c, w)
  | some t ↦
      let (c₁, w₁) = cancel_each (controls_of t.program.m_rid c.tracked_controls c) c w in
      (record c₁ { tracked_programs = erase id c₁.tracked_programs }, w₁)
]
