-- ===== src/Tests/Clients.antt =====
-- The theorems on src/bms_2030_5_client/dera/der_client.py at a concrete client.
use ieee2030_5_cold_client.Prelude.{
  ℕ, ◌≡◌, refl, String, Bool, true, false, Option, none, some, List, [], ◌∷◌, arith, Outcome,
  returned,
}
use ieee2030_5_cold_client.Prelude.Int.{pos}
use ieee2030_5_cold_client.Prelude.Dict.{lookup}
use ieee2030_5_cold_client.Models.{DateTimeInterval, DerControl, DerProgram, DefaultDerControl}
use ieee2030_5_cold_client.Handler.{DerControlEvent}
use ieee2030_5_cold_client.Client.State.{modes, base_modes}
use ieee2030_5_cold_client.Client.Conflict.{keeps_mode, resolve_modes, resolve_conflict}
use ieee2030_5_cold_client.Client.Conflict.Winning.{
  keeps_mode_iff, Displaced, resolve_conflict-Displaced,
}
use ieee2030_5_cold_client.Client.Processing.{server_cancelled, process_control}
use ieee2030_5_cold_client.Client.Scheduling.{schedule_pass}
use ieee2030_5_cold_client.Client.Calm.{IsCalm}
use ieee2030_5_cold_client.Client.Calm.Steps.{at_start, after_pass, reachable-IsCalm}
use ieee2030_5_cold_client.Client.Calm.Once.{process_control_once}
use ieee2030_5_cold_client.Tests.{world, control, program, tracked, urgent, client}

abbrev never : DerControlEvent → DerControlEvent → Bool
never a b = false

abbrev same_default : DefaultDerControl → DefaultDerControl → Bool
same_default a b = true

abbrev same_program : DerProgram → DerProgram → Bool
same_program a b = true

abbrev get_controls : (at : ℕ) → (href : String) → Outcome (Option (List DerControl))
get_controls at href = returned (some (control ∷ []))

abbrev get_default : (at : ℕ) → (href : String) → Outcome (Option DefaultDerControl)
get_default at href = returned none

client-IsCalm : IsCalm client
client-IsCalm = (λ r. ground arith, λ a e. ground (arith, e), omega arith, omega arith)

reachable-IsCalm_example : IsCalm (schedule_pass never client world).0
reachable-IsCalm_example =
    reachable-IsCalm never same_default same_program get_controls get_default client
      (schedule_pass never client world).0 client-IsCalm (after_pass client world at_start)

process_control_once_example :
    process_control never control program
      (process_control never control program client world).0
      world
    ≡ ((process_control never control program client world).0, world)
unfolding server_cancelled
process_control_once_example =
    process_control_once never control control program program client world world client-IsCalm refl
      refl refl

urgent_wins : (resolve_conflict 1 client world).0 ≡ false
unfolding resolve_conflict resolve_modes modes base_modes keeps_mode lookup
urgent_wins = refl

resolve_conflict-Displaced_example :
    Displaced (("opModFixedW", 0) ∷ []) (modes control) (resolve_conflict 1 client world).1
resolve_conflict-Displaced_example = resolve_conflict-Displaced 1 client world urgent_wins

keeps_mode_iff_example :
    ((keeps_mode tracked urgent ≡ false) → (keeps_mode urgent tracked ≡ true))
    × ((keeps_mode tracked urgent ≡ true)
        → (keeps_mode urgent tracked ≡ true)
        → (tracked.primacy ≡ urgent.primacy) × (control.creation_time ≡ control.creation_time))
keeps_mode_iff_example = keeps_mode_iff tracked urgent

abbrev past : DateTimeInterval
past = record { duration = pos 10; start = pos 900 }

abbrev endless : DateTimeInterval
endless = record { duration = pos 0; start = pos 950 }
