-- ===== src/Subs/Effects.antt =====
-- What the operations of src/bms_2030_5_client/subs/manager.py do to the dictionary of subscriptions.
use ieee2030_5_cold_client.Prelude.{
  ◌≡◌, refl, ◌∙◌, ap, sym, String, Bool, false, Option, none, some, option_intro, option_intro_eq,
  if◌then◌else◌, arith, eq_iff, str_eq,
}
use ieee2030_5_cold_client.Prelude.Dict.{lookup, lookup-insert}
use ieee2030_5_cold_client.Subs.{TrackedSubscription, Net, Manager}
use ieee2030_5_cold_client.Subs.Lifecycle.{Step, put, with_tracked}
use ieee2030_5_cold_client.Subs.Settled.{Leaves}

-- A subscription, where there is one, is what the operation leaves; the others, the configuration
-- and the mode stay.
abbrev pub changed :
    (TrackedSubscription → Step) → Option TrackedSubscription → Option TrackedSubscription
changed f none = none
changed f (some t) = some (f t).1

put-lookup :
    (k j : String) (m : Manager) (s : Step)
    → Leaves m s.2
    → lookup j (put k s).1.subscriptions
      ≡ (if str_eq k j then some s.1 else lookup j m.subscriptions)
put-lookup k j m (ok, t, m', n) (p, q, r) =
    lookup-insert k j t m'.subscriptions ∙ ap (λ d. if str_eq k j then some t else lookup j d) p

pub with_tracked-lookup :
    (k j : String) (f : TrackedSubscription → Step) (m : Manager) (n : Net)
    → ((t : TrackedSubscription) → Leaves m (f t).2)
    → lookup j (with_tracked k f m n).1.subscriptions
      ≡ (if str_eq k j then changed f (lookup k m.subscriptions) else lookup j m.subscriptions)
unfolding with_tracked
with_tracked-lookup k j f m n h =
    option_intro_eq
      (λ (r : Bool × Manager × Net).
        lookup j r.1.subscriptions
        ≡ (if str_eq k j then changed f (lookup k m.subscriptions) else lookup j m.subscriptions))
      (lookup k m.subscriptions) {n = (false, m, n)} {f = λ t. put k (f t)}
      (λ e. ground (arith, e, eq_iff k j))
      (λ t e.
        put-lookup k j m (f t) (h t)
        ∙ ap (λ o. if str_eq k j then changed f o else lookup j m.subscriptions) (sym e))

abbrev pub SameSetup : Manager → Manager → Type 0
SameSetup m m' = (m'.config ≡ m.config) × (m'.simulation_mode ≡ m.simulation_mode)

put-SameSetup : (k : String) (m : Manager) (s : Step) → Leaves m s.2 → SameSetup m (put k s).1
put-SameSetup k m (ok, t, m', n) (p, q, r) = (q, r)

pub with_tracked-SameSetup :
    (k : String) (f : TrackedSubscription → Step) (m : Manager) (n : Net)
    → ((t : TrackedSubscription) → Leaves m (f t).2)
    → SameSetup m (with_tracked k f m n).1
unfolding with_tracked
with_tracked-SameSetup k f m n h =
    option_intro (λ (r : Bool × Manager × Net). SameSetup m r.1) (lookup k m.subscriptions)
      {n = (false, m, n)} {f = λ t. put k (f t)} (refl, refl) (λ t. put-SameSetup k m (f t) (h t))
