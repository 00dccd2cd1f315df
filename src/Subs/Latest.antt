-- ===== src/Subs/Latest.antt =====
-- The configurations and the subscriptions in the loops of `reload` of src/bms_2030_5_client/subs/manager.py.
use ieee2030_5_cold_client.Prelude.{
  ◌≡◌, refl, ◌∙◌, ap, sym, String, Bool, true, false, Option, none, some, List, [], ◌∷◌,
  if◌then◌else◌, if_intro, option_intro_eq, arith, eq_iff, str_eq, Option-cases, inl, inr,
  Bool-cases,
}
use ieee2030_5_cold_client.Prelude.Dict.{Dict, lookup, lookup-insert}
use ieee2030_5_cold_client.Subs.{SubscriptionConfig, TrackedSubscription, Net, Manager, track}
use ieee2030_5_cold_client.Subs.Lifecycle.{add_one, add_each, reconcile_one, reconcile}
use ieee2030_5_cold_client.Subs.Refine.{
  View, view, view_of, turned, reconcile_one-view, reconcile_one-mode,
}

-- The last configuration with an id.
unfoldable pub latest : String → List SubscriptionConfig → Option SubscriptionConfig
latest k [] = none
latest k (c ∷ cs) = elim (latest k cs) [
  | some d ↦ some d
  | none ↦ if str_eq c.id k then some c else none
]

-- The configurations, followed exactly as they say.
abbrev pub followed : Option SubscriptionConfig → View
followed none = none
followed (some c) = some (c, c.enabled)

abbrev added_view : SubscriptionConfig → View → View
added_view c none = some (c, false)
added_view c (some (d, a)) = some (c, a)

unfoldable pub all_added : String → List SubscriptionConfig → View → View
all_added k [] v = v
all_added k (c ∷ cs) v = all_added k cs (if str_eq c.id k then added_view c v else v)

unfoldable pub all_turned : String → List SubscriptionConfig → View → View
all_turned k [] v = v
all_turned k (c ∷ cs) v = all_turned k cs (if str_eq c.id k then turned c.enabled v else v)

pub reconcile-view :
    (cs : List SubscriptionConfig) (m : Manager) (n : Net) (j : String)
    → m.simulation_mode ≡ true
    → view_of (reconcile cs m n).0 j ≡ all_turned j cs (view_of m j)
unfolding reconcile all_turned
reconcile-view [] m n j h = refl
reconcile-view (c ∷ cs) m n j h =
    let r = reconcile_one c m n in
    reconcile-view cs r.0 r.1 j ((reconcile_one-mode c m n).1 ∙ h)
    ∙ ap (all_turned j cs) (reconcile_one-view c m n j h)

inserted_view :
    (c : SubscriptionConfig) (j : String) (t : TrackedSubscription) (d : Dict TrackedSubscription)
    → view (some t) ≡ added_view c (view (lookup c.id d))
    → view (if str_eq c.id j then some t else lookup j d)
      ≡ (if str_eq c.id j then added_view c (view (lookup j d)) else view (lookup j d))
inserted_view c j t d h = elim (Bool-cases (str_eq c.id j)) [
  | inl e ↦ let q = (eq_iff c.id j).0 e in cc (e, q, h)
  | inr e ↦ cc e
]

add_one-view :
    (c : SubscriptionConfig) (d : Dict TrackedSubscription) (j : String)
    → view (lookup j (add_one c d))
      ≡ (if str_eq c.id j then added_view c (view (lookup j d)) else view (lookup j d))
add_one-view c d j =
    let P = λ (e : Dict TrackedSubscription).
      view (lookup j e)
      ≡ (if str_eq c.id j then added_view c (view (lookup j d)) else view (lookup j d)) in
    option_intro_eq P (lookup c.id d)
      (λ e.
        ap view (lookup-insert c.id j (track c) d)
        ∙ inserted_view c j (track c) d (ap (λ o. added_view c (view o)) (sym e)))
      (λ t e.
        ap view (lookup-insert c.id j (record t { config = c }) d)
        ∙ inserted_view c j (record t { config = c }) d (ap (λ o. added_view c (view o)) (sym e)))

pub add_each-view :
    (cs : List SubscriptionConfig) (d : Dict TrackedSubscription) (j : String)
    → view (lookup j (add_each cs d)) ≡ all_added j cs (view (lookup j d))
unfolding add_each all_added
add_each-view [] d j = refl
add_each-view (c ∷ cs) d j =
    add_each-view cs (add_one c d) j ∙ ap (all_added j cs) (add_one-view c d j)

some_inj : (a b : SubscriptionConfig) → some a ≡ some b → a ≡ b
some_inj a b h = cc h

latest_nil : (k : String) (c : SubscriptionConfig) → latest k [] ≡ some c → ⊥
unfolding latest
latest_nil k c h = absurd (ground (arith, h))

latest_here :
    (k : String) (d : SubscriptionConfig) (cs : List SubscriptionConfig) (c : SubscriptionConfig)
    → latest k cs ≡ none
    → latest k (d ∷ cs) ≡ some c
    → (str_eq d.id k ≡ true) × (d ≡ c)
unfolding latest
latest_here k d cs c e h = elim (Bool-cases (str_eq d.id k)) [
  | inl b ↦ (b, some_inj d c (ground (arith, e, h, b)))
  | inr b ↦ absurd (ground (arith, e, h, b))
]

latest_later :
    (k : String) (d : SubscriptionConfig) (cs : List SubscriptionConfig) (c x : SubscriptionConfig)
    → latest k cs ≡ some x
    → latest k (d ∷ cs) ≡ some c
    → latest k cs ≡ some c
unfolding latest
latest_later k d cs c x e h = ground (arith, e, h)

pub latest-none :
    (k : String) (d : SubscriptionConfig) (cs : List SubscriptionConfig)
    → latest k (d ∷ cs) ≡ none
    → (latest k cs ≡ none) × (str_eq d.id k ≡ false)
unfolding latest
latest-none k d cs h = ground (arith, h)

added_has : (c : SubscriptionConfig) (v : View) → (a : Bool) × (added_view c v ≡ some (c, a))
added_has c none = (false, refl)
added_has c (some (d, a)) = (a, refl)

pub all_added-none :
    (k : String) (cs : List SubscriptionConfig) (v : View)
    → latest k cs ≡ none
    → all_added k cs v ≡ v
unfolding all_added
all_added-none k [] v h = refl
all_added-none k (d ∷ cs) v h =
    let (later, here) = latest-none k d cs h in
    ap (λ b. all_added k cs (if b then added_view d v else v)) here ∙ all_added-none k cs v later

pub all_turned-none :
    (k : String) (cs : List SubscriptionConfig) (v : View)
    → latest k cs ≡ none
    → all_turned k cs v ≡ v
unfolding all_turned
all_turned-none k [] v h = refl
all_turned-none k (d ∷ cs) v h =
    let (later, here) = latest-none k d cs h in
    ap (λ b. all_turned k cs (if b then turned d.enabled v else v)) here
    ∙ all_turned-none k cs v later

pub all_added-latest :
    (k : String) (cs : List SubscriptionConfig) (v : View) (c : SubscriptionConfig)
    → latest k cs ≡ some c
    → (a : Bool) × (all_added k cs v ≡ some (c, a))
unfolding all_added
all_added-latest k [] v c h = absurd (latest_nil k c h)
all_added-latest k (d ∷ cs) v c h = elim (Option-cases (latest k cs)) [
  | inl e ↦
      let (here, same) = latest_here k d cs c e h in
      let (a, has) = added_has d v in
      (
        a,
        ap (λ b. all_added k cs (if b then added_view d v else v)) here
            ∙ all_added-none k cs (added_view d v) e
            ∙ has
            ∙ ap (λ x. some (x, a)) same,
      )
  | inr (x, e) ↦
      all_added-latest k cs (if str_eq d.id k then added_view d v else v) c
        (latest_later k d cs c x e h)
]

pub all_turned-latest :
    (k : String) (cs : List SubscriptionConfig) (x c : SubscriptionConfig) (a : Bool)
    → latest k cs ≡ some c
    → all_turned k cs (some (x, a)) ≡ some (x, c.enabled)
unfolding all_turned
all_turned-latest k [] x c a h = absurd (latest_nil k c h)
all_turned-latest k (d ∷ cs) x c a h = elim (Option-cases (latest k cs)) [
  | inl e ↦
      let (here, same) = latest_here k d cs c e h in
      ap (λ b. all_turned k cs (if b then some (x, d.enabled) else some (x, a))) here
      ∙ all_turned-none k cs (some (x, d.enabled)) e
      ∙ ap (λ y. some (x, y.enabled)) same
  | inr (y, e) ↦
      let later = latest_later k d cs c y e h in
      if_intro (λ (v : View). all_turned k cs v ≡ some (x, c.enabled)) (str_eq d.id k)
        (all_turned-latest k cs x c d.enabled later) (all_turned-latest k cs x c a later)
]
