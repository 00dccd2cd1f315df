-- ===== src/Subs/Reload.antt =====
-- The whole of `reload` of src/bms_2030_5_client/subs/manager.py.
use ieee2030_5_cold_client.Prelude.{
  ◌≡◌, refl, ◌∙◌, ap, sym, String, Bool, true, false, none, some, List, [], ◌∷◌, ◌&&◌, ◌||◌, not,
  if◌then◌else◌, arith, eq_iff, str_eq, Option-cases, Bool-cases, inl, inr,
}
use ieee2030_5_cold_client.Prelude.Dict.{Dict, lookup, erase, lookup-erase}
use ieee2030_5_cold_client.Subs.{
  SubscriptionConfig, RuntimeConfig, TrackedSubscription, Net, Manager, mem,
}
use ieee2030_5_cold_client.Subs.Lifecycle.{
  disable_tracked, disable, keys, remove_each, add_each, reload, ids, missing,
}
use ieee2030_5_cold_client.Subs.Settled.{disable_tracked-Leaves}
use ieee2030_5_cold_client.Subs.Effects.{SameSetup, with_tracked-SameSetup}
use ieee2030_5_cold_client.Subs.Refine.{View, view, view_of, disable-view}
use ieee2030_5_cold_client.Subs.Latest.{
  latest, followed, all_added, all_turned, reconcile-view, add_each-view, latest-none,
  all_added-none, all_turned-none, all_added-latest, all_turned-latest,
}

disable-mode : (k : String) (m : Manager) (n : Net) → SameSetup m (disable k m n).1
unfolding disable
disable-mode k m n =
    with_tracked-SameSetup k (λ t. disable_tracked t m n) m n (λ t. disable_tracked-Leaves t m n)

remove_each-mode :
    (ks : List String) (m : Manager) (n : Net)
    → (remove_each ks m n).0.simulation_mode ≡ m.simulation_mode
unfolding remove_each
remove_each-mode [] m n = refl
remove_each-mode (k ∷ ks) m n =
    let d = disable k m n in
    remove_each-mode ks (record d.1 { subscriptions = erase k d.1.subscriptions }) d.2
    ∙ (disable-mode k m n).1

erased_view :
    (k j : String) (m : Manager) (n : Net)
    → view (lookup j (erase k (disable k m n).1.subscriptions))
      ≡ (if str_eq k j then none else view_of m j)
erased_view k j m n =
    let gone = lookup-erase k j (disable k m n).1.subscriptions in
    let off = disable-view k j m n in
    elim (Bool-cases (str_eq k j)) [ inl e ↦ cc (e, gone) | inr e ↦ cc (e, gone, off) ]

remove_each-view :
    (ks : List String) (m : Manager) (n : Net) (j : String)
    → view_of (remove_each ks m n).0 j ≡ (if mem j ks then none else view_of m j)
unfolding remove_each
remove_each-view [] m n j = refl
remove_each-view (k ∷ ks) m n j =
    let d = disable k m n in
    remove_each-view ks (record d.1 { subscriptions = erase k d.1.subscriptions }) d.2 j
    ∙ ap (λ (v : View). if mem j ks then none else v) (erased_view k j m n)
    ∙ either (str_eq k j) (mem j ks) (view_of m j)
  where
    either :
        (a b : Bool) (v : View)
        → (if b then none else if a then none else v) ≡ (if a || b then none else v)
    either true true v = refl
    either true false v = refl
    either false b v = refl

mem-missing :
    (j : String) (ks new : List String) → mem j (missing ks new) ≡ (mem j ks && not (mem j new))
mem-missing j [] new = refl
mem-missing j (k ∷ ks) new = let ih = mem-missing j ks new in ground (arith, ih, eq_iff k j)

or_false : (a b : Bool) → (a || b) ≡ false → (a ≡ false) × (b ≡ false)
or_false false b h = (refl, h)
or_false true b h = absurd (ground (arith, h))

mem-keys : (j : String) (d : Dict TrackedSubscription) → mem j (keys d) ≡ false → lookup j d ≡ none
unfolding lookup
mem-keys j [] h = refl
mem-keys j ((k, t) ∷ d) h =
    let (other, rest) = or_false (str_eq k j) (mem j (keys d)) h in
    ap (λ b. if b then some t else lookup j d) other ∙ mem-keys j d rest

latest-mem :
    (j : String) (cs : List SubscriptionConfig) → latest j cs ≡ none → mem j (ids cs) ≡ false
unfolding latest
latest-mem j [] h = refl
latest-mem j (c ∷ cs) h =
    let (later, here) = latest-none j c cs h in
    ap (λ b. b || mem j (ids cs)) here ∙ latest-mem j cs later

-- An id that is not in the new configuration is not left over.
gone_view :
    (j : String) (gone new : List String) (m : Manager)
    → mem j gone ≡ mem j (missing (keys m.subscriptions) new)
    → mem j new ≡ false
    → (if mem j gone then none else view_of m j) ≡ none
gone_view j gone new m same out =
    let listed = mem-missing j (keys m.subscriptions) new in
    elim (Bool-cases (mem j (keys m.subscriptions))) [
      | inl e ↦
          ap (λ b. if b then none else view_of m j)
            (same ∙ listed ∙ ap (λ b. b && not (mem j new)) e ∙ ap not out)
      | inr e ↦
          ap (λ b. if b then none else view_of m j)
            (same ∙ listed ∙ ap (λ b. b && not (mem j new)) e)
          ∙ ap view (mem-keys j m.subscriptions e)
    ]

-- In simulation, where every request goes through, `reload` puts in place exactly what the new
-- configuration says, in whatever order the ids to remove come: an id that it does not name is not
-- tracked, any other follows the last configuration with that id, and it is active exactly when that
-- is enabled.
pub reload_follows :
    (set_order : List String → List String) (c : RuntimeConfig) (m : Manager) (n : Net)
    → ((k : String) (ks : List String) → mem k (set_order ks) ≡ mem k ks)
    → m.simulation_mode ≡ true
    → (j : String) → view_of (reload set_order c m n).0 j ≡ followed (latest j c.subscriptions)
unfolding reload
reload_follows set_order c m n same sim j =
    let cs = c.subscriptions in
    let gone = set_order (missing (keys m.subscriptions) (ids cs)) in
    let r = remove_each gone m n in
    let loops =
      reconcile-view cs (record r.0 { config = c; subscriptions = add_each cs r.0.subscriptions })
        r.1 j (remove_each-mode gone m n ∙ sim)
      ∙ ap (all_turned j cs) (add_each-view cs r.0.subscriptions j) in
    elim (Option-cases (latest j cs)) [
      | inl e ↦
          loops
          ∙ all_turned-none j cs (all_added j cs (view_of r.0 j)) e
          ∙ all_added-none j cs (view_of r.0 j) e
          ∙ remove_each-view gone m n j
          ∙ gone_view j gone (ids cs) m (same j (missing (keys m.subscriptions) (ids cs)))
              (latest-mem j cs e)
          ∙ ap followed (sym e)
      | inr (x, e) ↦
          let (a, added) = all_added-latest j cs (view_of r.0 j) x e in
          loops ∙ ap (all_turned j cs) added ∙ all_turned-latest j cs x x a e ∙ ap followed (sym e)
    ]
