-- ===== src/Subs/Refine.antt =====
-- What `reload` of src/bms_2030_5_client/subs/manager.py promises: the subscriptions are those of the new
-- configuration, and the enabled ones are on.
use ieee2030_5_cold_client.Prelude.{
  ◌≡◌, refl, ◌∙◌, ap, sym, String, Bool, true, false, Option, none, some, ◌&&◌, not, if◌then◌else◌,
  if_intro, if_intro_eq, arith, eq_iff, str_eq,
}
use ieee2030_5_cold_client.Prelude.Dict.{lookup}
use ieee2030_5_cold_client.Subs.{SubscriptionConfig, TrackedSubscription, Net, Manager, is_active}
use ieee2030_5_cold_client.Subs.Requests.{create_subscription, delete_subscription, delete_href}
use ieee2030_5_cold_client.Subs.Lifecycle.{
  Step, enable_tracked, disable_tracked, is_disabled, before_delete, enable, disable, active_of,
  reconcile_one,
}
use ieee2030_5_cold_client.Subs.Settled.{enable_tracked-Leaves, disable_tracked-Leaves}
use ieee2030_5_cold_client.Subs.Effects.{
  changed, SameSetup, with_tracked-lookup, with_tracked-SameSetup,
}

-- The abstract view of a manager: for each id the configuration that is followed, and whether the
-- subscription is on.
abbrev pub View : Type 0
View = Option (SubscriptionConfig × Bool)

abbrev pub view : Option TrackedSubscription → View
view none = none
view (some t) = some (t.config, is_active t)

abbrev pub view_of : Manager → String → View
view_of m k = view (lookup k m.subscriptions)

abbrev pub turned : Bool → View → View
turned b none = none
turned b (some (c, a)) = some (c, b)

-- In simulation a request always goes through.
create_simulated :
    (t : TrackedSubscription) (m : Manager) (n : Net)
    → m.simulation_mode ≡ true
    → view (some (enable_tracked t m n).1) ≡ some (t.config, true)
unfolding enable_tracked create_subscription
create_simulated t m n h = ground (arith, h)

delete_keeps_config :
    (t : TrackedSubscription) (m : Manager) (n : Net)
    → (delete_subscription t m n).1.config ≡ t.config
unfolding delete_subscription delete_href
delete_keeps_config t m n = ground arith

before_delete_config : (t : TrackedSubscription) → (before_delete t).config ≡ t.config
before_delete_config t = ground arith

disable_turns_off :
    (t : TrackedSubscription) (m : Manager) (n : Net)
    → view (some (disable_tracked t m n).1) ≡ some (t.config, false)
unfolding disable_tracked
disable_turns_off t m n =
    if_intro_eq (λ (s : Step). view (some s.1) ≡ some (t.config, false)) (is_disabled t)
      (λ e. ground (arith, e))
      (λ e.
        ap (λ c. some (c, false))
          (delete_keeps_config (before_delete t) m n ∙ before_delete_config t))

view_choice :
    (b b' : Bool) (f : TrackedSubscription → Step) (o o' : Option TrackedSubscription)
    → ((t : TrackedSubscription) → view (some (f t).1) ≡ some (t.config, b'))
    → view (if b then changed f o else o') ≡ (if b then turned b' (view o) else view o')
view_choice true b' f none o' h = refl
view_choice true b' f (some t) o' h = h t
view_choice false b' f o o' h = refl

same_view :
    (b : Bool) (k j : String) (m : Manager)
    → (if str_eq k j then turned b (view_of m k) else view_of m j)
      ≡ (if str_eq k j then turned b (view_of m j) else view_of m j)
same_view b k j m =
    if_intro_eq (λ (v : View). v ≡ (if str_eq k j then turned b (view_of m j) else view_of m j))
      (str_eq k j) (λ e. let q = (eq_iff k j).0 e in cc (e, q)) (λ e. cc e)

and_left : (a b : Bool) → (a && b) ≡ true → a ≡ true
and_left a b h = ground (arith, h)

not_left : (a b : Bool) → (not a && b) ≡ true → a ≡ false
not_left a b h = ground (arith, h)

enable-view :
    (k j : String) (m : Manager) (n : Net)
    → m.simulation_mode ≡ true
    → view_of (enable k m n).1 j ≡ (if str_eq k j then turned true (view_of m j) else view_of m j)
unfolding enable
enable-view k j m n h =
    ap view
      (with_tracked-lookup k j (λ t. enable_tracked t m n) m n (λ t. enable_tracked-Leaves t m n))
    ∙ view_choice (str_eq k j) true (λ t. enable_tracked t m n) (lookup k m.subscriptions)
        (lookup j m.subscriptions) (λ t. create_simulated t m n h)
    ∙ same_view true k j m

pub disable-view :
    (k j : String) (m : Manager) (n : Net)
    → view_of (disable k m n).1 j ≡ (if str_eq k j then turned false (view_of m j) else view_of m j)
unfolding disable
disable-view k j m n =
    ap view
      (with_tracked-lookup k j (λ t. disable_tracked t m n) m n (λ t. disable_tracked-Leaves t m n))
    ∙ view_choice (str_eq k j) false (λ t. disable_tracked t m n) (lookup k m.subscriptions)
        (lookup j m.subscriptions) (λ t. disable_turns_off t m n)
    ∙ same_view false k j m

abbrev is_on : View → Bool
is_on none = false
is_on (some (c, a)) = a

active_is_on :
    (o : Option TrackedSubscription)
    → (elim o [ none ↦ false | some t ↦ is_active t ]) ≡ is_on (view o)
active_is_on none = refl
active_is_on (some t) = refl

turned_same : (v : View) (b : Bool) → is_on v ≡ b → turned b v ≡ v
turned_same none b h = refl
turned_same (some (c, a)) b h = ap (λ x. some (c, x)) (sym h)

unchanged_view :
    (b : Bool) (k j : String) (m : Manager)
    → active_of m k ≡ b
    → view_of m j ≡ (if str_eq k j then turned b (view_of m j) else view_of m j)
unchanged_view b k j m h =
    if_intro_eq (λ (v : View). view_of m j ≡ v) (str_eq k j)
      (λ e.
        let same = (eq_iff k j).0 e in
        let on = active_is_on (lookup j m.subscriptions) in
        sym (turned_same (view_of m j) b (cc (on, h, same))))
      (λ e. refl)

both_tests : (en on : Bool) → (en && not on) ≡ false → (not en && on) ≡ false → on ≡ en
both_tests en on p q = ground (arith, p, q)

pub reconcile_one-view :
    (c : SubscriptionConfig) (m : Manager) (n : Net) (j : String)
    → m.simulation_mode ≡ true
    → view_of (reconcile_one c m n).0 j
      ≡ (if str_eq c.id j then turned c.enabled (view_of m j) else view_of m j)
unfolding reconcile_one
reconcile_one-view c m n j h =
    let on = active_of m c.id in
    let wanted = λ (b : Bool). if str_eq c.id j then turned b (view_of m j) else view_of m j in
    let P = λ (r : Manager × Net). view_of r.0 j ≡ wanted c.enabled in
    if_intro_eq P (c.enabled && not on)
      (λ e. enable-view c.id j m n h ∙ ap wanted (sym (and_left c.enabled (not on) e)))
      (λ e.
        if_intro_eq P (not c.enabled && on)
          (λ e'. disable-view c.id j m n ∙ ap wanted (sym (not_left c.enabled on e')))
          (λ e'. unchanged_view c.enabled c.id j m (both_tests c.enabled on e e')))

pub reconcile_one-mode :
    (c : SubscriptionConfig) (m : Manager) (n : Net) → SameSetup m (reconcile_one c m n).0
unfolding reconcile_one enable disable
reconcile_one-mode c m n =
    let on = active_of m c.id in
    let P = λ (r : Manager × Net). SameSetup m r.0 in
    if_intro P (c.enabled && not on)
      (with_tracked-SameSetup c.id (λ t. enable_tracked t m n) m n
        (λ t. enable_tracked-Leaves t m n))
      (if_intro P (not c.enabled && on)
        (with_tracked-SameSetup c.id (λ t. disable_tracked t m n) m n
          (λ t. disable_tracked-Leaves t m n))
        (refl, refl))
