-- ===== src/Subs/Reachable.antt =====
-- The state between the operations of src/bms_2030_5_client/subs/manager.py, in whatever order they come.
use ieee2030_5_cold_client.Prelude.{
  ℕ, ◌≡◌, refl, ◌∙◌, sym, String, Bool, true, false, Option, none, some, List, [], ◌∷◌, ◌&&◌, not,
  if◌then◌else◌, if_intro, if_intro_eq, option_intro_eq, arith, str_eq,
}
use ieee2030_5_cold_client.Prelude.Dict.{Dict, lookup, insert, erase, lookup-insert, lookup-erase}
use ieee2030_5_cold_client.Subs.{
  SubscriptionConfig, RuntimeConfig, TrackedSubscription, Net, Manager, should_renew, track,
}
use ieee2030_5_cold_client.Subs.Lifecycle.{
  Step, enable_tracked, disable_tracked, with_tracked, enable, disable, keys, disable_each,
  disable_all, enable_each, start, remove_each, add_one, add_each, active_of, reconcile_one,
  reconcile, reload, due_at, all_due, on_reconnect, renew_due, renew_each, renewal_round,
  init_from_config, init, ids, missing,
}
use ieee2030_5_cold_client.Subs.Settled.{
  Leaves, is_settled, enable_tracked-Leaves, enable_tracked-settled, disable_tracked-Leaves,
  disable_tracked-settled, renew-Leaves, renew-settled,
}
use ieee2030_5_cold_client.Subs.Stopping.{
  Awaiting, sleeping, deleting_one, posting_one, cancelled_in_delete, cancelled_in_post, cancelled,
  cancel_renewal, stop, cancelled_in_delete-Leaves, cancelled_in_delete-settled,
  cancelled_in_post-Leaves, cancelled_in_post-settled,
}
use ieee2030_5_cold_client.Subs.Effects.{changed, with_tracked-lookup}

abbrev SettledDict : Dict TrackedSubscription → Type 0
SettledDict d = (k : String) (t : TrackedSubscription) → lookup k d ≡ some t → is_settled t ≡ true

abbrev pub AllSettled : Manager → Type 0
AllSettled m = SettledDict m.subscriptions

nil-SettledDict : SettledDict []
unfolding lookup
nil-SettledDict k t e = absurd (ground (arith, e))

insert-SettledDict :
    (k : String) (t : TrackedSubscription) (d : Dict TrackedSubscription)
    → is_settled t ≡ true
    → SettledDict d
    → SettledDict (insert k t d)
insert-SettledDict k t d p h j s e = ground (arith, lookup-insert k j t d, p, h j s, e)

settled_choice :
    (b : Bool) (f : TrackedSubscription → Step) (o o' : Option TrackedSubscription)
    → ((s : TrackedSubscription) → o ≡ some s → is_settled s ≡ true)
    → ((s : TrackedSubscription) → o' ≡ some s → is_settled s ≡ true)
    → ((s : TrackedSubscription) → is_settled s ≡ true → is_settled (f s).1 ≡ true)
    → (t : TrackedSubscription) → (if b then changed f o else o') ≡ some t
    → is_settled t ≡ true
settled_choice true f none o' h h' p t e = absurd (ground (arith, e))
settled_choice true f (some s) o' h h' p t e = let q = p s (h s refl) in cc (e, q)
settled_choice false f o o' h h' p t e = h' t e

with_tracked-AllSettled :
    (k : String) (f : TrackedSubscription → Step) (m : Manager) (n : Net)
    → ((t : TrackedSubscription) → Leaves m (f t).2)
    → ((t : TrackedSubscription) → is_settled t ≡ true → is_settled (f t).1 ≡ true)
    → AllSettled m
    → AllSettled (with_tracked k f m n).1
with_tracked-AllSettled k f m n l p h j t e =
    settled_choice (str_eq k j) f (lookup k m.subscriptions) (lookup j m.subscriptions) (h k) (h j)
      p t (sym (with_tracked-lookup k j f m n l) ∙ e)

enable-AllSettled :
    (k : String) (m : Manager) (n : Net) → AllSettled m → AllSettled (enable k m n).1
unfolding enable
enable-AllSettled k m n h =
    with_tracked-AllSettled k (λ t. enable_tracked t m n) m n (λ t. enable_tracked-Leaves t m n)
      (λ t. enable_tracked-settled t m n) h

disable-AllSettled :
    (k : String) (m : Manager) (n : Net) → AllSettled m → AllSettled (disable k m n).1
unfolding disable
disable-AllSettled k m n h =
    with_tracked-AllSettled k (λ t. disable_tracked t m n) m n (λ t. disable_tracked-Leaves t m n)
      (λ t. disable_tracked-settled t m n) h

pub renew_due-Leaves :
    (m : Manager) (n : Net) (t : TrackedSubscription) → Leaves m (renew_due m n t).2
renew_due-Leaves m n t =
    if_intro (λ (s : Step). Leaves m s.2) (should_renew t n.now) (renew-Leaves t m n)
      (refl, refl, refl)

renew_due-settled :
    (m : Manager) (n : Net) (t : TrackedSubscription)
    → is_settled t ≡ true
    → is_settled (renew_due m n t).1 ≡ true
renew_due-settled m n t h =
    if_intro_eq (λ (s : Step). is_settled s.1 ≡ true) (should_renew t n.now)
      (λ e. renew-settled t m n (ground (arith, e))) (λ e. h)

cancelled-AllSettled :
    (k : String) (step : TrackedSubscription → Manager → Net → Step) (m : Manager) (n : Net)
    → ((t : TrackedSubscription) → Leaves m (step t m n).2)
    → ((t : TrackedSubscription) → is_settled t ≡ true → is_settled (step t m n).1 ≡ true)
    → AllSettled m
    → AllSettled (with_tracked k (cancelled step m n) m n).1
cancelled-AllSettled k step m n l p =
    with_tracked-AllSettled k (cancelled step m n) m n
      (λ t. if_intro (λ (s : Step). Leaves m s.2) _ (l t) (refl, refl, refl))
      (λ t h. if_intro (λ (s : Step). is_settled s.1 ≡ true) _ (p t h) h)

cancel_renewal-AllSettled :
    (await : Awaiting) (m : Manager) (n : Net)
    → AllSettled m
    → AllSettled (cancel_renewal await m n).1
unfolding cancel_renewal
cancel_renewal-AllSettled sleeping m n h = h
cancel_renewal-AllSettled (deleting_one k) m n h =
    cancelled-AllSettled k cancelled_in_delete m n (λ t. cancelled_in_delete-Leaves t m n)
      (λ t. cancelled_in_delete-settled t m n) h
cancel_renewal-AllSettled (posting_one k) m n h =
    cancelled-AllSettled k cancelled_in_post m n (λ t. cancelled_in_post-Leaves t m n)
      (λ t p. cancelled_in_post-settled t m n) h

disable_each-AllSettled :
    (ks : List String) (m : Manager) (n : Net) → AllSettled m → AllSettled (disable_each ks m n).1
unfolding disable_each
disable_each-AllSettled [] m n h = h
disable_each-AllSettled (k ∷ ks) m n h =
    let d = disable k m n in disable_each-AllSettled ks d.1 d.2 (disable-AllSettled k m n h)

enable_each-AllSettled :
    (cs : List SubscriptionConfig) (m : Manager) (n : Net)
    → AllSettled m
    → AllSettled (enable_each cs m n).0
unfolding enable_each
enable_each-AllSettled [] m n h = h
enable_each-AllSettled (c ∷ cs) m n h =
    let d = enable c.id m n in
    if_intro (λ (r : Manager × Net). AllSettled (enable_each cs r.0 r.1).0) c.enabled
      (enable_each-AllSettled cs d.1 d.2 (enable-AllSettled c.id m n h))
      (enable_each-AllSettled cs m n h)

renew_each-AllSettled :
    (ks : List String) (m : Manager) (n : Net) → AllSettled m → AllSettled (renew_each ks m n).0
unfolding renew_each
renew_each-AllSettled [] m n h = h
renew_each-AllSettled (k ∷ ks) m n h =
    let d = with_tracked k (renew_due m n) m n in
    renew_each-AllSettled ks d.1 d.2 (
      with_tracked-AllSettled k (renew_due m n) m n (renew_due-Leaves m n) (renew_due-settled m n)
        h)

remove_each-AllSettled :
    (ks : List String) (m : Manager) (n : Net) → AllSettled m → AllSettled (remove_each ks m n).0
unfolding remove_each
remove_each-AllSettled [] m n h = h
remove_each-AllSettled (k ∷ ks) m n h =
    let d = disable k m n in
    let s = disable-AllSettled k m n h in
    remove_each-AllSettled ks (record d.1 { subscriptions = erase k d.1.subscriptions }) d.2
      (λ j t e. ground (arith, lookup-erase k j d.1.subscriptions, s j t, e))

add_each-SettledDict :
    (cs : List SubscriptionConfig) (d : Dict TrackedSubscription)
    → SettledDict d
    → SettledDict (add_each cs d)
unfolding add_each
add_each-SettledDict [] d h = h
add_each-SettledDict (c ∷ cs) d h = add_each-SettledDict cs (add_one c d) (
    option_intro_eq SettledDict (lookup c.id d) (λ e. insert-SettledDict c.id (track c) d refl h)
      (λ t e. insert-SettledDict c.id (record t { config = c }) d (h c.id t e) h))

reconcile_one-AllSettled :
    (c : SubscriptionConfig) (m : Manager) (n : Net)
    → AllSettled m
    → AllSettled (reconcile_one c m n).0
unfolding reconcile_one
reconcile_one-AllSettled c m n h =
    let is_on = active_of m c.id in
    if_intro (λ (r : Manager × Net). AllSettled r.0) (c.enabled && not is_on)
      (enable-AllSettled c.id m n h)
      (if_intro (λ (r : Manager × Net). AllSettled r.0) (not c.enabled && is_on)
        (disable-AllSettled c.id m n h) h)

reconcile-AllSettled :
    (cs : List SubscriptionConfig) (m : Manager) (n : Net)
    → AllSettled m
    → AllSettled (reconcile cs m n).0
unfolding reconcile
reconcile-AllSettled [] m n h = h
reconcile-AllSettled (c ∷ cs) m n h =
    let d = reconcile_one c m n in
    reconcile-AllSettled cs d.0 d.1 (reconcile_one-AllSettled c m n h)

reload-AllSettled :
    (set_order : List String → List String) (c : RuntimeConfig) (m : Manager) (n : Net)
    → AllSettled m
    → AllSettled (reload set_order c m n).0
unfolding reload
reload-AllSettled set_order c m n h =
    let gone = set_order (missing (keys m.subscriptions) (ids c.subscriptions)) in
    let r = remove_each gone m n in
    reconcile-AllSettled c.subscriptions
      (record r.0 { config = c; subscriptions = add_each c.subscriptions r.0.subscriptions }) r.1
      (add_each-SettledDict c.subscriptions r.0.subscriptions (remove_each-AllSettled gone m n h))

all_due-lookup :
    (now : ℕ) (k : String) (d : Dict TrackedSubscription)
    → lookup k (all_due now d) ≡ (elim (lookup k d) [ none ↦ none | some t ↦ some (due_at now t) ])
unfolding all_due lookup
all_due-lookup now k [] = refl
all_due-lookup now k ((j, t) ∷ d) = let ih = all_due-lookup now k d in ground (arith, ih)

init-SettledDict :
    (cs : List SubscriptionConfig) (d : Dict TrackedSubscription)
    → SettledDict d
    → SettledDict (init_from_config cs d)
unfolding init_from_config
init-SettledDict [] d h = h
init-SettledDict (c ∷ cs) d h =
    init-SettledDict cs (insert c.id (track c) d) (insert-SettledDict c.id (track c) d refl h)

due_at-settled :
    (now : ℕ) (t : TrackedSubscription) → is_settled t ≡ true → is_settled (due_at now t) ≡ true
due_at-settled now t h = ground (arith, h)

due_choice :
    (now : ℕ) (o : Option TrackedSubscription)
    → ((s : TrackedSubscription) → o ≡ some s → is_settled s ≡ true)
    → (t : TrackedSubscription) → (elim o [ none ↦ none | some s ↦ some (due_at now s) ]) ≡ some t
    → is_settled t ≡ true
due_choice now none h t e = absurd (ground (arith, e))
due_choice now (some s) h t e = let q = due_at-settled now s (h s refl) in cc (e, q)

all_due-SettledDict :
    (now : ℕ) (d : Dict TrackedSubscription) → SettledDict d → SettledDict (all_due now d)
all_due-SettledDict now d h k t e =
    due_choice now (lookup k d) (h k) t (sym (all_due-lookup now k d) ∙ e)

-- A manager after any of its operations, one after the other, whatever the server does.
pub data IsReachable : Manager → Type 0 where
  initialised : (c : RuntimeConfig) (simulation : Bool) → IsReachable (init c simulation)
  started : (m : Manager) (n : Net) → IsReachable m → IsReachable (start m n).0
  stopped :
      (await : Awaiting) (m : Manager) (n : Net) → IsReachable m → IsReachable (stop await m n).0
  enabled : (k : String) (m : Manager) (n : Net) → IsReachable m → IsReachable (enable k m n).1
  disabled_one :
      (k : String) (m : Manager) (n : Net) → IsReachable m → IsReachable (disable k m n).1
  disabled_all : (m : Manager) (n : Net) → IsReachable m → IsReachable (disable_all m n).1
  reloaded :
      (set_order : List String → List String) (c : RuntimeConfig) (m : Manager) (n : Net)
      → IsReachable m
      → IsReachable (reload set_order c m n).0
  reconnected : (m : Manager) (n : Net) → IsReachable m → IsReachable (on_reconnect m n)
  looped : (m : Manager) (n : Net) → IsReachable m → IsReachable (renewal_round m n).0

-- After any sequence of operations and whatever the server answered, also where `stop` cancels a
-- renewal that waits for the server, no subscription is left in PENDING or DELETING, one that is
-- DISABLED holds no resource of the server and no time of renewal, and one that is ACTIVE has a time
-- of renewal.
pub reachable-AllSettled : (m : Manager) → IsReachable m → AllSettled m
unfolding init start stop disable_all on_reconnect renewal_round
reachable-AllSettled m (initialised c simulation) =
    init-SettledDict c.subscriptions [] nil-SettledDict
reachable-AllSettled m (started s n r) =
    if_intro (λ (p : Manager × Net). AllSettled p.0) s.running (reachable-AllSettled s r)
      (enable_each-AllSettled s.config.subscriptions (record s { running = true }) n
        (reachable-AllSettled s r))
reachable-AllSettled m (stopped await s n r) =
    if_intro (λ (p : Manager × Net). AllSettled p.0) s.running
      (cancel_renewal-AllSettled await (record s { running = false }) n (reachable-AllSettled s r))
      (reachable-AllSettled s r)
reachable-AllSettled m (enabled k s n r) = enable-AllSettled k s n (reachable-AllSettled s r)
reachable-AllSettled m (disabled_one k s n r) = disable-AllSettled k s n (reachable-AllSettled s r)
reachable-AllSettled m (disabled_all s n r) =
    disable_each-AllSettled (keys s.subscriptions) s n (reachable-AllSettled s r)
reachable-AllSettled m (reloaded set_order c s n r) =
    reload-AllSettled set_order c s n (reachable-AllSettled s r)
reachable-AllSettled m (reconnected s n r) =
    all_due-SettledDict n.now s.subscriptions (reachable-AllSettled s r)
reachable-AllSettled m (looped s n r) =
    if_intro (λ (p : Manager × Net). AllSettled p.0) s.running
      (renew_each-AllSettled (keys s.subscriptions) s n (reachable-AllSettled s r))
      (reachable-AllSettled s r)
