-- ===== src/Subs/Settled.antt =====
-- What each operation on one subscription does to it, and to the manager around it, in the operations of src/bms_2030_5_client/subs/manager.py.
use ieee2030_5_cold_client.Prelude.{
  ℕ, ◌≡◌, refl, String, Bool, true, false, some, ◌&&◌, not, is_some, if_intro, if_intro_eq, ◌∙◌,
  arith, returned, raised,
}
use ieee2030_5_cold_client.Prelude.Dict.{Dict, lookup}
use ieee2030_5_cold_client.Subs.{
  disabled, pending, active, renewing, failed, TrackedSubscription, Net, Manager, is_active,
}
use ieee2030_5_cold_client.Subs.Requests.{
  Done, create_subscription, delete_subscription, delete_href, renew_subscription, recreated,
  replaced, renewed_at,
}
use ieee2030_5_cold_client.Subs.Lifecycle.{
  Step, enabled_by, enable_tracked, before_delete, is_disabled, disable_tracked,
}

-- No first request and no removal is under way; one that is off has no resource and no time of renewal, one that is on
-- has its time of renewal.
abbrev pub is_settled : TrackedSubscription → Bool
is_settled t = elim t.state [
  | disabled ↦ not (is_some t.subscription_href) && not (is_some t.next_renewal_at)
  | active ↦ is_some t.next_renewal_at
  | failed ↦ true
  | renewing ↦ true
  | _ ↦ false
]

abbrev pub AllSettled : Dict TrackedSubscription → Type 0
AllSettled d = (k : String) (t : TrackedSubscription) → lookup k d ≡ some t → is_settled t ≡ true

-- What an operation on one subscription leaves: the dictionary, the configuration and the mode.
abbrev pub Leaves : Manager → Manager → Type 0
Leaves m m' =
    (m'.subscriptions ≡ m.subscriptions)
    × (m'.config ≡ m.config)
    × (m'.simulation_mode ≡ m.simulation_mode)

pub create-Leaves :
    (t : TrackedSubscription) (m : Manager) (n : Net) → Leaves m (create_subscription t m n).2
unfolding create_subscription
create-Leaves t m n = ground arith

pub delete-Leaves :
    (t : TrackedSubscription) (m : Manager) (n : Net) → Leaves m (delete_subscription t m n).2
unfolding delete_subscription delete_href
delete-Leaves t m n = ground arith

enabled_by-Leaves : (m : Manager) (d : Done) → Leaves m d.2 → Leaves m (enabled_by d).2
enabled_by-Leaves m (returned true, t, m', n) h = h
enabled_by-Leaves m (returned false, t, m', n) h = h
enabled_by-Leaves m (raised e, t, m', n) h = h

enabled_by-settled : (d : Done) → is_settled (enabled_by d).1 ≡ true
enabled_by-settled (returned true, t, m', n) = refl
enabled_by-settled (returned false, t, m', n) = refl
enabled_by-settled (raised e, t, m', n) = refl

enabled_by_active : (d : Done) → is_active (enabled_by d).1 ≡ (enabled_by d).0
enabled_by_active (returned true, t, m', n) = refl
enabled_by_active (returned false, t, m', n) = refl
enabled_by_active (raised e, t, m', n) = refl

pub enable_tracked-Leaves :
    (t : TrackedSubscription) (m : Manager) (n : Net) → Leaves m (enable_tracked t m n).2
unfolding enable_tracked
enable_tracked-Leaves t m n =
    if_intro (λ (s : Step). Leaves m s.2) (is_active t) (refl, refl, refl)
      (enabled_by-Leaves m (create_subscription (record t { state = pending }) m n)
        (create-Leaves (record t { state = pending }) m n))

pub enable_tracked-settled :
    (t : TrackedSubscription) (m : Manager) (n : Net)
    → is_settled t ≡ true
    → is_settled (enable_tracked t m n).1 ≡ true
unfolding enable_tracked
enable_tracked-settled t m n h =
    if_intro (λ (s : Step). is_settled s.1 ≡ true) (is_active t) h
      (enabled_by-settled (create_subscription (record t { state = pending }) m n))

-- A subscription is active after `enable` exactly when `enable` says so.
pub enable_tracked_active :
    (t : TrackedSubscription) (m : Manager) (n : Net)
    → is_active (enable_tracked t m n).1 ≡ (enable_tracked t m n).0
unfolding enable_tracked
enable_tracked_active t m n =
    if_intro_eq (λ (s : Step). is_active s.1 ≡ s.0) (is_active t) (λ e. e)
      (λ e. enabled_by_active (create_subscription (record t { state = pending }) m n))

pub disable_tracked-Leaves :
    (t : TrackedSubscription) (m : Manager) (n : Net) → Leaves m (disable_tracked t m n).2
unfolding disable_tracked
disable_tracked-Leaves t m n =
    if_intro (λ (s : Step). Leaves m s.2) (is_disabled t) (refl, refl, refl)
      (delete-Leaves (before_delete t) m n)

pub disable_tracked-settled :
    (t : TrackedSubscription) (m : Manager) (n : Net)
    → is_settled t ≡ true
    → is_settled (disable_tracked t m n).1 ≡ true
unfolding disable_tracked
disable_tracked-settled t m n h =
    if_intro (λ (s : Step). is_settled s.1 ≡ true) (is_disabled t) h refl

recreated-Leaves : (m : Manager) (d : Done) → Leaves m d.2 → Leaves m (recreated d).2
recreated-Leaves m (returned true, t, m', n) h = h
recreated-Leaves m (returned false, t, m', n) h = h
recreated-Leaves m (raised e, t, m', n) h = h

Leaves-trans : (a b c : Manager) → Leaves a b → Leaves b c → Leaves a c
Leaves-trans a b c (p, q, r) (p', q', r') = (p' ∙ p, q' ∙ q, r' ∙ r)

replaced-Leaves : (m : Manager) (d : Done) → Leaves m d.2 → Leaves m (replaced d).2
replaced-Leaves m (returned ok, t, m', n) h =
    recreated-Leaves m (create_subscription t m' n)
      (Leaves-trans m m' (create_subscription t m' n).2 h (create-Leaves t m' n))
replaced-Leaves m (raised e, t, m', n) h = h

recreated-settled : (d : Done) → is_settled (recreated d).1 ≡ true
recreated-settled (returned true, t, m', n) = refl
recreated-settled (returned false, t, m', n) = refl
recreated-settled (raised e, t, m', n) = refl

replaced-settled : (d : Done) → is_settled (replaced d).1 ≡ true
replaced-settled (returned ok, t, m', n) = recreated-settled (create_subscription t m' n)
replaced-settled (raised e, t, m', n) = refl

pub renew-Leaves :
    (t : TrackedSubscription) (m : Manager) (n : Net) → Leaves m (renew_subscription t m n).2
unfolding renew_subscription
renew-Leaves t m n =
    if_intro (λ (s : Step). Leaves m s.2) m.simulation_mode (refl, refl, refl)
      (replaced-Leaves m (delete_subscription (record t { state = renewing }) m n)
        (delete-Leaves (record t { state = renewing }) m n))

renewed_at-settled :
    (now : ℕ) (t : TrackedSubscription) → is_active t ≡ true → is_settled (renewed_at now t) ≡ true
renewed_at-settled now t h = ground (arith, h)

pub renew-settled :
    (t : TrackedSubscription) (m : Manager) (n : Net)
    → is_active t ≡ true
    → is_settled (renew_subscription t m n).1 ≡ true
unfolding renew_subscription
renew-settled t m n h =
    if_intro (λ (s : Step). is_settled s.1 ≡ true) m.simulation_mode (renewed_at-settled n.now t h)
      (replaced-settled (delete_subscription (record t { state = renewing }) m n))
