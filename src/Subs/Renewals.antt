-- ===== src/Subs/Renewals.antt =====
-- The renewal loop of src/bms_2030_5_client/subs/manager.py, and when `enable` goes through.
use ieee2030_5_cold_client.Prelude.{
  ℕ, zero, suc, ◌≡◌, refl, ◌∙◌, ap, String, Bool, true, false, some, List, [], ◌∷◌, if◌then◌else◌,
  if_intro, if_intro_eq, arith, eq_iff, str_eq, ◌&&◌, ◌||◌, ◌==◌, Bool-cases, inl, inr,
}
use ieee2030_5_cold_client.Prelude.Dict.{lookup}
use ieee2030_5_cold_client.Subs.{
  TrackedSubscription, Reply, response, sep_error, exception, Net, Manager, send, is_active,
  should_renew, get_client,
}
use ieee2030_5_cold_client.Subs.Requests.{create_subscription}
use ieee2030_5_cold_client.Subs.Lifecycle.{
  Step, enable_tracked, with_tracked, keys, renew_due, renew_each, renewal_round,
}
use ieee2030_5_cold_client.Subs.Reachable.{renew_due-Leaves}
use ieee2030_5_cold_client.Subs.Effects.{changed, with_tracked-lookup}

not_due :
    (m : Manager) (n : Net) (t : TrackedSubscription)
    → is_active t ≡ false
    → renew_due m n t ≡ (true, t, m, n)
not_due m n t h =
    if_intro_eq (λ (s : Step). s ≡ (true, t, m, n)) (should_renew t n.now)
      (λ e. absurd (ground (arith, e, h))) (λ e. refl)

pub renew_one-inactive :
    (k j : String) (m : Manager) (n : Net) (t : TrackedSubscription)
    → is_active t ≡ false
    → lookup j m.subscriptions ≡ some t
    → lookup j (with_tracked k (renew_due m n) m n).1.subscriptions ≡ some t
renew_one-inactive k j m n t h e =
    let after = with_tracked-lookup k j (renew_due m n) m n (renew_due-Leaves m n) in
    let same = ap (λ (s : Step). some s.1) (not_due m n t h) in
    elim (Bool-cases (str_eq k j)) [
      | inl b ↦
          let q = (eq_iff k j).0 b in
          after
          ∙ ap
              (λ x.
                if x
                then changed (renew_due m n) (lookup k m.subscriptions)
                else lookup j m.subscriptions)
              b
          ∙ ap (λ x. changed (renew_due m n) (lookup x m.subscriptions)) q
          ∙ ap (changed (renew_due m n)) e
          ∙ same
      | inr b ↦
          after
          ∙ ap
              (λ x.
                if x
                then changed (renew_due m n) (lookup k m.subscriptions)
                else lookup j m.subscriptions)
              b
          ∙ e
    ]

renew_each-inactive :
    (ks : List String) (j : String) (m : Manager) (n : Net) (t : TrackedSubscription)
    → is_active t ≡ false
    → lookup j m.subscriptions ≡ some t
    → lookup j (renew_each ks m n).0.subscriptions ≡ some t
unfolding renew_each
renew_each-inactive [] j m n t h e = e
renew_each-inactive (k ∷ ks) j m n t h e =
    let d = with_tracked k (renew_due m n) m n in
    renew_each-inactive ks j d.1 d.2 t h (renew_one-inactive k j m n t h e)

-- So many rounds of the loop.
unfoldable pub rounds : ℕ → Manager → Net → Manager × Net
rounds zero m n = (m, n)
rounds (suc i) m n = let r = renewal_round m n in rounds i r.0 r.1

-- The renewal loop never touches a subscription that is not ACTIVE: one whose renewal has failed
-- stays FAILED as it is, however long the loop runs and whatever the server would answer.
pub rounds-inactive :
    (i : ℕ) (j : String) (m : Manager) (n : Net) (t : TrackedSubscription)
    → is_active t ≡ false
    → lookup j m.subscriptions ≡ some t
    → lookup j (rounds i m n).0.subscriptions ≡ some t
unfolding rounds renewal_round
rounds-inactive zero j m n t h e = e
rounds-inactive (suc i) j m n t h e =
    let r = renewal_round m n in
    rounds-inactive i j r.0 r.1 t h (
      if_intro (λ (p : Manager × Net). lookup j p.0.subscriptions ≡ some t) m.running
        (renew_each-inactive (keys m.subscriptions) j m n t h e) e)

-- The answer 201.
abbrev pub is_created : Reply → Bool
is_created (response r) = r.status_code == 201
is_created (sep_error e) = false
is_created (exception e) = false

-- Outside simulation `enable` of a tracked subscription is True exactly when it is active already,
-- or its profile is known and the server answers the POST with 201.
pub enable_tracked-created :
    (t : TrackedSubscription) (m : Manager) (n : Net)
    → m.simulation_mode ≡ false
    → (enable_tracked t m n).0
      ≡ (is_active t || ((get_client t.config.profile_name m).0 && is_created (n.replies n.at)))
unfolding enable_tracked create_subscription send
enable_tracked-created t m n h = ground (arith, h)
