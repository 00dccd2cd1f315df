-- ===== src/Subs/Lifecycle.antt =====
-- The public operations of `SubscriptionManager` of src/bms_2030_5_client/subs/manager.py, one after the other:
-- an operation that waits for the server is not interrupted here by another one.
use ieee2030_5_cold_client.Prelude.{
  ℕ, ◌+◌, String, Bool, true, false, none, some, List, [], ◌∷◌, ◌&&◌, not, if◌then◌else◌, nonempty,
  returned, raised,
}
use ieee2030_5_cold_client.Prelude.Dict.{Dict, lookup, insert, erase}
use ieee2030_5_cold_client.Subs.{
  disabled, pending, active, deleting, failed, SubscriptionConfig, RuntimeConfig,
  TrackedSubscription, Net, Manager, is_active, should_renew, track, mem, next_renewal,
}
use ieee2030_5_cold_client.Subs.Requests.{
  Done, create_subscription, delete_subscription, renew_subscription,
}

-- A subscription after an operation on it, with the manager and the server.
abbrev pub Step : Type 0
Step = Bool × TrackedSubscription × Manager × Net

-- What follows the POST in `enable`.
abbrev pub enabled_by : Done → Step
enabled_by (returned true, t, m, n) = (
  true,
  record t {
    state = active;
    created_at = some n.now;
    last_renewed_at = some n.now;
    failure_count = 0;
    next_renewal_at = some (next_renewal t.config n.now);
  },
  record m { created = m.created + 1 },
  n,
)
enabled_by (returned false, t, m, n) = (
  false,
  record t { state = failed; failure_count = t.failure_count + 1 },
  record m { failures = m.failures + 1 },
  n,
)
enabled_by (raised e, t, m, n) = (
  false,
  record t { state = failed; failure_count = t.failure_count + 1; last_error = some e },
  record m { failures = m.failures + 1 },
  n,
)

unfoldable pub enable_tracked : TrackedSubscription → Manager → Net → Step
enable_tracked t m n =
    if is_active t
    then (true, t, m, n)
    else enabled_by (create_subscription (record t { state = pending }) m n)

abbrev pub cleared : TrackedSubscription → TrackedSubscription
cleared t = record t {
  state = disabled;
  subscription_href = none;
  created_at = none;
  last_renewed_at = none;
  next_renewal_at = none;
}

-- What follows the DELETE in `disable`: whatever its end, the local state is cleared.
abbrev pub disabled_by : Done → Step
disabled_by (r, t, m, n) = (true, cleared t, record m { deleted = m.deleted + 1 }, n)

abbrev pub is_disabled : TrackedSubscription → Bool
is_disabled t = elim t.state [ disabled ↦ true | _ ↦ false ]

abbrev pub before_delete : TrackedSubscription → TrackedSubscription
before_delete t = elim t.subscription_href [
  | none ↦ t
  | some href ↦ if nonempty href then record t { state = deleting } else t
]

unfoldable pub disable_tracked : TrackedSubscription → Manager → Net → Step
disable_tracked t m n =
    if is_disabled t
    then (true, t, m, n)
    else disabled_by (delete_subscription (before_delete t) m n)

-- The object is the one in the dictionary.
abbrev pub put : String → Step → Bool × Manager × Net
put k (ok, t, m, n) = (ok, record m { subscriptions = insert k t m.subscriptions }, n)

-- `self._subscriptions.get(subscription_id)`, and False where there is none.
unfoldable pub with_tracked :
    String → (TrackedSubscription → Step) → Manager → Net → Bool × Manager × Net
with_tracked k f m n = elim (lookup k m.subscriptions) [
  | none ↦ (false, m, n)
  | some t ↦ put k (f t)
]

unfoldable pub enable : String → Manager → Net → Bool × Manager × Net
enable k m n = with_tracked k (λ t. enable_tracked t m n) m n

unfoldable pub disable : String → Manager → Net → Bool × Manager × Net
disable k m n = with_tracked k (λ t. disable_tracked t m n) m n

abbrev pub keys : Dict TrackedSubscription → List String
keys [] = []
keys ((k, t) ∷ d) = k ∷ keys d

-- The loop of `disable_all`, which counts.
unfoldable pub disable_each : List String → Manager → Net → ℕ × Manager × Net
disable_each [] m n = (0, m, n)
disable_each (k ∷ ks) m n =
    let (ok, m', n') = disable k m n in
    let (count, m'', n'') = disable_each ks m' n' in (if ok then count + 1 else count, m'', n'')

unfoldable pub disable_all : Manager → Net → ℕ × Manager × Net
disable_all m n = disable_each (keys m.subscriptions) m n

-- The loop of `start`, over the enabled configurations.
unfoldable pub enable_each : List SubscriptionConfig → Manager → Net → Manager × Net
enable_each [] m n = (m, n)
enable_each (c ∷ cs) m n =
    let (ok, m', n') = enable c.id m n in
    let (m'', n'') = if c.enabled then (m', n') else (m, n) in enable_each cs m'' n''

unfoldable pub start : Manager → Net → Manager × Net
start m n =
    if m.running then (m, n) else enable_each m.config.subscriptions (record m { running = true }) n

-- The parts of `reload`: the subscriptions to remove, in the order that the set has them, the
-- configurations that are added or updated, and the reconciliation.
unfoldable pub remove_each : List String → Manager → Net → Manager × Net
remove_each [] m n = (m, n)
remove_each (k ∷ ks) m n =
    let (ok, m', n') = disable k m n in
    remove_each ks (record m' { subscriptions = erase k m'.subscriptions }) n'

abbrev pub add_one : SubscriptionConfig → Dict TrackedSubscription → Dict TrackedSubscription
add_one c d = elim (lookup c.id d) [
  | none ↦ insert c.id (track c) d
  | some t ↦ insert c.id (record t { config = c }) d
]

unfoldable pub add_each :
    List SubscriptionConfig → Dict TrackedSubscription → Dict TrackedSubscription
add_each [] d = d
add_each (c ∷ cs) d = add_each cs (add_one c d)

abbrev pub active_of : Manager → String → Bool
active_of m k = elim (lookup k m.subscriptions) [ none ↦ false | some t ↦ is_active t ]

unfoldable pub reconcile_one : SubscriptionConfig → Manager → Net → Manager × Net
reconcile_one c m n =
    let is_on = active_of m c.id in
    let (ok, on, n') = enable c.id m n in
    let (ok', off, n'') = disable c.id m n in
    if c.enabled && not is_on
    then (on, n')
    else if not c.enabled && is_on
    then (off, n'')
    else (m, n)

unfoldable pub reconcile : List SubscriptionConfig → Manager → Net → Manager × Net
reconcile [] m n = (m, n)
reconcile (c ∷ cs) m n = let (m', n') = reconcile_one c m n in reconcile cs m' n'

abbrev pub ids : List SubscriptionConfig → List String
ids [] = []
ids (c ∷ cs) = c.id ∷ ids cs

-- `old_ids - new_ids`.
abbrev pub missing : List String → List String → List String
missing [] new = []
missing (k ∷ ks) new = let rest = missing ks new in if mem k new then rest else k ∷ rest

unfoldable pub reload : (List String → List String) → RuntimeConfig → Manager → Net → Manager × Net
reload set_order c m n =
    let gone = set_order (missing (keys m.subscriptions) (ids c.subscriptions)) in
    let (m', n') = remove_each gone m n in
    let added = add_each c.subscriptions m'.subscriptions in
    reconcile c.subscriptions (record m' { config = c; subscriptions = added }) n'

-- `on_reconnect`: the active subscriptions become due.
abbrev pub due_at : ℕ → TrackedSubscription → TrackedSubscription
due_at now t = if is_active t then record t { next_renewal_at = some now } else t

unfoldable pub all_due : ℕ → Dict TrackedSubscription → Dict TrackedSubscription
all_due now [] = []
all_due now ((k, t) ∷ d) = (k, due_at now t) ∷ all_due now d

unfoldable pub on_reconnect : Manager → Net → Manager
on_reconnect m n = record m {
  reconnects = m.reconnects + 1;
  subscriptions = all_due n.now m.subscriptions;
}

-- A round of `_renewal_loop`, with the minute after it.
abbrev pub renew_due : Manager → Net → TrackedSubscription → Step
renew_due m n t = if should_renew t n.now then renew_subscription t m n else (true, t, m, n)

unfoldable pub renew_each : List String → Manager → Net → Manager × Net
renew_each [] m n = (m, n)
renew_each (k ∷ ks) m n =
    let (ok, m', n') = with_tracked k (renew_due m n) m n in renew_each ks m' n'

unfoldable pub renewal_round : Manager → Net → Manager × Net
renewal_round m n =
    let (m', n') = renew_each (keys m.subscriptions) m n in
    if m.running then (m', record n' { now = n'.now + 60 }) else (m, n)

-- `SubscriptionManager(config, simulation_mode=...)`: a later configuration with the same id takes
-- the place of an earlier one.
unfoldable pub init_from_config :
    List SubscriptionConfig → Dict TrackedSubscription → Dict TrackedSubscription
init_from_config [] d = d
init_from_config (c ∷ cs) d = init_from_config cs (insert c.id (track c) d)

unfoldable pub init : RuntimeConfig → Bool → Manager
init c simulation = record {
  config = c;
  simulation_mode = simulation;
  subscriptions = init_from_config c.subscriptions [];
  clients = [];
  running = false;
  created = 0;
  deleted = 0;
  renewed = 0;
  failures = 0;
  reconnects = 0;
}
