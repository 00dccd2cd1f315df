-- ===== src/Subs/Requests.antt =====
-- The requests of src/bms_2030_5_client/subs/manager.py for one subscription: its creation, its deletion and its
-- renewal. Each ends with the subscription, the manager and the server afterwards.
use Prim.Native.String.{◌++◌ as append}
use ieee2030_5_cold_client.Prelude.{
  ℕ, ◌+◌, String, Bool, true, false, Option, none, some, ◌||◌, if◌then◌else◌, ◌==◌, nonempty,
  Outcome, returned, raised,
}
use ieee2030_5_cold_client.Subs.{
  active, renewing, failed, TrackedSubscription, SepResponse, Reply, response, sep_error, exception,
  Request, post, delete, Net, Manager, send, get_client, notification_uri, subscription_list_uri,
  next_renewal,
}

-- How a request for a subscription ends.
abbrev pub Done : Type 0
Done = Outcome Bool × TrackedSubscription × Manager × Net

-- The href of a created subscription: the header, or else the body.
abbrev pub created_href : SepResponse → Option String
created_href r = elim r.location [
  | none ↦ r.body_href
  | some l ↦ if nonempty l then some l else r.body_href
]

abbrev pub created : Reply → TrackedSubscription → Manager → Net → Done
created (response r) t m n =
    if r.status_code == 201
    then (returned true, record t { subscription_href = created_href r }, m, n)
    else (
      returned false,
      record t { last_error = some (append (append r.http_status ": ") r.excerpt) },
      m,
      n,
    )
created (sep_error e) t m n = (returned false, record t { last_error = some e }, m, n)
created (exception e) t m n = (raised e, t, m, n)

abbrev pub post_of : TrackedSubscription → Manager → Request
post_of t m =
    post (subscription_list_uri t.config.resource_uri) t.config.resource_uri
      (notification_uri m.config t.config) t.config.conditions

abbrev pub no_profile : TrackedSubscription → TrackedSubscription
no_profile t = record t { last_error = some (append "Profile not found: " t.config.profile_name) }

-- `_create_subscription`.
unfoldable pub create_subscription : TrackedSubscription → Manager → Net → Done
create_subscription t m n =
    let client = get_client t.config.profile_name m in
    let sent = send (post_of t m) n in
    if m.simulation_mode
    then (
      returned true,
      record t { subscription_href = some (append "/sub/sim-" t.config.id) },
      m,
      n,
    )
    else if client.0
    then created sent.0 t client.1 sent.1
    else (returned false, no_profile t, client.1, n)

abbrev pub deleted : Reply → TrackedSubscription → Manager → Net → Done
deleted (response r) t m n =
    if r.status_code == 200 || r.status_code == 204 || r.status_code == 404
    then (returned true, t, m, n)
    else (returned false, record t { last_error = some r.http_status }, m, n)
deleted (sep_error e) t m n = (returned false, record t { last_error = some e }, m, n)
deleted (exception e) t m n = (raised e, t, m, n)

-- `_delete_subscription`, where there is an href.
unfoldable pub delete_href : String → TrackedSubscription → Manager → Net → Done
delete_href href t m n =
    let client = get_client t.config.profile_name m in
    let sent = send (delete href) n in
    if m.simulation_mode
    then (returned true, t, m, n)
    else if client.0
    then deleted sent.0 t client.1 sent.1
    else (returned false, no_profile t, client.1, n)

-- `if tracked.subscription_href: await self._delete_subscription(tracked)`.
unfoldable pub delete_subscription : TrackedSubscription → Manager → Net → Done
delete_subscription t m n = elim t.subscription_href [
  | none ↦ (returned true, t, m, n)
  | some href ↦ if nonempty href then delete_href href t m n else (returned true, t, m, n)
]

-- The times and the count of a renewal that went through.
abbrev pub renewed_at : ℕ → TrackedSubscription → TrackedSubscription
renewed_at now t = record t {
  last_renewed_at = some now;
  renewal_count = t.renewal_count + 1;
  next_renewal_at = some (next_renewal t.config now);
}

-- What follows the POST of a renewal.
abbrev pub recreated : Done → Bool × TrackedSubscription × Manager × Net
recreated (returned true, t, m, n) =
    (true, record (renewed_at n.now t) { state = active }, record m { renewed = m.renewed + 1 }, n)
recreated (returned false, t, m, n) =
    (false, record t { state = failed }, record m { failures = m.failures + 1 }, n)
recreated (raised e, t, m, n) = (
  false,
  record t { state = failed; last_error = some e },
  record m { failures = m.failures + 1 },
  n,
)

-- What follows the DELETE: its answer is not read, but an exception ends the renewal.
abbrev pub replaced : Done → Bool × TrackedSubscription × Manager × Net
replaced (returned ok, t, m, n) = recreated (create_subscription t m n)
replaced (raised e, t, m, n) = recreated (raised e, t, m, n)

-- `_renew_subscription`.
unfoldable pub renew_subscription :
    TrackedSubscription → Manager → Net → Bool × TrackedSubscription × Manager × Net
renew_subscription t m n =
    if m.simulation_mode
    then (true, renewed_at n.now t, record m { renewed = m.renewed + 1 }, n)
    else replaced (delete_subscription (record t { state = renewing }) m n)
