-- ===== src/Subs.antt =====
-- `SubscriptionManager` of src/bms_2030_5_client/subs/manager.py: subscriptions to resources of an IEEE 2030.5
-- server, their renewal, and the reconciliation with a new configuration. Each operation is one
-- piece here. A configuration's fields have their annotated types; the XML of a subscription is
-- kept as what it is built from, and that of a reply as the href that is found in it.
pub mod Requests
pub mod Lifecycle
pub mod Settled
pub mod Stopping
pub mod Effects
pub mod Reachable
pub mod Refine
pub mod Latest
pub mod Reload
pub mod Renewals
use Prim.Native.String.{◌++◌ as append}
use ieee2030_5_cold_client.Prelude.{
  ℕ, ◌+◌, ◌*◌, String, Bool, true, false, Option, none, some, List, [], ◌∷◌, ◌&&◌, ◌||◌, not,
  if◌then◌else◌, leb, ◌==◌, str_eq, nonempty, or_text,
}
use ieee2030_5_cold_client.Prelude.Int.{ℤ, pos, ltb_ℤ, abs}
use ieee2030_5_cold_client.Prelude.Text.{rstrip_slash, before_slash}
use ieee2030_5_cold_client.Prelude.Dict.{Dict, lookup, insert, erase}

-- `SubscriptionState`.
pub data SubscriptionState : Type 0 where
  disabled pending active renewing deleting failed : SubscriptionState

pub record SubscriptionConditions : Type 0 where
  pub lower_threshold : Option ℤ
  pub upper_threshold : Option ℤ
  pub attribute_identifier : Option String

pub record SubscriptionConfig : Type 0 where
  pub id : String
  pub enabled : Bool
  pub profile_name : String
  pub resource_uri : String
  pub notification_endpoint : String
  pub conditions : Option SubscriptionConditions
  pub renew_interval_hours : ℤ

-- What the manager reads of `RuntimeConfig`: the names of its profiles, and the addresses of the
-- notification server, public or else where it listens.
pub record RuntimeConfig : Type 0 where
  pub subscriptions : List SubscriptionConfig
  pub profiles : List String
  pub public_uri : String
  pub listen_uri : String
  pub endpoint_path : String

pub record TrackedSubscription : Type 0 where
  pub config : SubscriptionConfig
  pub state : SubscriptionState
  pub subscription_href : Option String
  pub created_at : Option ℕ
  pub last_renewed_at : Option ℕ
  pub next_renewal_at : Option ℕ
  pub renewal_count : ℕ
  pub failure_count : ℕ
  pub last_error : Option String

-- `SepResponse`: the Location header, what `_extract_href_from_response` finds in the body, and for
-- the messages the status line `HTTP {status_code}` and the body's first 200 characters.
pub record SepResponse : Type 0 where
  pub status_code : ℕ
  pub location : Option String
  pub body_href : Option String
  pub http_status : String
  pub excerpt : String

-- What a request ends with: a response, a `SepClientError` or another exception.
pub data Reply : Type 0 where
  response : SepResponse → Reply
  sep_error : String → Reply
  exception : String → Reply

pub data Request : Type 0 where
  post : (uri resource notification : String) → Option SubscriptionConditions → Request
  delete : String → Request

-- The server and the clock: what each request will end with and how long it will take, and what was
-- sent, the newest first.
pub record Net : Type 0 where
  pub now : ℕ
  pub replies : ℕ → Reply
  pub seconds : ℕ → ℕ
  pub at : ℕ
  pub sent : List Request

pub record Manager : Type 0 where
  pub config : RuntimeConfig
  pub simulation_mode : Bool
  pub subscriptions : Dict TrackedSubscription
  pub clients : List String
  pub running : Bool
  pub created : ℕ
  pub deleted : ℕ
  pub renewed : ℕ
  pub failures : ℕ
  pub reconnects : ℕ

unfoldable pub send : Request → Net → Reply × Net
send r n =
    (n.replies n.at, record n { now = n.now + n.seconds n.at; at = n.at + 1; sent = r ∷ n.sent })

abbrev pub is_active : TrackedSubscription → Bool
is_active t = elim t.state [ active ↦ true | _ ↦ false ]

-- `should_renew`.
abbrev pub should_renew : TrackedSubscription → ℕ → Bool
should_renew t now = is_active t && elim t.next_renewal_at [ none ↦ false | some r ↦ leb r now ]

abbrev pub track : SubscriptionConfig → TrackedSubscription
track c = record {
  config = c;
  state = disabled;
  subscription_href = none;
  created_at = none;
  last_renewed_at = none;
  next_renewal_at = none;
  renewal_count = 0;
  failure_count = 0;
  last_error = none;
}

abbrev pub mem : String → List String → Bool
mem s [] = false
mem s (x ∷ xs) = str_eq x s || mem s xs

-- `_get_client`: is there a client, and the clients afterwards.
abbrev pub get_client : String → Manager → Bool × Manager
get_client name m =
    if mem name m.clients
    then (true, m)
    else if mem name m.config.profiles
    then (true, record m { clients = name ∷ m.clients })
    else (false, m)

-- `_get_notification_uri`.
unfoldable pub notification_uri : RuntimeConfig → SubscriptionConfig → String
notification_uri c s =
    if nonempty s.notification_endpoint
    then s.notification_endpoint
    else if nonempty c.public_uri
    then append c.public_uri c.endpoint_path
    else append c.listen_uri c.endpoint_path

-- `_update_next_renewal`: at least an hour.
abbrev pub next_renewal : SubscriptionConfig → ℕ → ℕ
next_renewal c now =
    now + 3600 * (if ltb_ℤ (pos 1) c.renew_interval_hours then abs c.renew_interval_hours else 1)

-- `_get_subscription_list_uri`.
unfoldable pub subscription_list_uri : String → String
subscription_list_uri resource = elim (before_slash (rstrip_slash resource)) [
  | none ↦ "/sub"
  | some parent ↦ append parent "/sub"
]
