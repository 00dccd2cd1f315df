-- ===== src/Tests/Subscriptions.antt =====
-- The theorems on src/bms_2030_5_client/subs/manager.py at a concrete manager, with runs of the code.
use ieee2030_5_cold_client.Prelude.{
  ◌≡◌, refl, true, false, none, some, [], ◌∷◌, ◌&&◌, ◌||◌, String, List,
}
use ieee2030_5_cold_client.Prelude.Int.{pos}
use ieee2030_5_cold_client.Prelude.Text.{rstrip_slash, before_slash}
use ieee2030_5_cold_client.Prelude.Dict.{lookup}
use ieee2030_5_cold_client.Subs.{
  failed, SubscriptionConfig, RuntimeConfig, TrackedSubscription, SepResponse, response, Net,
  Manager, is_active, track, get_client, subscription_list_uri,
}
use ieee2030_5_cold_client.Subs.Lifecycle.{enable_tracked, enable, reload, init}
use ieee2030_5_cold_client.Subs.Reachable.{AllSettled, initialised, enabled, reachable-AllSettled}
use ieee2030_5_cold_client.Subs.Refine.{view_of}
use ieee2030_5_cold_client.Subs.Latest.{latest, followed}
use ieee2030_5_cold_client.Subs.Reload.{reload_follows}
use ieee2030_5_cold_client.Subs.Renewals.{
  rounds, rounds-inactive, is_created, enable_tracked-created,
}

abbrev controls : SubscriptionConfig
controls = record {
  id = "controls";
  enabled = true;
  profile_name = "utility";
  resource_uri = "/edev/1/der/";
  notification_endpoint = "";
  conditions = none;
  renew_interval_hours = pos 24;
}

abbrev times : SubscriptionConfig
times = record controls { id = "times"; enabled = false; resource_uri = "/tm" }

abbrev config : RuntimeConfig
config = record {
  subscriptions = controls ∷ times ∷ [];
  profiles = "utility" ∷ [];
  public_uri = "";
  listen_uri = "https://0.0.0.0:8443";
  endpoint_path = "/notify";
}

abbrev created_response : SepResponse
created_response = record {
  status_code = 201;
  location = some "/edev/1/sub/7";
  body_href = none;
  http_status = "HTTP 201";
  excerpt = "";
}

abbrev net : Net
net = record {
  now = 1000;
  replies = λ k. response created_response;
  seconds = λ k. 2;
  at = 0;
  sent = [];
}

abbrev simulated : Manager
simulated = init config true

abbrev manager : Manager
manager = init config false

-- Controls are switched off, and times on.
abbrev swapped : RuntimeConfig
swapped = record config {
  subscriptions = record controls { enabled = false } ∷ record times { enabled = true } ∷ [];
}

abbrev as_listed : List String → List String
as_listed ks = ks

reload_follows_example :
    view_of (reload as_listed swapped simulated net).0 "times"
    ≡ followed (latest "times" swapped.subscriptions)
unfolding init
reload_follows_example = reload_follows as_listed swapped simulated net (λ k ks. refl) refl "times"

reachable-AllSettled_example : AllSettled (enable "controls" (init config false) net).1
reachable-AllSettled_example =
    reachable-AllSettled (enable "controls" (init config false) net).1
      (enabled "controls" (init config false) net (initialised config false))

abbrev lost : TrackedSubscription
lost = record (track controls) { state = failed; last_error = some "HTTP 503" }

abbrev with_lost : Manager
with_lost = record manager { subscriptions = ("controls", lost) ∷ []; running = true }

lookup-lost : lookup "controls" with_lost.subscriptions ≡ some lost
unfolding lookup
lookup-lost = refl

rounds-inactive_example : lookup "controls" (rounds 3 with_lost net).0.subscriptions ≡ some lost
rounds-inactive_example = rounds-inactive 3 "controls" with_lost net lost refl lookup-lost

enable_tracked-created_example : (enable_tracked (track controls) with_lost net).0 ≡ (
    is_active (track controls)
    || ((get_client "utility" with_lost).0 && is_created (net.replies net.at)))
unfolding init
enable_tracked-created_example = enable_tracked-created (track controls) with_lost net refl

list_uri : subscription_list_uri "/edev/1/der/" ≡ "/edev/1/sub"
unfolding subscription_list_uri before_slash rstrip_slash
list_uri = refl

list_uri_root : subscription_list_uri "tm" ≡ "/sub"
unfolding subscription_list_uri before_slash rstrip_slash
list_uri_root = refl
