-- ===== src/Subs/Stopping.antt =====
-- `stop` of src/bms_2030_5_client/subs/manager.py, which cancels the renewal task: the one operation that
-- interrupts another one.
use ieee2030_5_cold_client.Prelude.{
  ◌≡◌, String, Bool, true, false, none, some, [], ◌&&◌, not, if◌then◌else◌, nonempty, arith,
  returned, raised,
}
use ieee2030_5_cold_client.Subs.{
  renewing, Request, delete, send, TrackedSubscription, Net, Manager, get_client, should_renew,
}
use ieee2030_5_cold_client.Subs.Requests.{
  Done, delete_subscription, delete_href, post_of, recreated,
}
use ieee2030_5_cold_client.Subs.Lifecycle.{Step, with_tracked}
use ieee2030_5_cold_client.Subs.Settled.{Leaves, is_settled, delete-Leaves}

-- The await in which the renewal task is when it is cancelled: the minute between two rounds, or the
-- DELETE or the POST in the renewal of one subscription.
pub data Awaiting : Type 0 where
  sleeping : Awaiting
  deleting_one : String → Awaiting
  posting_one : String → Awaiting

abbrev pub renewing_one : TrackedSubscription → TrackedSubscription
renewing_one t = record t { state = renewing }

-- A request whose answer nobody reads.
abbrev pub unread : Request → Net → Net
unread r n = (send r n).1

-- What a renewal of `t` that is cancelled in its DELETE has done: the subscription stays RENEWING.
abbrev pub cancelled_in_delete : TrackedSubscription → Manager → Net → Step
cancelled_in_delete t m n = elim t.subscription_href [
  | none ↦ (false, t, m, n)
  | some href ↦
      if nonempty href then (false, renewing_one t, m, unread (delete href) n) else (false, t, m, n)
]

-- And one that is cancelled in its POST, behind the DELETE.
abbrev pub in_post : Done → Step
in_post (returned ok, t, m, n) = (false, t, m, unread (post_of t m) n)
in_post (raised e, t, m, n) = recreated (raised e, t, m, n)

abbrev pub cancelled_in_post : TrackedSubscription → Manager → Net → Step
cancelled_in_post t m n = in_post (delete_subscription (renewing_one t) m n)

-- Only a due renewal with a client, which is no simulation, awaits a request.
abbrev pub cancelled :
    (TrackedSubscription → Manager → Net → Step) → Manager → Net → TrackedSubscription → Step
cancelled step m n t =
    if should_renew t n.now && not m.simulation_mode && (get_client t.config.profile_name m).0
    then step t m n
    else (false, t, m, n)

unfoldable pub cancel_renewal : Awaiting → Manager → Net → Bool × Manager × Net
cancel_renewal sleeping m n = (false, m, n)
cancel_renewal (deleting_one k) m n = with_tracked k (cancelled cancelled_in_delete m n) m n
cancel_renewal (posting_one k) m n = with_tracked k (cancelled cancelled_in_post m n) m n

unfoldable pub stop : Awaiting → Manager → Net → Manager × Net
stop await m n =
    let (ok, m', n') = cancel_renewal await (record m { running = false }) n in
    if m.running then (record m' { clients = [] }, n') else (m, n)

pub cancelled_in_delete-Leaves :
    (t : TrackedSubscription) (m : Manager) (n : Net) → Leaves m (cancelled_in_delete t m n).2
cancelled_in_delete-Leaves t m n = ground arith

pub cancelled_in_delete-settled :
    (t : TrackedSubscription) (m : Manager) (n : Net)
    → is_settled t ≡ true
    → is_settled (cancelled_in_delete t m n).1 ≡ true
cancelled_in_delete-settled t m n h = ground (arith, h)

in_post-Leaves : (m : Manager) (d : Done) → Leaves m d.2 → Leaves m (in_post d).2
in_post-Leaves m (returned ok, t, m', n) h = h
in_post-Leaves m (raised e, t, m', n) h = h

pub cancelled_in_post-Leaves :
    (t : TrackedSubscription) (m : Manager) (n : Net) → Leaves m (cancelled_in_post t m n).2
cancelled_in_post-Leaves t m n =
    in_post-Leaves m (delete_subscription (renewing_one t) m n) (delete-Leaves (renewing_one t) m n)

pub cancelled_in_post-settled :
    (t : TrackedSubscription) (m : Manager) (n : Net)
    → is_settled (cancelled_in_post t m n).1 ≡ true
unfolding delete_subscription delete_href
cancelled_in_post-settled t m n = ground arith
