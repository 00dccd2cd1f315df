-- ===== src/Client/Calm/Reports.antt =====
-- What a report of `_send_response` in src/bms_2030_5_client/dera/der_client.py leaves as it was.
use ieee2030_5_cold_client.Prelude.{
  ℕ, zero, suc, ◌≡◌, refl, ◌∙◌, Bool, true, false, Option, none, some, ◌∷◌, arith, String, if_intro,
  ◌==◌, ◌+◌,
}
use ieee2030_5_cold_client.World.{World, wait, post}
use ieee2030_5_cold_client.Handler.{Status}
use ieee2030_5_cold_client.Client.State.{
  ResponseStatus, Response, TrackedControl, Client, change, set_status,
}
use ieee2030_5_cold_client.Client.Response.{
  delivered, not_delivered, undelivered, post_loop, send_to, reply_target, send_response, report,
  should_send,
}
use ieee2030_5_cold_client.Client.Processing.{is_active}
use ieee2030_5_cold_client.Client.Calm.{IsCalm}

-- A client that differs from another in its reports alone: each control has its status and its
-- content, and the dictionaries and the handler are the same.
abbrev pub SameControls : Client → Client → Type 0
SameControls c c' =
    ((r : ℕ) → (c'.objects r).status ≡ (c.objects r).status)
    × ((r : ℕ) → (c'.objects r).control ≡ (c.objects r).control)
    × (c'.handler ≡ c.handler)
    × (c'.tracked_controls ≡ c.tracked_controls)
    × (c'.active_by_mode ≡ c.active_by_mode)
    × (c'.processed_event_retention ≡ c.processed_event_retention)
    × (c'.processed ≡ c.processed)

SameControls-refl : (c : Client) → SameControls c c
SameControls-refl c = (λ r. refl, λ r. refl, refl, refl, refl, refl, refl)

SameControls-trans : (a b c : Client) → SameControls a b → SameControls b c → SameControls a c
SameControls-trans a b c (s, u, h, t, m, n, p) (s', u', h', t', m', n', p') =
    (λ r. s' r ∙ s r, λ r. u' r ∙ u r, h' ∙ h, t' ∙ t, m' ∙ m, n' ∙ n, p' ∙ p)

-- A change of one control that keeps its status and content.
SameControls-change :
    (r : ℕ) (f : TrackedControl → TrackedControl) (c c' : Client)
    → ((t : TrackedControl) → (f t).status ≡ t.status)
    → ((t : TrackedControl) → (f t).control ≡ t.control)
    → SameControls c c'
    → SameControls c (change r f c')
SameControls-change r f c c' hs hc (s, u, h, t, m, n, p) = (
  λ k. ground (arith, hs (c'.objects k), s k),
  λ k. ground (arith, hc (c'.objects k), u k),
  h,
  t,
  m,
  n,
  p,
)

abbrev Same : Client → Bool × Client × World → Type 0
Same c t = SameControls c t.1

post_loop-SameControls :
    (left done : ℕ) (x : Response) (r : ℕ) (c : Client) (w : World)
    → Same c (post_loop left done x r c w)
unfolding post_loop post
post_loop-SameControls zero done x r c w = SameControls-refl c
post_loop-SameControls (suc left) done x r c w =
    let sent = record c { posts = x ∷ c.posts } in
    let w₁ = (post w).1 in
    let failed = change r (not_delivered (done + 1) w₁.now) sent in
    let counted = record sent { responses_sent = sent.responses_sent + 1 } in
    let failed_same =
      SameControls-change r (not_delivered (done + 1) w₁.now) c sent (λ t. refl) (λ t. refl)
        (SameControls-refl c) in
    if_intro (Same c) _
      (SameControls-change r delivered c counted (λ t. refl) (λ t. refl) (SameControls-refl c))
      (if_intro (Same c) (left == 0)
        (SameControls-change r (undelivered x.status) c failed (λ t. refl) (λ t. refl) failed_same)
        (SameControls-trans c failed (post_loop left (done + 1) x r failed (wait w₁)).1 failed_same
          (post_loop-SameControls left (done + 1) x r failed (wait w₁))))

send_to-SameControls :
    (to : Option String) (s : ResponseStatus) (r : ℕ) (c : Client) (w : World)
    → Same c (send_to to s r c w)
unfolding send_to
send_to-SameControls none s r c w =
    SameControls-change r (λ t. record t { response_sent = true }) c
      (record c { responses_sent = c.responses_sent + 1 }) (λ t. refl) (λ t. refl)
      (SameControls-refl c)
send_to-SameControls (some to) s r c w = post_loop-SameControls c.response_max_retries 0 _ r c w

-- A report to the server, whatever its replies and the number of retries, changes no control's
-- status or content, no dictionary of controls, nothing of the handler and no processed id.
pub report-SameControls :
    (r : ℕ) (s : ResponseStatus) (c : Client) (w : World) → SameControls c (report r s c w).0
unfolding report send_response
report-SameControls r s c w =
    if_intro (Same c) (should_send (c.objects r).control s)
      (send_to-SameControls (reply_target (c.objects r).control) s r c w) (SameControls-refl c)

-- A report keeps a client calm.
pub report-IsCalm :
    (r : ℕ) (s : ResponseStatus) (c : Client) (w : World) → IsCalm c → IsCalm (report r s c w).0
report-IsCalm r s c w (quiet, bounded, room, within) =
    let (status, _, handler, _, _, retention, processed) = report-SameControls r s c w in
    (
      λ k. rw (status k) (quiet k),
      rw handler bounded,
      rw retention room,
      rw (retention, processed) within,
    )

-- So does a change of one control, to a status other than ACTIVE.
pub change-IsCalm :
    (r : ℕ) (s : Status) (c : Client)
    → is_active s ≡ false
    → IsCalm c
    → IsCalm (change r (set_status s) c)
change-IsCalm r s c e (quiet, bounded, room, within) =
    (λ k. ground (arith, quiet k), bounded, room, within)
