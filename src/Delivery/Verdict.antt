-- ===== src/Delivery/Verdict.antt =====
-- What a reply does to its event and to its endpoint (internal/webhook/worker.go).
use mathlib.Core.Path.{subst}
use tronvent.Base.{
  ℕ, ◌+◌, String, Bool, true, false, not, ◌&&◌, ◌||◌, List, [], ◌∷◌, ◌++◌, ◌≡◌, ◌≢◌, refl, ◌∙◌, inl,
  inr, Bool-cases, arith, ltb, leb, ◌==◌, eq_iff, any, if◌then◌else◌,
}
use tronvent.Outbox.{Event, WebhookEndpoint, Status, delivered, failed, dead}
use tronvent.Outbox.Lifecycle.{
  mark_webhook_event_delivered, mark_webhook_event_failed, set_delivered, set_failed,
}
use tronvent.Outbox.Lifecycle.Claims.{AllWithId}
use tronvent.Retry.{DeliveryOutcome, success, retry, fail, gone, classify_delivery}
use tronvent.Endpoints.{deactivate_webhook}
use tronvent.Delivery.{
  Environment, World, Posted, Attempt, DbCall, is_none, resolve_endpoint_id, mark_failed,
  mark_event_dead, mark_delivered, disable_endpoint_and_notify, record_attempt, exhaust, settle,
  conclude, is_same_attempt, response_code,
}
use tronvent.Delivery.Outcome.{AllWithId-update_same, disable_rows}

-- A 2xx that was read.
abbrev pub accepted : Posted → Bool
accepted p = is_none p.error && leb 200 p.status_code && ltb p.status_code 300

-- An error of the transport, too many requests, or a server's error.
abbrev pub may_retry : Posted → Bool
may_retry p = not (is_none p.error) || p.status_code == 429 || leb 500 p.status_code

abbrev pub verdict : ℕ → ℕ → Posted → Status
verdict max_attempts attempt p =
    if accepted p
    then delivered
    else if may_retry p && ltb attempt max_attempts
    then failed
    else dead

-- The subscriber is gone, or its attempts are used up.
abbrev pub ends_endpoint : ℕ → ℕ → Posted → Bool
ends_endpoint max_attempts attempt p =
    (is_none p.error && p.status_code == 410) || (may_retry p && leb max_attempts attempt)

abbrev status_of : ℕ → ℕ → DeliveryOutcome → Status
status_of max_attempts attempt success = delivered
status_of max_attempts attempt gone = dead
status_of max_attempts attempt fail = dead
status_of max_attempts attempt retry = if leb max_attempts attempt then dead else failed

abbrev ends_of : ℕ → ℕ → DeliveryOutcome → Bool
ends_of max_attempts attempt success = false
ends_of max_attempts attempt gone = true
ends_of max_attempts attempt fail = false
ends_of max_attempts attempt retry = leb max_attempts attempt

classified :
    (max_attempts attempt : ℕ) (p : Posted)
    → let o = classify_delivery p.status_code (not (is_none p.error)) in
      (status_of max_attempts attempt o ≡ verdict max_attempts attempt p)
      × (ends_of max_attempts attempt o ≡ ends_endpoint max_attempts attempt p)
unfolding classify_delivery
classified max_attempts attempt p = ground arith

if_same :
    (f : List WebhookEndpoint → List WebhookEndpoint) {a b : Bool} {x y : List WebhookEndpoint}
    → a ≡ b
    → x ≡ y
    → (if a then f x else x) ≡ (if b then f y else y)
if_same f h k = rw (h, k)

-- The attempts with one more, unless its number is taken.
abbrev pub with_attempt : Attempt → List Attempt → List Attempt
with_attempt a before = if any (is_same_attempt a) before then before else before ++ a ∷ []

-- The attempt with this number for the event, with the reply's status and body.
abbrev pub IsAttempt : Event → Posted → Attempt → Type 0
IsAttempt ev p a =
    (a.webhook_event_id ≡ ev.id)
    × (a.attempt_number ≡ ev.attempt_count + 1)
    × (a.response_code ≡ response_code p.status_code)
    × (a.response_body ≡ p.response_body)

module _ (env : Environment) (max_attempts now : ℕ)
    (up : (call : DbCall) → env.fails call ≡ false) where
  exhaust_rows :
      (ev : Event) (ep : WebhookEndpoint) (attempt : ℕ) (r : World × Bool)
      → (exhaust env max_attempts now ev ep attempt r).0.rows ≡ r.0.rows
  exhaust_rows ev ep attempt (w, false) = refl
  exhaust_rows ev ep attempt (w, true) = elim (Bool-cases (leb max_attempts attempt)) [
    | inl l ↦ rw l (disable_rows env max_attempts now ep _ _ w)
    | inr l ↦ rw l
  ]

  settle_rows :
      (ev : Event) (ep : WebhookEndpoint) (attempt : ℕ) (p : Posted) (w : World)
      → (o : DeliveryOutcome)
      → AllWithId ev.id
          (λ e. e.status ≡ status_of max_attempts attempt o)
          (settle env max_attempts now ev ep attempt p w o).0.rows
  unfolding settle mark_event_dead mark_failed mark_delivered mark_webhook_event_delivered
      mark_webhook_event_failed set_delivered set_failed
  settle_rows ev ep attempt p w success = rw (up DbCall.mark_delivered_call) (
      AllWithId-update_same ev.id _ (set_delivered now p.status_code) w.rows (λ e. refl)
        (λ e. refl))
  settle_rows ev ep attempt p w gone =
      rw (up DbCall.mark_failed_call)
        (AllWithId-update_same ev.id _ _ _ (λ e. ground arith) (λ e. ground arith))
  settle_rows ev ep attempt p w fail =
      rw (up DbCall.mark_failed_call)
        (AllWithId-update_same ev.id _ _ _ (λ e. ground arith) (λ e. ground arith))
  settle_rows ev ep attempt p w retry = rw (exhaust_rows ev ep attempt _) (
      rw (up DbCall.mark_failed_call)
        (AllWithId-update_same ev.id _ _ _ (λ e. ground arith) (λ e. ground arith)))

  settle_endpoints :
      (ev : Event) (ep : WebhookEndpoint) (attempt : ℕ) (p : Posted) (w : World)
      → (o : DeliveryOutcome) → resolve_endpoint_id ev ep ≢ ""
      → let w' = (settle env max_attempts now ev ep attempt p w o).0 in
        (w'.endpoints ≡ (
          if ends_of max_attempts attempt o
          then deactivate_webhook now (resolve_endpoint_id ev ep) w.endpoints
          else w.endpoints))
        × (w'.attempts ≡ w.attempts)
  unfolding settle mark_event_dead mark_failed mark_delivered disable_endpoint_and_notify
  settle_endpoints ev ep attempt p w success h = ground (arith, up DbCall.mark_delivered_call)
  settle_endpoints ev ep attempt p w gone h = ground (
    arith,
    up DbCall.mark_failed_call,
    up DbCall.deactivate_call,
    eq_iff (resolve_endpoint_id ev ep) "",
  )
  settle_endpoints ev ep attempt p w fail h = ground (arith, up DbCall.mark_failed_call)
  settle_endpoints ev ep attempt p w retry h = ground (
    arith,
    up DbCall.mark_failed_call,
    up DbCall.deactivate_call,
    eq_iff (resolve_endpoint_id ev ep) "",
  )

  record_attempt_keeps :
      (a : Attempt) (w : World)
      → let w' = record_attempt env max_attempts now a w in
        (w'.endpoints ≡ w.endpoints) × (w'.attempts ≡ with_attempt a w.attempts)
  unfolding record_attempt
  record_attempt_keeps a w =
      rw (up DbCall.record_attempt_call) (elim (Bool-cases (any (is_same_attempt a) w.attempts)) [
        | inl e ↦ rw e (refl, refl)
        | inr e ↦ rw e (refl, refl)
      ])

  settle-status :
      (ev : Event) (ep : WebhookEndpoint) (attempt : ℕ) (p : Posted) (w : World)
      → (o : DeliveryOutcome) (s : Status) → status_of max_attempts attempt o ≡ s
      → AllWithId ev.id (λ e. e.status ≡ s) (settle env max_attempts now ev ep attempt p w o).0.rows
  settle-status ev ep attempt p w o s h =
      subst
        (λ t.
          AllWithId ev.id (λ e. e.status ≡ t)
            (settle env max_attempts now ev ep attempt p w o).0.rows)
        h (settle_rows ev ep attempt p w o)

  -- The verdict on a reply. Where the database answers and the endpoint has an id, the event's rows
  -- become `delivered` on a 2xx without an error; `failed`, so that they are tried again, on a
  -- transport error, a 429 or a 5xx with attempts left; and `dead` otherwise. The endpoint is
  -- deactivated in the table on a 410 and where such a retry was the last attempt, and in no other
  -- case. The attempt is recorded, with the reply's status and body, unless the event has one of the
  -- same number already; nothing else is recorded.
  pub conclude-verdict :
      (ev : Event) (ep : WebhookEndpoint) (body : String) (p : Posted) (w : World)
      → resolve_endpoint_id ev ep ≢ ""
      → let w' = (conclude env max_attempts now ev ep body p w).0 in
        let attempt = ev.attempt_count + 1 in
        AllWithId ev.id (λ e. e.status ≡ verdict max_attempts attempt p) w'.rows
        × (w'.endpoints ≡ (
            if ends_endpoint max_attempts attempt p
            then deactivate_webhook now (resolve_endpoint_id ev ep) w.endpoints
            else w.endpoints))
        × (a : Attempt) × IsAttempt ev p a
        × (w'.attempts ≡ with_attempt a w.attempts)
  unfolding conclude
  conclude-verdict ev ep body p w h =
      let (same_status, same_end) = classified max_attempts (ev.attempt_count + 1) p in
      let o = classify_delivery p.status_code (not (is_none p.error)) in
      let (ends, kept) = settle_endpoints ev ep (ev.attempt_count + 1) p _ o h in
      let (tables, grown) = record_attempt_keeps _ w in
      (
        settle-status ev ep (ev.attempt_count + 1) p _ o _ same_status,
        ends ∙ if_same (deactivate_webhook now (resolve_endpoint_id ev ep)) same_end tables,
        _,
        (refl, refl, refl, refl),
        kept ∙ grown,
      )
