-- ===== src/Delivery/Outcome.antt =====
-- Where one delivery leaves its event (internal/webhook/worker.go).
use tronvent.Base.{
  ℕ, ◌+◌, ◌≤◌, String, Bool, true, false, not, ◌&&◌, ◌||◌, Option, none, some, List, [], ◌∷◌, ◌≡◌,
  ◌⊎◌, refl, inl, inr, Bool-cases, arith, ltb, leb, ◌==◌, str_eq, eq_iff,
}
use tronvent.Outbox.{
  Event, WebhookEndpoint, pending, delivering, delivered, failed, dead, is_id, update,
}
use tronvent.Outbox.Enqueue.{validate_payload_size}
use tronvent.Outbox.Lifecycle.{
  mark_webhook_event_delivered, mark_webhook_event_failed, set_delivered, set_failed,
}
use tronvent.Outbox.Lifecycle.Claims.{AllWithId}
use tronvent.Retry.{DeliveryOutcome, success, retry, fail, gone}
use tronvent.Signing.{Headers}
use tronvent.UrlPolicy.{UrlError, validate_webhook_url}
use tronvent.Delivery.{
  Environment, World, Posted, DbCall, Resolved, unresolved, resolved_to, resolve_endpoint,
  mark_failed, mark_event_dead, mark_delivered, disable_endpoint_and_notify, exhaust, with_headers,
  is_final_url_error, after_resolve, settle, conclude, deliver_to, deliver_one,
}

pub AllWithId-update_same {ℓ} :
    (i : String) (Q : Event → Type ℓ) (f : Event → Event) (rows : List Event)
    → ((e : Event) → (f e).id ≡ e.id)
    → ((e : Event) → Q (f e))
    → AllWithId i Q (update (is_id i) f rows)
unfolding update
AllWithId-update_same i Q f [] same q = tt
AllWithId-update_same i Q f (e ∷ es) same q = elim (Bool-cases (is_id i e)) [
  | inl t ↦ rw t ((λ d. q e), AllWithId-update_same i Q f es same q)
  | inr t ↦
      rw t
        ((λ d. absurd (ground (arith, eq_iff i e.id, t, d))), AllWithId-update_same i Q f es same q)
]

-- The row is through, or it is `failed` with the attempt counted and another one left.
abbrev pub is_settled : ℕ → ℕ → Event → Bool
is_settled max_attempts attempt e = elim e.status [
  | delivered ↦ true
  | dead ↦ true
  | failed ↦ e.attempt_count == attempt && ltb attempt max_attempts
  | pending ↦ false
  | delivering ↦ false
]

module _ (env : Environment) (max_attempts now : ℕ) where
  -- The rows of the event.
  abbrev pub Settled : Event → World → Type 0
  Settled ev w =
      AllWithId ev.id (λ e. is_settled max_attempts (ev.attempt_count + 1) e ≡ true) w.rows

  mark_failed-Settled :
      (ev : Event) (attempt : ℕ) (code : Option ℕ) (msg : String) (next : ℕ) (w : World)
      → (mark_failed env max_attempts now ev attempt code msg next w).1 ≡ true
      → ((attempt ≡ ev.attempt_count + 1) ⊎ (max_attempts ≤ attempt))
      → Settled ev (mark_failed env max_attempts now ev attempt code msg next w).0
  unfolding mark_failed mark_webhook_event_failed set_failed
  mark_failed-Settled ev attempt code msg next w ok a =
      elim (Bool-cases (env.fails DbCall.mark_failed_call)) [
        | inl f ↦ absurd (cc (rw f at ok))
        | inr f ↦ rw f (
            AllWithId-update_same ev.id
              (λ e. is_settled max_attempts (ev.attempt_count + 1) e ≡ true)
              (set_failed now attempt code msg next max_attempts) w.rows (λ e. ground arith)
              (λ e. ground (arith, a)))
      ]

  mark_delivered-Settled :
      (ev : Event) (code : ℕ) (w : World)
      → (mark_delivered env max_attempts now ev code w).1 ≡ true
      → Settled ev (mark_delivered env max_attempts now ev code w).0
  unfolding mark_delivered mark_webhook_event_delivered set_delivered
  mark_delivered-Settled ev code w ok = elim (Bool-cases (env.fails DbCall.mark_delivered_call)) [
    | inl f ↦ absurd (cc (rw f at ok))
    | inr f ↦ rw f (
        AllWithId-update_same ev.id (λ e. is_settled max_attempts (ev.attempt_count + 1) e ≡ true)
          (set_delivered now code) w.rows (λ e. refl) (λ e. refl))
  ]

  pub disable_rows :
      (ep : WebhookEndpoint) (id reason : String) (w : World)
      → (disable_endpoint_and_notify env max_attempts now ep id reason w).rows ≡ w.rows
  unfolding disable_endpoint_and_notify
  disable_rows ep id reason w = ground arith

  mark_event_dead-Settled :
      (ev : Event) (code : Option ℕ) (msg : String) (w : World)
      → (mark_event_dead env max_attempts now ev code msg w).1 ≡ true
      → Settled ev (mark_event_dead env max_attempts now ev code msg w).0
  unfolding mark_event_dead
  mark_event_dead-Settled ev code msg w ok =
      mark_failed-Settled ev max_attempts code msg now w ok (inr (omega arith))

  exhaust-Settled :
      (ev : Event) (ep : WebhookEndpoint) (attempt : ℕ) (r : World × Bool)
      → (r.1 ≡ true → Settled ev r.0)
      → (exhaust env max_attempts now ev ep attempt r).1 ≡ true
      → Settled ev (exhaust env max_attempts now ev ep attempt r).0
  exhaust-Settled ev ep attempt (w, false) h ok = h ok
  exhaust-Settled ev ep attempt (w, true) h ok = elim (Bool-cases (leb max_attempts attempt)) [
    | inl l ↦ rw (l, disable_rows ep _ _ w) (h refl)
    | inr l ↦ rw l (h refl)
  ]

  settle-Settled :
      (ev : Event) (ep : WebhookEndpoint) (p : Posted) (w : World) (o : DeliveryOutcome)
      → (settle env max_attempts now ev ep (ev.attempt_count + 1) p w o).1 ≡ true
      → Settled ev (settle env max_attempts now ev ep (ev.attempt_count + 1) p w o).0
  unfolding settle
  settle-Settled ev ep p w success ok = mark_delivered-Settled ev p.status_code w ok
  settle-Settled ev ep p w gone ok = mark_event_dead-Settled ev _ _ _ ok
  settle-Settled ev ep p w fail ok = mark_event_dead-Settled ev _ _ _ ok
  settle-Settled ev ep p w retry ok =
      exhaust-Settled ev ep (ev.attempt_count + 1) _
        (λ k. mark_failed-Settled ev (ev.attempt_count + 1) _ _ _ w k (inl refl)) ok

  -- The result of a delivery: where it returned nil, the event is settled.
  abbrev SettledOk : Event → World × Bool → Type 0
  SettledOk ev r = r.1 ≡ true → Settled ev r.0

  with_headers-Settled :
      (ev : Event) (ep : WebhookEndpoint) (body : String) (e : Option UrlError) (w : World)
      → (h : Option Headers) → SettledOk ev (with_headers env max_attempts now ev ep body e w h)
  unfolding conclude
  with_headers-Settled ev ep body e w none ok = mark_event_dead-Settled ev _ _ w ok
  with_headers-Settled ev ep body e w (some h) ok = settle-Settled ev ep _ _ _ ok

  deliver_to-Settled :
      (ev : Event) (ep : WebhookEndpoint) (w : World)
      → SettledOk ev (deliver_to env max_attempts now ev ep w)
  unfolding deliver_to
  deliver_to-Settled ev ep w =
      elim (Bool-cases (
        is_final_url_error env max_attempts now
          (validate_webhook_url env.network env.url_policy ep.webhook_url))) [
            | inl f ↦ rw f (mark_event_dead-Settled ev _ _ w)
            | inr f ↦ rw f (elim (Bool-cases (validate_payload_size (env.marshal ev.payload))) [
              | inl v ↦ rw v (with_headers-Settled ev ep _ _ w _)
              | inr v ↦ rw v (mark_event_dead-Settled ev _ _ w)
            ])
          ]

  after_resolve-Settled :
      (ev : Event) (w : World) (r : Resolved)
      → SettledOk ev (after_resolve env max_attempts now ev w r)
  after_resolve-Settled ev w unresolved = λ ok. absurd (cc ok)
  after_resolve-Settled ev w (resolved_to none w') = mark_event_dead-Settled ev _ _ w'
  after_resolve-Settled ev w (resolved_to (some ep) w') =
      elim (Bool-cases (not ep.is_active || str_eq ep.webhook_url "")) [
        | inl b ↦ rw b (mark_event_dead-Settled ev _ _ w')
        | inr b ↦ rw b (deliver_to-Settled ev ep w')
      ]

  -- Every delivery that returns nil, on every branch, leaves the rows of its event `delivered`,
  -- `dead`, or `failed` with one more attempt counted than the claim returned and fewer than the
  -- maximum; so no event stays `delivering` after it, and every retry comes nearer to the maximum.
  pub deliver_one-settles :
      (ev : Event) (w : World)
      → (deliver_one env max_attempts now ev w).1 ≡ true
      → AllWithId ev.id
          (λ e. is_settled max_attempts (ev.attempt_count + 1) e ≡ true)
          (deliver_one env max_attempts now ev w).0.rows
  unfolding deliver_one
  deliver_one-settles ev w = after_resolve-Settled ev w (resolve_endpoint env max_attempts now ev w)
