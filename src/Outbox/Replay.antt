-- ===== src/Outbox/Replay.antt =====
-- Replays of a matched event against the outbox: EnqueueWebhookEvent called again, after any
-- history of the outbox's other statements (internal/db/scanner.go, internal/db/dashboard.go).
use mathlib.Core.Path.{subst}
use tronvent.Base.{
  ℕ, String, Bool, true, Option, none, List, [], ◌∷◌, ◌≡◌, refl, ◌∙◌, inl, inr, Bool-cases, arith,
  any, str_eq,
}
use tronvent.Payload.{Envelope, is_known_event_type, normalize_event_type}
use tronvent.Outbox.{Event, WebhookEndpoint, update}
use tronvent.Outbox.Lifecycle.{
  claim_pending_webhook_events, mark_webhook_event_delivered, mark_webhook_event_failed,
  retry_webhook_event, retry_all_failed_dead_webhook_events, set_delivering, set_delivered,
  set_failed, set_pending,
}
use tronvent.Outbox.Enqueue.{
  Request, Batch, Result, ok, err, request_key, enqueue_loop, enqueue_webhook_event, rows_after,
  legacy_webhook_dedupe_exists, is_legacy,
}
use tronvent.Outbox.Enqueue.Loop.{OnOk, covered, AllCovered}
use tronvent.Outbox.Enqueue.Dedupe.{
  OnOk-rows_after, call_inv, loop-covered_still, loop-AllCovered, loop-noop,
}

-- A statement of the delivery worker or the admin API, or another enqueued event.
pub data Op : Type 0 where
  enqueue : List WebhookEndpoint → (String → Bool) → Request → ℕ → Op
  claim : ℕ → (String → Bool) → Op
  mark_delivered : String → ℕ → Op
  mark_failed : String → ℕ → Option ℕ → String → ℕ → ℕ → Op
  retry : String → Op
  retry_all : Op

any-update :
    (p q : Event → Bool) (f : Event → Event)
    → ((e : Event) → p (f e) ≡ p e)
    → (rows : List Event) → any p (update q f rows) ≡ any p rows
unfolding update
any-update p q f h [] = refl
any-update p q f h (e ∷ es) = elim (Bool-cases (q e)) [
  | inl t ↦ rw (t, h e, any-update p q f h es)
  | inr t ↦ rw (t, any-update p q f h es)
]

abbrev normalized : Request → Request
normalized r = record r { std_type = normalize_event_type r.std_type }

-- An update that leaves the identifying columns alone keeps the coverage of every request.
update-covered :
    (r : Request) (ep : WebhookEndpoint) (q : Event → Bool) (f : Event → Event)
    → ((e : Event) → (f e).dedupe_key ≡ e.dedupe_key)
    → ((e : Event) → (f e).scope ≡ e.scope)
    → ((e : Event) → (f e).tx_hash ≡ e.tx_hash)
    → ((e : Event) → (f e).payload ≡ e.payload)
    → (rows : List Event) → covered r ep (update q f rows) ≡ covered r ep rows
unfolding legacy_webhook_dedupe_exists
update-covered r ep q f k s t p rows = rw (
  any-update (λ e. str_eq e.dedupe_key (request_key r ep)) q f (λ e. rw (k e)) rows,
  any-update
      (is_legacy r.scope r.tx_hash r.payload.payload.from_address r.payload.payload.to_address
        r.payload.payload.amount ep.id)
      q f (λ e. rw (k e, s e, t e, p e)) rows,
)

module _ (marshal : Envelope → String) (new_uuid : ℕ → String) where
  unfoldable pub apply : ℕ → Op → List Event → List Event
  apply now (enqueue eps present r drawn) rows =
      rows_after rows (enqueue_webhook_event marshal new_uuid now eps present r rows drawn)
  apply now (claim limit locked) rows = (claim_pending_webhook_events now limit locked rows).0
  apply now (mark_delivered id code) rows = mark_webhook_event_delivered now id code rows
  apply now (mark_failed id attempt code msg next max_attempts) rows =
      mark_webhook_event_failed now id attempt code msg next max_attempts rows
  apply now (retry id) rows = (retry_webhook_event now id rows).0
  apply now retry_all rows = (retry_all_failed_dead_webhook_events now rows).0

  unfoldable pub apply_all : List (ℕ × Op) → List Event → List Event
  apply_all [] rows = rows
  apply_all ((now, op) ∷ ops) rows = apply_all ops (apply now op rows)

  apply-covered :
      (r : Request) (ep : WebhookEndpoint) (now : ℕ) (op : Op) (rows : List Event)
      → covered r ep rows ≡ true
      → covered r ep (apply now op rows) ≡ true
  unfolding apply claim_pending_webhook_events mark_webhook_event_delivered
      mark_webhook_event_failed retry_webhook_event retry_all_failed_dead_webhook_events
      set_delivering set_delivered set_failed set_pending
  apply-covered r ep now (enqueue eps present q drawn) rows h =
      OnOk-rows_after marshal new_uuid (λ rs. covered r ep rs ≡ true) rows _ h
        (call_inv marshal new_uuid (λ b. covered r ep b.rows ≡ true) now eps present q rows drawn h
          (λ q' b k. loop-covered_still marshal new_uuid now present q' r ep eps b k))
  apply-covered r ep now (claim limit locked) rows h =
      update-covered r ep _ (set_delivering now) (λ e. refl) (λ e. refl) (λ e. refl) (λ e. refl)
        rows
      ∙ h
  apply-covered r ep now (mark_delivered id code) rows h =
      update-covered r ep _ (set_delivered now code) (λ e. refl) (λ e. refl) (λ e. refl) (λ e. refl)
        rows
      ∙ h
  apply-covered r ep now (mark_failed id attempt code msg next max_attempts) rows h =
      update-covered r ep _ (set_failed now attempt code msg next max_attempts) (λ e. ground arith)
        (λ e. ground arith) (λ e. ground arith) (λ e. ground arith) rows
      ∙ h
  apply-covered r ep now (retry id) rows h =
      update-covered r ep _ (set_pending now) (λ e. refl) (λ e. refl) (λ e. refl) (λ e. refl) rows
      ∙ h
  apply-covered r ep now retry_all rows h =
      update-covered r ep _ (set_pending now) (λ e. refl) (λ e. refl) (λ e. refl) (λ e. refl) rows
      ∙ h

  apply_all-covered :
      (r : Request) (ep : WebhookEndpoint) (ops : List (ℕ × Op)) (rows : List Event)
      → covered r ep rows ≡ true
      → covered r ep (apply_all ops rows) ≡ true
  unfolding apply_all
  apply_all-covered r ep [] rows h = h
  apply_all-covered r ep ((now, op) ∷ ops) rows h =
      apply_all-covered r ep ops (apply now op rows) (apply-covered r ep now op rows h)

  apply_all-AllCovered :
      (present : String → Bool) (r : Request) (eps : List WebhookEndpoint) (ops : List (ℕ × Op))
      → (rows : List Event) → AllCovered present r eps rows
      → AllCovered present r eps (apply_all ops rows)
  apply_all-AllCovered present r [] ops rows h = tt
  apply_all-AllCovered present r (ep ∷ eps) ops rows h = (
    (λ w. apply_all-covered r ep ops rows (h.0 w)),
    apply_all-AllCovered present r eps ops rows h.1,
  )

  abbrev Replayed : List Event → Result Batch → Type 0
  Replayed rows res = (rows_after rows res ≡ rows) × OnOk (λ b. b.first_id ≡ none) res

  loop-Replayed :
      (now : ℕ) (present : String → Bool) (r : Request) (eps : List WebhookEndpoint)
      → (rows : List Event) (drawn : ℕ) → AllCovered present r eps rows
      → Replayed rows (
          enqueue_loop marshal new_uuid now present r eps
            (record { rows = rows; drawn = drawn; first_id = none }))
  loop-Replayed now present r eps rows drawn h = go _ (
      loop-noop marshal new_uuid now present r eps
        (record { rows = rows; drawn = drawn; first_id = none }) h)
    where
      go :
          (res : Result Batch)
          → OnOk (λ b. (b.rows ≡ rows) × (b.first_id ≡ none)) res
          → Replayed rows res
      go (ok b) k = k
      go (err e) k = (refl, tt)

  -- Replaying a match adds nothing. Once a call has succeeded, a second call with the same event for
  -- the same endpoints, after any history of other enqueued events, claims, delivery results and
  -- retries, leaves the table as it is and returns no event id (so the scanner counts nothing),
  -- whatever ids it draws and whether or not it fails.
  pub enqueue_again :
      (now later : ℕ) (eps : List WebhookEndpoint) (present : String → Bool) (r : Request)
      → (rows : List Event) (drawn drawn' : ℕ) (ops : List (ℕ × Op)) (b : Batch)
      → enqueue_webhook_event marshal new_uuid now eps present r rows drawn ≡ ok b
      → let rows' = apply_all ops b.rows in
        let second = enqueue_webhook_event marshal new_uuid later eps present r rows' drawn' in
        (rows_after rows' second ≡ rows') × OnOk (λ b'. b'.first_id ≡ none) second
  unfolding enqueue_webhook_event
  enqueue_again now later [] present r rows drawn drawn' ops b h = (refl, refl)
  enqueue_again now later (ep ∷ eps) present r rows drawn drawn' ops b h =
      elim (Bool-cases (is_known_event_type (normalize_event_type r.std_type))) [
        | inl e ↦ rw e (
            loop-Replayed later present (normalized r) (ep ∷ eps) (apply_all ops b.rows) drawn' (
              apply_all-AllCovered present (normalized r) (ep ∷ eps) ops b.rows (
                subst (OnOk (λ b'. AllCovered present (normalized r) (ep ∷ eps) b'.rows))
                  (rw e at h)
                  (loop-AllCovered marshal new_uuid now present (normalized r) (ep ∷ eps)
                    (record { rows = rows; drawn = drawn; first_id = none })))))
        | inr e ↦ rw e (refl, tt)
      ]
