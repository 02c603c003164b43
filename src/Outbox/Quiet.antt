-- ===== src/Outbox/Quiet.antt =====
-- Events that the worker is done with or is at work on: no history of the other statements of the
-- outbox brings them out again (internal/db/scanner.go, internal/db/dashboard.go).
use tronvent.Base.{
  ℕ, ◌+◌, ◌≤◌, String, Bool, false, ◌&&◌, List, [], ◌∷◌, ◌++◌, ◌≡◌, refl, sym, ◌∙◌, ◌≢◌, inl, inr,
  Bool-cases, arith, str_eq, eq_iff, any,
}
use tronvent.Payload.{Envelope}
use tronvent.Outbox.{Event, WebhookEndpoint, delivering, delivered, is_id, update}
use tronvent.Outbox.Lifecycle.{
  is_ready, is_retryable, stale_after, chosen_ids, among, claim_pending_webhook_events,
  mark_webhook_event_delivered, mark_webhook_event_failed, retry_webhook_event,
  retry_all_failed_dead_webhook_events, set_delivering, set_delivered, set_failed, set_pending,
}
use tronvent.Outbox.Lifecycle.Claims.{AllWithId, not_ready-chosen_ids}
use tronvent.Outbox.Enqueue.{Request, new_row, enqueue_webhook_event, rows_after}
use tronvent.Outbox.Enqueue.Loop.{OnOk, for_cases, loop_inv}
use tronvent.Outbox.Enqueue.Dedupe.{call_inv, OnOk-rows_after}
use tronvent.Outbox.Replay.{
  Op, enqueue, claim, mark_delivered, mark_failed, retry, retry_all, apply, apply_all,
}

AllWithId-weaken {ℓ κ} :
    (i : String) (P : Event → Type ℓ) (Q : Event → Type κ) (rows : List Event)
    → ((e : Event) → P e → Q e)
    → AllWithId i P rows
    → AllWithId i Q rows
AllWithId-weaken i P Q [] k h = tt
AllWithId-weaken i P Q (e ∷ es) k h = ((λ d. k e (h.0 d)), AllWithId-weaken i P Q es k h.1)

AllWithId-append {ℓ} :
    (i : String) (P : Event → Type ℓ) (rows : List Event) (e : Event)
    → (e.id ≡ i → P e)
    → AllWithId i P rows
    → AllWithId i P (rows ++ e ∷ [])
AllWithId-append i P [] e k h = (k, tt)
AllWithId-append i P (x ∷ xs) e k h = (h.0, AllWithId-append i P xs e k h.1)

-- An update that does not reach the rows with the id, and keeps ids.
AllWithId-update {ℓ} :
    (i : String) (P : Event → Type ℓ) (q : Event → Bool) (f : Event → Event) (rows : List Event)
    → ((e : Event) → (f e).id ≡ e.id)
    → ((e : Event) → e.id ≡ i → P e → q e ≡ false)
    → AllWithId i P rows
    → AllWithId i P (update q f rows)
unfolding update
AllWithId-update i P q f [] same out h = tt
AllWithId-update i P q f (e ∷ es) same out h = elim (Bool-cases (q e)) [
  | inl t ↦ rw t (
    (λ d. absurd (cc (out e (sym (same e) ∙ d) (h.0 (sym (same e) ∙ d))))),
    AllWithId-update i P q f es same out h.1,
  )
  | inr t ↦ rw t (h.0, AllWithId-update i P q f es same out h.1)
]

-- A statement that names no other event's result.
abbrev pub LeavesAlone : String → Op → Type 0
LeavesAlone i (enqueue eps present r drawn) = Unit
LeavesAlone i (claim limit locked) = Unit
LeavesAlone i (mark_delivered id code) = id ≢ i
LeavesAlone i (mark_failed id attempt code msg next max_attempts) = id ≢ i
LeavesAlone i (retry id) = Unit
LeavesAlone i retry_all = Unit

abbrev pub AllLeaveAlone : String → (ℕ → Type 0) → List (ℕ × Op) → Type 0
AllLeaveAlone i Window [] = Unit
AllLeaveAlone i Window ((now, op) ∷ ops) =
    Window now × LeavesAlone i op × AllLeaveAlone i Window ops

module _ (marshal : Envelope → String) (new_uuid : ℕ → String) (i : String)
    (fresh : (n : ℕ) → new_uuid n ≢ i) (P : Event → Type 0) (Window : ℕ → Type 0)
    (quiet : (now : ℕ) (e : Event)
      → Window now
      → P e
      → (is_ready now e ≡ false) × (is_retryable e.status ≡ false)) where
  not_chosen :
      (now limit : ℕ) (locked : String → Bool) (rows : List Event)
      → Window now
      → AllWithId i P rows
      → any (λ j. str_eq j i) (chosen_ids now limit locked rows) ≡ false
  not_chosen now limit locked rows w h =
      not_ready-chosen_ids now limit locked rows i
        (AllWithId-weaken i P (λ e. is_ready now e ≡ false) rows (λ e p. (quiet now e w p).0) h)

  enqueue-quiet :
      (now : ℕ) (eps : List WebhookEndpoint) (present : String → Bool) (r : Request) (drawn : ℕ)
      → (rows : List Event) → AllWithId i P rows
      → AllWithId i P
          (rows_after rows (enqueue_webhook_event marshal new_uuid now eps present r rows drawn))
  unfolding new_row
  enqueue-quiet now eps present r drawn rows h =
      OnOk-rows_after marshal new_uuid (AllWithId i P) rows _ h (
        call_inv marshal new_uuid (λ b. AllWithId i P b.rows) now eps present r rows drawn h
          (λ q b k.
            loop_inv marshal new_uuid (λ b'. AllWithId i P b'.rows) now present q
              (λ ep b' k'.
                for_cases marshal new_uuid (OnOk (λ b''. AllWithId i P b''.rows)) now q ep b'
                  (λ e. tt) (λ c. k')
                  (λ c. AllWithId-append i P b'.rows _ (λ d. absurd (fresh b'.drawn d)) k'))
              eps b k))

  apply-quiet :
      (now : ℕ) (op : Op) (rows : List Event)
      → Window now
      → LeavesAlone i op
      → AllWithId i P rows
      → AllWithId i P (apply marshal new_uuid now op rows)
  unfolding apply claim_pending_webhook_events mark_webhook_event_delivered
      mark_webhook_event_failed retry_webhook_event retry_all_failed_dead_webhook_events
      set_delivering set_delivered set_failed set_pending
  apply-quiet now (enqueue eps present r drawn) rows w l h =
      enqueue-quiet now eps present r drawn rows h
  apply-quiet now (claim limit locked) rows w l h =
      AllWithId-update i P (among (chosen_ids now limit locked rows)) (set_delivering now) rows
        (λ e. refl) (λ e d p. rw d (not_chosen now limit locked rows w h)) h
  apply-quiet now (mark_delivered id code) rows w l h =
      AllWithId-update i P (is_id id) (set_delivered now code) rows (λ e. refl)
        (λ e d p. ground (arith, eq_iff id e.id)) h
  apply-quiet now (mark_failed id attempt code msg next max_attempts) rows w l h =
      AllWithId-update i P (is_id id) (set_failed now attempt code msg next max_attempts) rows
        (λ e. ground arith) (λ e d p. ground (arith, eq_iff id e.id)) h
  apply-quiet now (retry id) rows w l h =
      AllWithId-update i P (λ e. is_id id e && is_retryable e.status) (set_pending now) rows
        (λ e. refl) (λ e d p. ground (arith, (quiet now e w p).1)) h
  apply-quiet now retry_all rows w l h =
      AllWithId-update i P (λ e. is_retryable e.status) (set_pending now) rows (λ e. refl)
        (λ e d p. (quiet now e w p).1) h

  apply_all-quiet :
      (ops : List (ℕ × Op)) (rows : List Event)
      → AllLeaveAlone i Window ops
      → AllWithId i P rows
      → AllWithId i P (apply_all marshal new_uuid ops rows)
  unfolding apply_all
  apply_all-quiet [] rows l h = h
  apply_all-quiet ((now, op) ∷ ops) rows l h =
      apply_all-quiet ops (apply marshal new_uuid now op rows) l.2
        (apply-quiet now op rows l.0 l.1 h)

-- The row is delivered.
abbrev pub IsDelivered : Event → Type 0
IsDelivered e = e.status ≡ delivered

-- The row is being delivered, by a claim at `since` or later.
abbrev pub IsClaimed : ℕ → Event → Type 0
IsClaimed since e = (e.status ≡ delivering) × (since ≤ e.updated_at)

delivered-quiet :
    (now : ℕ) (e : Event)
    → IsDelivered e
    → (is_ready now e ≡ false) × (is_retryable e.status ≡ false)
unfolding is_ready
delivered-quiet now e p = ground (arith, p)

claimed-quiet :
    (since now : ℕ) (e : Event)
    → now ≤ since + stale_after
    → IsClaimed since e
    → (is_ready now e ≡ false) × (is_retryable e.status ≡ false)
unfolding is_ready
claimed-quiet since now e w p = ground (arith, p.0, p.1)

module _ (marshal : Envelope → String) (new_uuid : ℕ → String) where
  -- Once the row of an event is `delivered`, it stays so, and the claim picks it at no later time:
  -- after any history of enqueued events with other ids, claims, delivery results of other events
  -- and retries, the admin's included.
  pub IsDelivered-apply_all :
      (i : String) (ops : List (ℕ × Op)) (rows : List Event)
      → (now limit : ℕ) (locked : String → Bool) → ((n : ℕ) → new_uuid n ≢ i)
      → AllLeaveAlone i (λ t. Unit) ops
      → AllWithId i IsDelivered rows
      → let rows' = apply_all marshal new_uuid ops rows in
        AllWithId i IsDelivered rows'
        × (any (λ j. str_eq j i) (chosen_ids now limit locked rows') ≡ false)
  IsDelivered-apply_all i ops rows now limit locked fresh l h =
      let q = λ (now : ℕ) (e : Event) (w : Unit) (p : IsDelivered e). delivered-quiet now e p in
      let h' = apply_all-quiet marshal new_uuid i fresh IsDelivered (λ t. Unit) q ops rows l h in
      (h', not_chosen marshal new_uuid i fresh IsDelivered (λ t. Unit) q now limit locked _ tt h')

  -- A claimed event is at work in one worker only: a row that was claimed at `since` or later stays
  -- `delivering`, and no other claim picks it, at any time up to five minutes after `since`, after
  -- any history of statements up to then that give no result for this event.
  pub IsClaimed-apply_all :
      (i : String) (since : ℕ) (ops : List (ℕ × Op)) (rows : List Event)
      → (now limit : ℕ) (locked : String → Bool) → ((n : ℕ) → new_uuid n ≢ i)
      → now ≤ since + stale_after
      → AllLeaveAlone i (λ t. t ≤ since + stale_after) ops
      → AllWithId i (IsClaimed since) rows
      → let rows' = apply_all marshal new_uuid ops rows in
        AllWithId i (IsClaimed since) rows'
        × (any (λ j. str_eq j i) (chosen_ids now limit locked rows') ≡ false)
  IsClaimed-apply_all i since ops rows now limit locked fresh w l h =
      let W = λ (t : ℕ). t ≤ since + stale_after in
      let q = λ (now : ℕ) (e : Event) (w : W now) (p : IsClaimed since e).
        claimed-quiet since now e w p in
      let h' = apply_all-quiet marshal new_uuid i fresh (IsClaimed since) W q ops rows l h in
      (h', not_chosen marshal new_uuid i fresh (IsClaimed since) W q now limit locked _ w h')
