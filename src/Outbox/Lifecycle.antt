-- ===== src/Outbox/Lifecycle.antt =====
-- The statements on webhook_events after the insert (internal/db/scanner.go, internal/db/dashboard.go,
-- internal/db/webhook_endpoints.go).
pub mod Claims
use tronvent.Base.{
  ℕ, zero, suc, ◌+◌, ◌*◌, String, Bool, true, false, not, ◌&&◌, ◌||◌, Option, none, some, List, [],
  ◌∷◌, map, ltb, leb, ◌==◌, str_eq, any, keep, take, length, if◌then◌else◌,
}
use tronvent.Outbox.{Event, Status, pending, delivering, delivered, failed, dead, is_id, update}

-- interval '5 minutes'
abbrev pub stale_after : ℕ
stale_after = 300_000_000_000

abbrev pub is_stale : ℕ → Event → Bool
is_stale now e = ltb (e.updated_at + stale_after) now

abbrev pub claimable : Status → Bool → Bool → Bool
claimable pending due stale = due
claimable failed due stale = due
claimable delivering due stale = stale
claimable delivered due stale = false
claimable dead due stale = false

-- The WHERE of ClaimPendingWebhookEvents.
unfoldable pub is_ready : ℕ → Event → Bool
is_ready now e = claimable e.status (leb e.next_attempt_at now) (is_stale now e)

-- ORDER BY next_attempt_at ASC, created_at ASC
abbrev pub goes_before : Event → Event → Bool
goes_before a b =
    ltb a.next_attempt_at b.next_attempt_at
    || (a.next_attempt_at == b.next_attempt_at && leb a.created_at b.created_at)

pub insert_ordered : Event → List Event → List Event
insert_ordered e [] = e ∷ []
insert_ordered e (x ∷ xs) = if goes_before e x then e ∷ x ∷ xs else x ∷ insert_ordered e xs

pub order_rows : List Event → List Event
order_rows [] = []
order_rows (e ∷ es) = insert_ordered e (order_rows es)

abbrev claim_limit : ℕ → ℕ
claim_limit limit = if limit == 0 then 10 else limit

-- The ids of the inner SELECT … LIMIT … FOR UPDATE SKIP LOCKED. `locked` says which rows another
-- transaction has locked at the time.
pub chosen_ids : ℕ → ℕ → (String → Bool) → List Event → List String
chosen_ids now limit locked rows =
    map (λ e. e.id)
      (take (claim_limit limit) (order_rows (keep (λ e. is_ready now e && not (locked e.id)) rows)))

abbrev reclaimed_attempts : ℕ → Event → Status → ℕ
reclaimed_attempts now e delivering =
    if is_stale now e then e.attempt_count + 1 else e.attempt_count
reclaimed_attempts now e pending = e.attempt_count
reclaimed_attempts now e delivered = e.attempt_count
reclaimed_attempts now e failed = e.attempt_count
reclaimed_attempts now e dead = e.attempt_count

-- SET status = 'delivering', …: an event whose delivery went stale counts that attempt.
unfoldable pub set_delivering : ℕ → Event → Event
set_delivering now e = record e {
  status = delivering;
  updated_at = now;
  attempt_count = reclaimed_attempts now e e.status;
}

abbrev pub among : List String → Event → Bool
among ids e = any (λ i. str_eq i e.id) ids

-- The new table, and the claimed events as RETURNING gives them (in some order: here the table's).
unfoldable pub claim_pending_webhook_events :
    ℕ → ℕ → (String → Bool) → List Event → List Event × List Event
claim_pending_webhook_events now limit locked rows =
    let ids = chosen_ids now limit locked rows in
    (update (among ids) (set_delivering now) rows, map (set_delivering now) (keep (among ids) rows))

unfoldable pub set_delivered : ℕ → ℕ → Event → Event
set_delivered now code e = record e {
  status = delivered;
  delivered_at = some now;
  last_response_code = some code;
  last_error = none;
  updated_at = now;
}

unfoldable pub mark_webhook_event_delivered : ℕ → String → ℕ → List Event → List Event
mark_webhook_event_delivered now id code rows = update (is_id id) (set_delivered now code) rows

-- CASE WHEN $2 = 'dead' THEN next_attempt_at ELSE $4 END, with the status that the test gives
unfoldable pub set_failed : ℕ → ℕ → Option ℕ → String → ℕ → ℕ → Event → Event
set_failed now attempt code msg next max_attempts e =
    if leb max_attempts attempt
    then record e {
      status = dead;
      attempt_count = attempt;
      last_response_code = code;
      last_error = some msg;
      updated_at = now;
    }
    else record e {
      status = failed;
      attempt_count = attempt;
      next_attempt_at = next;
      last_response_code = code;
      last_error = some msg;
      updated_at = now;
    }

unfoldable pub mark_webhook_event_failed :
    ℕ → String → ℕ → Option ℕ → String → ℕ → ℕ → List Event → List Event
mark_webhook_event_failed now id attempt code msg next max_attempts rows =
    update (is_id id) (set_failed now attempt code msg next max_attempts) rows

abbrev pub is_retryable : Status → Bool
is_retryable failed = true
is_retryable dead = true
is_retryable pending = false
is_retryable delivering = false
is_retryable delivered = false

unfoldable pub set_pending : ℕ → Event → Event
set_pending now e = record e {
  status = pending;
  next_attempt_at = now;
  last_error = none;
  last_response_code = none;
  updated_at = now;
}

-- RetryWebhookEvent; `false` is ErrWebhookEventNotFound.
unfoldable pub retry_webhook_event : ℕ → String → List Event → List Event × Bool
retry_webhook_event now id rows = (
  update (λ e. is_id id e && is_retryable e.status) (set_pending now) rows,
  any (λ e. is_id id e && is_retryable e.status) rows,
)

-- RetryAllFailedDeadWebhookEvents, with the number of rows.
unfoldable pub retry_all_failed_dead_webhook_events : ℕ → List Event → List Event × ℕ
retry_all_failed_dead_webhook_events now rows = (
  update (λ e. is_retryable e.status) (set_pending now) rows,
  length (keep (λ e. is_retryable e.status) rows),
)

abbrev pub belongs_to : String → Option String → Bool
belongs_to endpoint none = false
belongs_to endpoint (some id) = str_eq id endpoint

abbrev pub is_undelivered : Status → Bool
is_undelivered pending = true
is_undelivered delivering = true
is_undelivered failed = true
is_undelivered delivered = false
is_undelivered dead = false

pub data DeleteResult : Type 0 where
  deleted not_found has_undelivered_events : DeleteResult

-- DeleteWebhookEndpoint on the outbox: ON DELETE CASCADE removes the endpoint's rows. `exists` says
-- whether the endpoint has a row.
unfoldable pub delete_webhook_endpoint :
    Bool → String → Bool → List Event → List Event × DeleteResult
delete_webhook_endpoint exists endpoint force rows =
    if not exists
    then (rows, not_found)
    else if not force
        && any (λ e. belongs_to endpoint e.endpoint_id && is_undelivered e.status) rows
    then (rows, has_undelivered_events)
    else (keep (λ e. not (belongs_to endpoint e.endpoint_id)) rows, deleted)
