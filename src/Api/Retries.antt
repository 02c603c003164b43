-- ===== src/Api/Retries.antt =====
-- The handlers that ask for work again: webhook_api.go (events of the outbox) and retries.go (block
-- ranges) of internal/api, with the dashboard's forms for them (dashboard.go).
pub mod Frame
use tronvent.Base.{
  ℕ, String, Bool, true, false, not, ◌||◌, Option, none, some, List, ◌==◌, str_eq, trim_space,
  if◌then◌else◌,
}
use tronvent.Outbox.{Event}
use tronvent.Outbox.Lifecycle.{retry_webhook_event, retry_all_failed_dead_webhook_events}
use tronvent.Retry.Header.{parse_int}
use tronvent.Jobs.{
  Job, RangeError, non_positive_block, invalid_block_range, RetryResult, range_refused, retry_job,
  enqueue_retry_job,
}
use tronvent.Api.{
  Packages, Call, World, Request, Response, Handler, json_response, page, event_pending,
  events_pending, retry_row, error_text, bad_request, server_error,
}

-- writeRetryEnqueueError, where the database does not fail
unfoldable pub retry_enqueue_error : RangeError → Response
retry_enqueue_error non_positive_block = bad_request "block numbers must be positive"
retry_enqueue_error invalid_block_range = bad_request "fromBlock must be <= toBlock"

module _ {F : Type 0} (p : Packages F) (c : Call) where
  abbrev event_retried : String → List Event × Bool → World F → World F × Response
  event_retried text (events, true) w =
      (record w { events = events }, json_response 202 (event_pending text))
  event_retried text (events, false) w =
      (w, json_response 404 (error_text "webhook event not found or not retryable"))

  abbrev retry_event_id : String → Option String → World F → World F × Response
  retry_event_id text none w = (w, server_error "failed to retry webhook event")
  retry_event_id text (some id) w =
      if not c.write_ok
      then (w, server_error "failed to retry webhook event")
      else event_retried text (retry_webhook_event c.now id w.events) w

  unfoldable pub handle_retry_webhook_event_api : Handler F
  handle_retry_webhook_event_api r w =
      let id = trim_space (r.path_value "eventID") in
      if str_eq id ""
      then (w, bad_request "event ID is required")
      else retry_event_id id (p.uuid id) w

  unfoldable pub handle_retry_all_webhook_events_api : Handler F
  handle_retry_all_webhook_events_api r w =
      let x = retry_all_failed_dead_webhook_events c.now w.events in
      if not c.write_ok
      then (w, server_error "failed to retry webhook events")
      else (record w { events = x.0 }, json_response 202 (events_pending x.1))

  abbrev range_enqueued : List Job × RetryResult → World F → World F × Response
  range_enqueued (jobs, range_refused e) w = (w, retry_enqueue_error e)
  range_enqueued (jobs, retry_job j created) w =
      if not c.write_ok
      then (w, server_error "failed to enqueue retry job")
      else (record w { jobs = jobs }, json_response 202 (retry_row j))

  -- s.db.EnqueueRetryJob
  abbrev enqueue_range : ℕ → ℕ → World F → World F × Response
  enqueue_range from_block to_block w =
      range_enqueued (enqueue_retry_job c.now c.new_id from_block to_block w.jobs) w

  abbrev post_block : Option ℕ → World F → World F × Response
  post_block none w = (w, bad_request "invalid JSON body")
  post_block (some block) w =
      if block == 0
      then (w, bad_request "blockNumber must be positive")
      else enqueue_range block block w

  unfoldable pub handle_post_retry_block : Handler F
  handle_post_retry_block r w = post_block (p.json.block r.body) w

  abbrev post_range : Option (ℕ × ℕ) → World F → World F × Response
  post_range none w = (w, bad_request "invalid JSON body")
  post_range (some (from_block, to_block)) w = enqueue_range from_block to_block w

  unfoldable pub handle_post_retry_range : Handler F
  handle_post_retry_range r w = post_range (p.json.range r.body) w

  unfoldable pub handle_dashboard_retry_webhook_event : Handler F
  handle_dashboard_retry_webhook_event r w =
      ((retry_event_id "" (p.uuid (r.path_value "eventID")) w).0, page "webhooks")

  unfoldable pub handle_dashboard_retry_all_webhooks : Handler F
  unfolding handle_retry_all_webhook_events_api
  handle_dashboard_retry_all_webhooks r w =
      ((handle_retry_all_webhook_events_api r w).0, page "webhooks")

  -- strconv.ParseInt of a field; a number that is refused or negative leads to no job.
  abbrev field : (String → String) → String → Option ℕ
  field form name = parse_int (trim_space (form name))

  abbrev block_form : Option ℕ → World F → World F
  block_form none w = w
  block_form (some block) w = if block == 0 then w else (enqueue_range block block w).0

  abbrev range_form : Option ℕ → Option ℕ → World F → World F
  range_form none to_block w = w
  range_form (some from_block) none w = w
  range_form (some from_block) (some to_block) w = (enqueue_range from_block to_block w).0

  abbrev retry_block_form : Option (String → String) → World F → World F
  retry_block_form none w = w
  retry_block_form (some form) w = block_form (field form "blockNumber") w

  abbrev retry_range_form : Option (String → String) → World F → World F
  retry_range_form none w = w
  retry_range_form (some form) w = range_form (field form "fromBlock") (field form "toBlock") w

  unfoldable pub handle_dashboard_retry_block : Handler F
  handle_dashboard_retry_block r w = (retry_block_form r.form w, page "retries")

  unfoldable pub handle_dashboard_retry_range : Handler F
  handle_dashboard_retry_range r w = (retry_range_form r.form w, page "retries")
