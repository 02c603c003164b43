-- ===== src/Api/Retries/Frame.antt =====
-- The handlers of internal/api that ask for work again leave the watchlists alone.
use tronvent.Base.{
  ℕ, String, Bool, true, false, not, Option, none, some, List, ◌≡◌, refl, ◌==◌, str_eq, trim_space,
  Bool-cases, inl, inr,
}
use tronvent.Outbox.{Event}
use tronvent.Jobs.{Job, RetryResult, range_refused, retry_job}
use tronvent.Api.{Packages, Call, World, Request}
use tronvent.Api.Watch.{watch, if-watch}
use tronvent.Api.Retries

module _ {F : Type 0} (p : Packages F) (c : Call) where
  event_retried-watch :
      (text : String) (x : List Event × Bool) (w : World F)
      → watch (Retries.event_retried p c text x w).0 ≡ watch w
  event_retried-watch text (events, true) w = refl
  event_retried-watch text (events, false) w = refl

  retry_event_id-watch :
      (text : String) (id : Option String) (w : World F)
      → watch (Retries.retry_event_id p c text id w).0 ≡ watch w
  retry_event_id-watch text none w = refl
  retry_event_id-watch text (some id) w =
      if-watch (not c.write_ok) _ _ w refl (event_retried-watch text _ w)

  range_enqueued-watch :
      (x : List Job × RetryResult) (w : World F)
      → watch (Retries.range_enqueued p c x w).0 ≡ watch w
  range_enqueued-watch (jobs, range_refused e) w = refl
  range_enqueued-watch (jobs, retry_job j created) w = if-watch (not c.write_ok) _ _ w refl refl

  post_block-watch : (b : Option ℕ) (w : World F) → watch (Retries.post_block p c b w).0 ≡ watch w
  post_block-watch none w = refl
  post_block-watch (some block) w = if-watch (block == 0) _ _ w refl (range_enqueued-watch _ w)

  post_range-watch :
      (x : Option (ℕ × ℕ)) (w : World F) → watch (Retries.post_range p c x w).0 ≡ watch w
  post_range-watch none w = refl
  post_range-watch (some (from_block, to_block)) w = range_enqueued-watch _ w

  block_form-watch : (b : Option ℕ) (w : World F) → watch (Retries.block_form p c b w) ≡ watch w
  block_form-watch none w = refl
  block_form-watch (some block) w = elim (Bool-cases (block == 0)) [
    | inl e ↦ rw e
    | inr e ↦ rw e (range_enqueued-watch _ w)
  ]

  range_form-watch : (a b : Option ℕ) (w : World F) → watch (Retries.range_form p c a b w) ≡ watch w
  range_form-watch none b w = refl
  range_form-watch (some a) none w = refl
  range_form-watch (some a) (some b) w = range_enqueued-watch _ w

  retry_block_form-watch :
      (form : Option (String → String)) (w : World F)
      → watch (Retries.retry_block_form p c form w) ≡ watch w
  retry_block_form-watch none w = refl
  retry_block_form-watch (some form) w = block_form-watch (Retries.field p c form "blockNumber") w

  retry_range_form-watch :
      (form : Option (String → String)) (w : World F)
      → watch (Retries.retry_range_form p c form w) ≡ watch w
  retry_range_form-watch none w = refl
  retry_range_form-watch (some form) w = range_form-watch _ _ w

  -- All of the handlers.
  pub retry_event-watch :
      (r : Request) (w : World F)
      → watch (Retries.handle_retry_webhook_event_api p c r w).0 ≡ watch w
  unfolding Retries.handle_retry_webhook_event_api
  retry_event-watch r w =
      if-watch (str_eq (trim_space (r.path_value "eventID")) "") _ _ w refl
        (retry_event_id-watch _ _ w)

  pub retry_all-watch :
      (r : Request) (w : World F)
      → watch (Retries.handle_retry_all_webhook_events_api p c r w).0 ≡ watch w
  unfolding Retries.handle_retry_all_webhook_events_api
  retry_all-watch r w = if-watch (not c.write_ok) _ _ w refl refl

  pub retry_block-watch :
      (r : Request) (w : World F) → watch (Retries.handle_post_retry_block p c r w).0 ≡ watch w
  unfolding Retries.handle_post_retry_block
  retry_block-watch r w = post_block-watch (p.json.block r.body) w

  pub retry_range-watch :
      (r : Request) (w : World F) → watch (Retries.handle_post_retry_range p c r w).0 ≡ watch w
  unfolding Retries.handle_post_retry_range
  retry_range-watch r w = post_range-watch _ w

  pub dashboard_retry_event-watch :
      (r : Request) (w : World F)
      → watch (Retries.handle_dashboard_retry_webhook_event p c r w).0 ≡ watch w
  unfolding Retries.handle_dashboard_retry_webhook_event
  dashboard_retry_event-watch r w = retry_event_id-watch _ _ w

  pub dashboard_retry_all-watch :
      (r : Request) (w : World F)
      → watch (Retries.handle_dashboard_retry_all_webhooks p c r w).0 ≡ watch w
  unfolding Retries.handle_dashboard_retry_all_webhooks
  dashboard_retry_all-watch r w = retry_all-watch r w

  pub dashboard_retry_block-watch :
      (r : Request) (w : World F) → watch (Retries.handle_dashboard_retry_block p c r w).0 ≡ watch w
  unfolding Retries.handle_dashboard_retry_block
  dashboard_retry_block-watch r w = retry_block_form-watch _ w

  pub dashboard_retry_range-watch :
      (r : Request) (w : World F) → watch (Retries.handle_dashboard_retry_range p c r w).0 ≡ watch w
  unfolding Retries.handle_dashboard_retry_range
  dashboard_retry_range-watch r w = retry_range_form-watch _ w
