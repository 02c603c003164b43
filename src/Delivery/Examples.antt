-- ===== src/Delivery/Examples.antt =====
-- Deliveries of one event to a subscriber that is down (internal/webhook/worker.go).
use tronvent.Base.{
  true, false, none, some, [], ◌∷◌, ◌≡◌, ◌≢◌, refl, arith, eq_iff, trim_space, has_prefix,
  trim_prefix, has_suffix, has_char, if◌then◌else◌,
}
use tronvent.Outbox.{Event, WebhookEndpoint, update}
use tronvent.Outbox.Examples.{endpoint, transfer}
use tronvent.Outbox.Enqueue.{validate_payload_size}
use tronvent.Outbox.Lifecycle.{set_delivering, mark_webhook_event_failed, set_failed}
use tronvent.Outbox.Lifecycle.Claims.{AllWithId}
use tronvent.Retry.{classify_delivery, next_attempt_time}
use tronvent.Signing.{
  build_headers, compact_secrets, compact_from, sign_all, sign_with_key, sign_symmetric,
  validate_signing_secret, decode_signing_secret,
}
use tronvent.Signing.Examples.{packages}
use tronvent.UrlPolicy.{
  resolved, validate_webhook_url, reject_private_host, reject_any, reject_private_addr,
}
use tronvent.UrlPolicy.Examples.{network, address, strict}
use tronvent.Endpoints.{signing_secrets, deactivate_webhook}
use tronvent.Stores.{get_endpoint}
use tronvent.Delivery.{
  Attempt, Environment, World, reply, post, resolve_endpoint_id, resolve_endpoint, conclude,
  deliver_one, deliver_to, mark_failed, mark_event_dead, settle, record_attempt,
  disable_endpoint_and_notify,
}
use tronvent.Delivery.Outcome.{is_settled, deliver_one-settles}
use tronvent.Delivery.Verdict.{verdict, with_attempt, IsAttempt, ends_endpoint, conclude-verdict}
use tronvent.Delivery.Finish.{find_event, found_final, round, rounds, AllReturn, rounds-finish}

abbrev environment : Environment
environment = record {
  crypto = packages;
  network = network (resolved (some address ∷ []));
  url_policy = strict;
  marshal = λ p. "{}";
  error_text = λ e. "url";
  payload_size_error = "size";
  headers_error = "key";
  send = λ url body headers. reply 503 "" "" none;
  int63n = λ n. 0;
  parse_time = λ s. none;
  unix_seconds = λ t. 0;
  fails = λ call. false;
}

abbrev event : Event
event = record {
  id = "u";
  event_type = "transaction.trx.received";
  scope = "TRX";
  tx_hash = "aa";
  block_number = 7;
  block_timestamp = 70;
  payload = transfer.payload;
  dedupe_key = "k";
  status = tronvent.Outbox.pending;
  attempt_count = 0;
  next_attempt_at = 0;
  delivered_at = none;
  last_error = none;
  last_response_code = none;
  created_at = 5;
  updated_at = 5;
  endpoint_id = some "ep";
}

abbrev world : World
world = record {
  rows = event ∷ [];
  endpoints = endpoint ∷ [];
  store = record { by_id = λ id. some endpoint; ordered = endpoint ∷ [] };
  attempts = [];
  mails = [];
}

endpoint_named : resolve_endpoint_id event endpoint ≢ ""
endpoint_named = ground (arith, eq_iff "ep" "")

first_returns : (deliver_one environment 2 10 event world).1 ≡ true
unfolding deliver_one deliver_to conclude settle mark_failed mark_event_dead record_attempt
    disable_endpoint_and_notify resolve_endpoint get_endpoint validate_webhook_url
    reject_private_host reject_any reject_private_addr validate_payload_size build_headers
    compact_secrets compact_from sign_all sign_with_key sign_symmetric validate_signing_secret
    decode_signing_secret signing_secrets trim_space has_prefix trim_prefix has_suffix has_char
    classify_delivery post next_attempt_time mark_webhook_event_failed set_failed set_delivering
    update
first_returns = refl

both_return : AllReturn environment 2 (10 ∷ 20 ∷ []) "u" world
unfolding round deliver_one deliver_to conclude settle mark_failed mark_event_dead record_attempt
    disable_endpoint_and_notify resolve_endpoint get_endpoint validate_webhook_url
    reject_private_host reject_any reject_private_addr validate_payload_size build_headers
    compact_secrets compact_from sign_all sign_with_key sign_symmetric validate_signing_secret
    decode_signing_secret signing_secrets trim_space has_prefix trim_prefix has_suffix has_char
    classify_delivery post next_attempt_time mark_webhook_event_failed set_failed set_delivering
    update
both_return = (refl, (refl, tt))

deliver_one-settles_example :
    AllWithId "u" (λ e. is_settled 2 1 e ≡ true) (deliver_one environment 2 10 event world).0.rows
deliver_one-settles_example = deliver_one-settles environment 2 10 event world first_returns

conclude-verdict_example :
    let p = post (reply 410 "" "" none) in
    let w = (conclude environment 2 10 event endpoint "{}" p world).0 in
    AllWithId "u" (λ e. e.status ≡ verdict 2 1 p) w.rows
    × (w.endpoints ≡ (
        if ends_endpoint 2 1 p then deactivate_webhook 10 "ep" (endpoint ∷ []) else endpoint ∷ []))
    × (a : Attempt) × IsAttempt event p a
    × (w.attempts ≡ with_attempt a [])
conclude-verdict_example =
    conclude-verdict environment 2 10 (λ call. refl) event endpoint "{}"
      (post (reply 410 "" "" none)) world endpoint_named

rounds-finish_example :
    found_final (find_event "u" (rounds environment 2 (10 ∷ 20 ∷ []) "u" world).rows) ≡ true
rounds-finish_example =
    rounds-finish environment 2 (10 ∷ 20 ∷ []) "u" world (omega arith) (omega arith) both_return
