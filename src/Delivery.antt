-- ===== src/Delivery.antt =====
-- internal/webhook/worker.go and endpoint_lifecycle.go: the delivery of the outbox's events. The
-- state is the tables webhook_events, webhook_endpoints and webhook_delivery_attempts, the endpoints
-- in memory, and the e-mails sent. Parameters: the HTTP client, JSON, the libraries of the keys and
-- of the URL policy, the clock (one time for each delivery), and which calls of the database fail.
pub mod Outcome
pub mod Verdict
pub mod Finish
pub mod Examples
use tronvent.Base.{
  ℕ, suc, ◌+◌, String, ◌<>◌, Bool, true, false, not, ◌&&◌, ◌||◌, Option, none, some, List, [], ◌∷◌,
  ◌++◌, ltb, leb, ◌==◌, str_eq, any, if◌then◌else◌,
}
use tronvent.Payload.{Envelope}
use tronvent.Outbox.{Event, WebhookEndpoint}
use tronvent.Outbox.Enqueue.{validate_payload_size}
use tronvent.Outbox.Lifecycle.{
  claim_pending_webhook_events, mark_webhook_event_delivered, mark_webhook_event_failed,
}
use tronvent.Retry.{
  DeliveryOutcome, success, retry, fail, gone, classify_delivery, next_attempt_time,
  spec_delivery_attempts,
}
use tronvent.Signing.{Crypto, Headers, build_headers}
use tronvent.UrlPolicy.{Network, UrlPolicy, UrlError, is_retryable_url_error, validate_webhook_url}
use tronvent.Endpoints.{
  signing_secrets, list_webhook_endpoints, get_webhook_endpoint, deactivate_webhook,
}
use tronvent.Stores.{WebhookConfigStore, get_endpoint, get_primary_endpoint, upsert_endpoint}

-- What came of a POST: no request could be made, no reply came, or a reply with its status, its
-- header Retry-After ("" where missing), the start of its body, and the error of reading it.
pub data Exchange : Type 0 where
  no_request no_reply : String → Exchange
  reply : ℕ → String → String → Option String → Exchange

pub data DbCall : Type 0 where
  get_endpoint_call list_endpoints_call record_attempt_call mark_delivered_call mark_failed_call :
      DbCall
  deactivate_call : DbCall

pub record Environment : Type 0 where
  pub crypto : Crypto
  pub network : Network
  pub url_policy : UrlPolicy
  pub marshal : Envelope → String
  -- the texts of the errors of the URL, of the payload's size and of the headers
  pub error_text : UrlError → String
  pub payload_size_error : String
  pub headers_error : String
  pub send : String → String → Headers → Exchange
  pub int63n : ℕ → ℕ
  pub parse_time : String → Option ℕ
  pub unix_seconds : ℕ → ℕ
  pub fails : DbCall → Bool

pub record Attempt : Type 0 where
  pub webhook_event_id : String
  pub attempt_number : ℕ
  pub request_body : String
  pub response_code : Option ℕ
  pub response_body : String
  pub error_message : String

pub record World : Type 0 where
  pub rows : List Event
  pub endpoints : List WebhookEndpoint
  pub store : WebhookConfigStore
  pub attempts : List Attempt
  -- the calls of SendFailureNotification: the endpoint and the reason
  pub mails : List (WebhookEndpoint × String)

-- post: status, body, the Retry-After of a non-nil response, error
pub record Posted : Type 0 where
  pub status_code : ℕ
  pub response_body : String
  pub response : Option String
  pub error : Option String

unfoldable pub post : Exchange → Posted
post (no_request msg) = record {
  status_code = 0;
  response_body = "";
  response = none;
  error = some msg;
}
post (no_reply msg) = record {
  status_code = 0;
  response_body = "";
  response = none;
  error = some msg;
}
post (reply status header body (some msg)) = record {
  status_code = status;
  response_body = "";
  response = some header;
  error = some msg;
}
post (reply status header body none) = record {
  status_code = status;
  response_body = body;
  response = some header;
  error = none;
}

-- NewWorker
unfoldable pub worker_max_attempts : ℕ → ℕ
worker_max_attempts configured =
    if configured == 0 || ltb spec_delivery_attempts configured
    then spec_delivery_attempts
    else configured

abbrev pub is_none {ℓ} : {A : Type ℓ} → Option A → Bool
is_none none = true
is_none (some a) = false

-- The endpoint that resolveEndpoint returns; `unresolved` is an error.
pub data Resolved : Type 0 where
  unresolved : Resolved
  resolved_to : Option WebhookEndpoint → World → Resolved

abbrev remember : WebhookEndpoint → World → World
remember ep w = record w { store = upsert_endpoint ep w.store }

abbrev endpoint_id_of : Option String → String
endpoint_id_of none = ""
endpoint_id_of (some id) = id

abbrev pub resolve_endpoint_id : Event → WebhookEndpoint → String
resolve_endpoint_id ev ep =
    if not (str_eq (endpoint_id_of ev.endpoint_id) "") then endpoint_id_of ev.endpoint_id else ep.id

-- `true` is nil.
abbrev pub response_code : ℕ → Option ℕ
response_code status = if status == 0 then none else some status

-- webhook_delivery_attempts_unique_attempt
abbrev pub is_same_attempt : Attempt → Attempt → Bool
is_same_attempt a b =
    str_eq b.webhook_event_id a.webhook_event_id && b.attempt_number == a.attempt_number

module _ (env : Environment) (max_attempts now : ℕ) where
  abbrev pub format_attempt_error : ℕ → Option String → String
  format_attempt_error status (some msg) = msg
  format_attempt_error status none = "HTTP " <> env.crypto.format_int status

  unfoldable pub mark_failed : Event → ℕ → Option ℕ → String → ℕ → World → World × Bool
  mark_failed ev attempt code msg next w = if env.fails mark_failed_call then (w, false) else (
    record w {
      rows = mark_webhook_event_failed now ev.id attempt code msg next max_attempts w.rows;
    },
    true,
  )

  unfoldable pub mark_event_dead : Event → Option ℕ → String → World → World × Bool
  mark_event_dead ev code msg w = mark_failed ev max_attempts code msg now w

  unfoldable pub mark_delivered : Event → ℕ → World → World × Bool
  mark_delivered ev code w =
      if env.fails mark_delivered_call
      then (w, false)
      else (record w { rows = mark_webhook_event_delivered now ev.id code w.rows }, true)

  -- disableEndpointAndNotify, on an endpoint that is not nil
  unfoldable pub disable_endpoint_and_notify : WebhookEndpoint → String → String → World → World
  disable_endpoint_and_notify ep id reason w =
      if str_eq id "" || env.fails deactivate_call then w else record w {
        endpoints = deactivate_webhook now id w.endpoints;
        store = upsert_endpoint (record ep { is_active = false }) w.store;
        mails = w.mails ++ (record ep { is_active = false }, reason) ∷ [];
      }

  -- RecordWebhookDeliveryAttempt. The table's unique index refuses a number that the event has already;
  -- either error is only logged.
  unfoldable pub record_attempt : Attempt → World → World
  record_attempt a w =
      if env.fails record_attempt_call || any (is_same_attempt a) w.attempts
      then w
      else record w { attempts = w.attempts ++ a ∷ [] }

  abbrev from_row : World → Option (Option WebhookEndpoint) → Resolved
  from_row w none = unresolved
  from_row w (some none) = resolved_to none w
  from_row w (some (some ep)) = resolved_to (some ep) (remember ep w)

  abbrev from_store : World → String → Option WebhookEndpoint → Resolved
  from_store w id (some ep) = resolved_to (some ep) w
  from_store w id none =
      if env.fails get_endpoint_call
      then unresolved
      else from_row w (get_webhook_endpoint env.crypto w.endpoints id)

  abbrev from_list : World → Option (List WebhookEndpoint) → Resolved
  from_list w none = unresolved
  from_list w (some []) = resolved_to none w
  from_list w (some (ep ∷ eps)) = resolved_to (some ep) (remember ep w)

  abbrev from_primary : World → Option WebhookEndpoint → Resolved
  from_primary w (some ep) = resolved_to (some ep) w
  from_primary w none =
      if env.fails list_endpoints_call
      then unresolved
      else from_list w (list_webhook_endpoints env.crypto w.endpoints)

  unfoldable pub resolve_endpoint : Event → World → Resolved
  resolve_endpoint ev w =
      if not (str_eq (endpoint_id_of ev.endpoint_id) "")
      then from_store w (endpoint_id_of ev.endpoint_id)
          (get_endpoint w.store (endpoint_id_of ev.endpoint_id))
      else from_primary w (get_primary_endpoint w.store)

  -- errMsg of the recorded attempt: empty for a 2xx, a 410, a 429 and a 5xx
  abbrev recorded_error : ℕ → Option String → String
  recorded_error status (some msg) = msg
  recorded_error status none =
      if leb 300 status && ltb status 400
      then format_attempt_error status none
      else elim (classify_delivery status false) [
        | success ↦ ""
        | retry ↦ ""
        | fail ↦ format_attempt_error status none
        | gone ↦ ""
      ]

  -- A failed attempt that may be repeated, and the end of the attempts.
  abbrev exhaust : Event → WebhookEndpoint → ℕ → World × Bool → World × Bool
  exhaust ev ep attempt (w, false) = (w, false)
  exhaust ev ep attempt (w, true) =
      if leb max_attempts attempt
      then (
        disable_endpoint_and_notify ep (resolve_endpoint_id ev ep)
            ("delivery failed after " <> (env.crypto.format_int max_attempts <> " attempts")) w,
        true,
      )
      else (w, true)

  -- The branches on the outcome.
  unfoldable pub settle :
      Event → WebhookEndpoint → ℕ → Posted → World → DeliveryOutcome → World × Bool
  settle ev ep attempt p w success = mark_delivered ev p.status_code w
  settle ev ep attempt p w gone =
      mark_event_dead ev (response_code p.status_code) "subscriber returned 410 Gone" (
        disable_endpoint_and_notify ep (resolve_endpoint_id ev ep) "subscriber returned 410 Gone" w)
  settle ev ep attempt p w fail =
      mark_event_dead ev (response_code p.status_code) (recorded_error p.status_code p.error) w
  settle ev ep attempt p w retry = exhaust ev ep attempt (
      mark_failed ev attempt (response_code p.status_code)
        (format_attempt_error p.status_code p.error)
        (next_attempt_time env.int63n env.parse_time now
          (if ev.created_at == 0 then now else ev.created_at) attempt p.response)
        w)

  -- From the reply, or from the URL's error where the name did not resolve, to the end.
  unfoldable pub conclude : Event → WebhookEndpoint → String → Posted → World → World × Bool
  conclude ev ep body p w =
      settle ev ep (ev.attempt_count + 1) p
        (record_attempt
          (record {
            webhook_event_id = ev.id;
            attempt_number = ev.attempt_count + 1;
            request_body = body;
            response_code = response_code p.status_code;
            response_body = p.response_body;
            error_message = recorded_error p.status_code p.error;
          })
          w)
        (classify_delivery p.status_code (not (is_none p.error)))

  abbrev unsent : UrlError → Posted
  unsent e = record {
    status_code = 0;
    response_body = "";
    response = none;
    error = some (env.error_text e);
  }

  abbrev sent_or_not : WebhookEndpoint → String → Headers → Option UrlError → Posted
  sent_or_not ep body headers none = post (env.send ep.webhook_url body headers)
  sent_or_not ep body headers (some e) = unsent e

  abbrev with_headers :
      Event → WebhookEndpoint → String → Option UrlError → World → Option Headers → World × Bool
  with_headers ev ep body e w none = mark_event_dead ev none env.headers_error w
  with_headers ev ep body e w (some headers) = conclude ev ep body (sent_or_not ep body headers e) w

  abbrev is_final_url_error : Option UrlError → Bool
  is_final_url_error none = false
  is_final_url_error (some e) = not (is_retryable_url_error e)

  abbrev url_error_text : Option UrlError → String
  url_error_text none = ""
  url_error_text (some e) = env.error_text e

  -- Past the test of the endpoint.
  unfoldable pub deliver_to : Event → WebhookEndpoint → World → World × Bool
  deliver_to ev ep w =
      let body = env.marshal ev.payload in
      let url_error = validate_webhook_url env.network env.url_policy ep.webhook_url in
      if is_final_url_error url_error
      then mark_event_dead ev none (url_error_text url_error) w
      else if not (validate_payload_size body)
      then mark_event_dead ev none env.payload_size_error w
      else with_headers ev ep body url_error w
          (build_headers env.crypto ev.id (env.unix_seconds now) body (signing_secrets ep))

  abbrev after_resolve : Event → World → Resolved → World × Bool
  after_resolve ev w unresolved = (w, false)
  after_resolve ev w (resolved_to none w') =
      mark_event_dead ev none "webhook endpoint not active" w'
  after_resolve ev w (resolved_to (some ep) w') =
      if not ep.is_active || str_eq ep.webhook_url ""
      then mark_event_dead ev none "webhook endpoint not active" w'
      else deliver_to ev ep w'

  -- deliverOne: the new state, and whether it returned nil.
  unfoldable pub deliver_one : Event → World → World × Bool
  deliver_one ev w = after_resolve ev w (resolve_endpoint ev w)

  abbrev deliver_all : List Event → World → World
  deliver_all [] w = w
  deliver_all (ev ∷ evs) w = deliver_all evs (deliver_one ev w).0

  -- dispatchBatch: claims at most ten events and delivers them in turn; an error is only logged.
  unfoldable pub dispatch_batch : (String → Bool) → World → World
  dispatch_batch locked w =
      let (rows, claimed) = claim_pending_webhook_events now 10 locked w.rows in
      deliver_all claimed (record w { rows = rows })
