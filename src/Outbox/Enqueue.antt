-- ===== src/Outbox/Enqueue.antt =====
-- EnqueueWebhookEvent (internal/db/scanner.go): one row for each active endpoint that subscribes to
-- the event's type, in one transaction. The endpoints are the list that was read before it;
-- `present` says which of them still exist when the transaction locks them. Parameters: the JSON
-- text of a payload (encoding/json), and the random event ids (newUUID), one for each call.
pub mod Loop
pub mod Dedupe
pub mod Fanout
use tronvent.Base.{
  ℕ, zero, suc, ◌+◌, ◌*◌, String, ◌<>◌, Bool, true, false, not, ◌&&◌, ◌||◌, Option, none, some,
  List, [], ◌∷◌, ◌++◌, ltb, ◌==◌, str_eq, any, if◌then◌else◌,
}
use Prim.Native.String.{len}
use tronvent.Payload.{
  Envelope, TransactionData, endpoint_subscribes, is_known_event_type, normalize_event_type,
  transfer_dedupe_key,
}
use tronvent.Outbox.{Event, pending, WebhookEndpoint}

-- internal/webhookspec/payload_limit.go
abbrev pub max_webhook_payload_bytes : ℕ
max_webhook_payload_bytes = 20 * 1024

-- `true` is nil.
unfoldable pub validate_payload_size : String → Bool
validate_payload_size body = if ltb max_webhook_payload_bytes (len body) then false else true

-- fmt.Sprintf("%s:%s:%s:%s", …), with the endpoint's id behind it where it has one
unfoldable pub dedupe_key : String → String → String → String → String → String
dedupe_key scope tx_hash std_type transfer_key endpoint_id =
    if str_eq endpoint_id ""
    then scope <> (":" <> (tx_hash <> (":" <> (std_type <> (":" <> transfer_key)))))
    else scope
      <> (":"
          <> (tx_hash <> (":" <> (std_type <> (":" <> (transfer_key <> (":" <> endpoint_id)))))))

-- A row of an older key format: scope:tx, or scope:tx:endpoint.
abbrev pub is_legacy : String → String → String → String → String → String → Event → Bool
is_legacy scope tx_hash from to amount endpoint_id e =
    str_eq e.scope scope
    && str_eq e.tx_hash tx_hash
    && str_eq e.payload.payload.from_address from
    && str_eq e.payload.payload.to_address to
    && str_eq e.payload.payload.amount amount
    && (str_eq e.dedupe_key (scope <> (":" <> tx_hash))
        || (not (str_eq endpoint_id "")
            && str_eq e.dedupe_key (scope <> (":" <> (tx_hash <> (":" <> endpoint_id))))))

unfoldable pub legacy_webhook_dedupe_exists :
    String → String → String → String → String → String → List Event → Bool
legacy_webhook_dedupe_exists scope tx_hash from to amount endpoint_id rows =
    any (is_legacy scope tx_hash from to amount endpoint_id) rows

abbrev pub has_key : String → List Event → Bool
has_key key rows = any (λ e. str_eq e.dedupe_key key) rows

pub data EnqueueError : Type 0 where
  unknown_event_type type_mismatch payload_too_large : EnqueueError

-- The table, the number of ids drawn so far, and the id of the first row inserted.
pub record Batch : Type 0 where
  pub rows : List Event
  pub drawn : ℕ
  pub first_id : Option String

pub data Result {ℓ} (A : Type ℓ) : Type ℓ where
  ok : A → Result A
  err : EnqueueError → Result A

infixl 5 ◌>>=◌
abbrev pub ◌>>=◌ {ℓ κ} : {A : Type ℓ} {B : Type κ} → Result A → (A → Result B) → Result B
ok a >>= f = f a
err e >>= f = err e

-- The arguments of one call.
pub record Request : Type 0 where
  pub std_type : String
  pub scope : String
  pub tx_hash : String
  pub block_number : ℕ
  pub block_timestamp : ℕ
  pub payload : Envelope

abbrev pub request_key : Request → WebhookEndpoint → String
request_key r ep =
    dedupe_key r.scope r.tx_hash r.std_type
      (transfer_dedupe_key r.payload.payload.from_address r.payload.payload.to_address
        r.payload.payload.amount)
      ep.id

abbrev pub request_legacy : Request → WebhookEndpoint → List Event → Bool
request_legacy r ep rows =
    legacy_webhook_dedupe_exists r.scope r.tx_hash r.payload.payload.from_address
      r.payload.payload.to_address r.payload.payload.amount ep.id rows

-- The endpoint gets the event: active, subscribed, and not deleted since the list was read.
abbrev pub wants : (String → Bool) → String → WebhookEndpoint → Bool
wants present std_type ep =
    ep.is_active
    && endpoint_subscribes ep.event_types std_type
    && (str_eq ep.id "" || present ep.id)

abbrev endpoint_ref : String → Option String
endpoint_ref id = if str_eq id "" then none else some id

-- The payload with the event's id and type set.
abbrev stamp : Envelope → String → String → Envelope
stamp p std_type id = record p { type = std_type; payload = record (p.payload) { id = id } }

unfoldable pub new_row : ℕ → Request → WebhookEndpoint → String → Event
new_row now r ep id = record {
  id = id;
  event_type = r.std_type;
  scope = r.scope;
  tx_hash = r.tx_hash;
  block_number = r.block_number;
  block_timestamp = r.block_timestamp;
  payload = stamp r.payload r.std_type id;
  dedupe_key = request_key r ep;
  status = pending;
  attempt_count = 0;
  next_attempt_at = now;
  delivered_at = none;
  last_error = none;
  last_response_code = none;
  created_at = now;
  updated_at = now;
  endpoint_id = endpoint_ref ep.id;
}

abbrev or_first : Option String → String → Option String
or_first none id = some id
or_first (some first) id = some first

-- What the table holds after the call: a failed transaction is rolled back.
abbrev pub rows_after : List Event → Result Batch → List Event
rows_after rows (ok b) = b.rows
rows_after rows (err e) = rows

module _ (marshal : Envelope → String) (new_uuid : ℕ → String) where
  -- INSERT … ON CONFLICT (dedupe_key) DO NOTHING, after the test for an older row.
  insert_row : ℕ → Request → WebhookEndpoint → String → Batch → Batch
  insert_row now r ep id b =
      if request_legacy r ep b.rows || has_key (request_key r ep) b.rows
      then b
      else record b { rows = b.rows ++ new_row now r ep id ∷ []; first_id = or_first b.first_id id }

  -- The body of the loop, past the two `continue`s.
  unfoldable pub enqueue_for : ℕ → Request → WebhookEndpoint → Batch → Result Batch
  unfolding insert_row validate_payload_size
  enqueue_for now r ep b =
      let id = new_uuid b.drawn in
      let b' = record b { drawn = suc b.drawn } in
      if not (str_eq r.payload.type "") && not (str_eq r.payload.type r.std_type)
      then err type_mismatch
      else if validate_payload_size (marshal (stamp r.payload r.std_type id))
      then ok (insert_row now r ep id b')
      else err payload_too_large

  unfoldable pub enqueue_loop :
      ℕ → (String → Bool) → Request → List WebhookEndpoint → Batch → Result Batch
  enqueue_loop now present r [] b = ok b
  enqueue_loop now present r (ep ∷ eps) b =
      (if wants present r.std_type ep then enqueue_for now r ep b else ok b)
      >>= enqueue_loop now present r eps

  -- On success the table and the id of the first row, if there is one ("" in the source).
  unfoldable pub enqueue_webhook_event :
      ℕ → List WebhookEndpoint → (String → Bool) → Request → List Event → ℕ → Result Batch
  enqueue_webhook_event now [] present r rows drawn =
      ok (record { rows = rows; drawn = drawn; first_id = none })
  enqueue_webhook_event now (ep ∷ eps) present r rows drawn =
      let std_type = normalize_event_type r.std_type in
      if is_known_event_type std_type
      then enqueue_loop now present (record r { std_type = std_type }) (ep ∷ eps)
          (record { rows = rows; drawn = drawn; first_id = none })
      else err unknown_event_type
