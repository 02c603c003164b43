-- ===== src/Outbox.antt =====
-- internal/db/scanner.go (EnqueueWebhookEvent to MarkWebhookEventFailed), internal/db/dashboard.go
-- (the retries) and internal/db/webhook_endpoints.go (DeleteWebhookEndpoint): the table
-- webhook_events, oldest row first. A statement or a transaction of SQL is one function on the table
-- at the database's time `now`, in nanoseconds; a transaction that fails leaves the table alone.
pub mod Enqueue
pub mod Lifecycle
pub mod Replay
pub mod Quiet
pub mod Examples
use tronvent.Base.{
  ℕ, ◌+◌, ◌*◌, String, Bool, true, false, not, ◌&&◌, ◌||◌, Option, none, some, List, [], ◌∷◌, ltb,
  leb, ◌==◌, str_eq, any, if◌then◌else◌,
}
use tronvent.Payload.{Envelope}

-- The texts 'pending', 'delivering', 'delivered', 'failed' and 'dead' of the column `status`.
pub data Status : Type 0 where
  pending delivering delivered failed dead : Status

pub record Event : Type 0 where
  pub id : String
  pub event_type : String
  pub scope : String
  pub tx_hash : String
  pub block_number : ℕ
  pub block_timestamp : ℕ
  pub payload : Envelope
  pub dedupe_key : String
  pub status : Status
  pub attempt_count : ℕ
  pub next_attempt_at : ℕ
  pub delivered_at : Option ℕ
  pub last_error : Option String
  pub last_response_code : Option ℕ
  pub created_at : ℕ
  pub updated_at : ℕ
  pub endpoint_id : Option String

-- internal/db/webhook_endpoints.go: WebhookEndpoint
pub record WebhookEndpoint : Type 0 where
  pub id : String
  pub webhook_url : String
  pub signing_secret : String
  pub signing_secret_previous : String
  pub signing_public_key : String
  pub event_types : List String
  pub is_active : Bool
  pub failure_notify_email : String
  pub source : String
  pub updated_at : ℕ

abbrev pub is_id : String → Event → Bool
is_id id e = str_eq id e.id

-- UPDATE … SET … WHERE …, row by row
unfoldable pub update : (Event → Bool) → (Event → Event) → List Event → List Event
update p f [] = []
update p f (e ∷ es) = (if p e then f e else e) ∷ update p f es
