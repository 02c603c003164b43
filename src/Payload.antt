-- ===== src/Payload.antt =====
-- internal/webhookpayload/envelope.go, transfer.go and the type list of schemas.go: the body of a
-- webhook, the event types, the subscriptions of an endpoint, and the key of a transfer leg.
-- Block numbers and times (int64) are natural numbers.
pub mod Types
pub mod Keys
pub mod Examples
use tronvent.Base.{
  ℕ, String, ◌<>◌, Bool, true, false, ◌&&◌, List, [], ◌∷◌, str_eq, any, trim_space, to_upper_is,
  to_lower_is, if◌then◌else◌,
}

abbrev pub direction_received : String
direction_received = "received"

abbrev pub direction_broadcasted : String
direction_broadcasted = "broadcasted"

abbrev pub trx_received : String
trx_received = "transaction.trx.received"

abbrev pub trx_broadcasted : String
trx_broadcasted = "transaction.trx.broadcasted"

abbrev pub trc20_received : String
trc20_received = "transaction.trc20.received"

abbrev pub trc20_broadcasted : String
trc20_broadcasted = "transaction.trc20.broadcasted"

unfoldable pub default_event_types : List String
default_event_types = trx_received ∷ trx_broadcasted ∷ trc20_received ∷ trc20_broadcasted ∷ []

unfoldable pub list_event_schema_types : List String
list_event_schema_types = trx_received ∷ trx_broadcasted ∷ trc20_received ∷ trc20_broadcasted ∷ []

pub record TransactionData : Type 0 where
  pub id : String
  pub tx_hash : String
  pub from_address : String
  pub to_address : String
  pub amount : String
  pub token_contract_address : String
  pub block_number : ℕ
  pub block_timestamp : ℕ
  pub confirmations : ℕ

pub record Envelope : Type 0 where
  pub type : String
  pub timestamp : String
  pub payload : TransactionData

-- The inner switch, on strings.ToLower(strings.TrimSpace(direction)).
by_direction : String → String → String → String
by_direction direction received broadcasted =
    if to_lower_is (trim_space direction) direction_received
    then received
    else if to_lower_is (trim_space direction) direction_broadcasted
    then broadcasted
    else ""

unfoldable pub transfer_event_type : String → String → String
unfolding by_direction
transfer_event_type kind direction =
    if to_upper_is (trim_space kind) "TRX"
    then by_direction direction trx_received trx_broadcasted
    else if to_upper_is (trim_space kind) "TRC20"
    then by_direction direction trc20_received trc20_broadcasted
    else ""

unfoldable pub is_known_event_type : String → Bool
unfolding list_event_schema_types
is_known_event_type event_type = any (λ t. str_eq t (trim_space event_type)) list_event_schema_types

-- ValidateEventTypes: `true` is nil.
unfoldable pub validate_event_types : List String → Bool
unfolding is_known_event_type
validate_event_types [] = true
validate_event_types (t ∷ ts) =
    let rest = validate_event_types ts in
    if str_eq (trim_space t) ""
    then false
    else if is_known_event_type (trim_space t)
    then rest
    else false

unfoldable pub effective_event_subscriptions : List String → List String
unfolding default_event_types
effective_event_subscriptions [] = default_event_types
effective_event_subscriptions (t ∷ ts) = t ∷ ts

unfoldable pub endpoint_subscribes : List String → String → Bool
unfolding effective_event_subscriptions
endpoint_subscribes subscriptions event_type =
    any (λ t. str_eq (trim_space t) event_type) (effective_event_subscriptions subscriptions)

unfoldable pub normalize_event_type : String → String
normalize_event_type event_type = trim_space event_type

-- One transfer leg: the same transaction can include several.
unfoldable pub transfer_dedupe_key : String → String → String → String
transfer_dedupe_key from to amount =
    trim_space from <> (":" <> (trim_space to <> (":" <> trim_space amount)))

-- EventOccurredAt formats the chain's block time; its text is a parameter.
module _ (event_occurred_at : ℕ → String) where
  pub new_directed_transaction_envelope : String → String → ℕ → TransactionData → Envelope
  new_directed_transaction_envelope kind direction block_timestamp data' = record {
    type = transfer_event_type kind direction;
    timestamp = event_occurred_at block_timestamp;
    payload = data';
  }
