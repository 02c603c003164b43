-- ===== src/Payload/Types.antt =====
-- The event types (internal/webhookpayload/envelope.go).
use tronvent.Base.{
  String, true, List, [], ◌∷◌, ◌≡◌, refl, ◌⊎◌, inl, inr, Bool-cases, arith, str_eq, eq_iff, any,
  trim_space,
}
use tronvent.Payload.{
  transfer_event_type, is_known_event_type, validate_event_types, endpoint_subscribes, trx_received,
  trx_broadcasted, trc20_received, trc20_broadcasted,
}

known_types :
    (is_known_event_type trx_received ≡ true)
    × (is_known_event_type trx_broadcasted ≡ true)
    × (is_known_event_type trc20_received ≡ true)
    × (is_known_event_type trc20_broadcasted ≡ true)
unfolding is_known_event_type trim_space
known_types = (refl, refl, refl, refl)

-- The type that the scanner gives a match is empty or one that the outbox knows.
pub transfer_event_type-known :
    (kind direction : String)
    → (transfer_event_type kind direction ≡ "")
      ⊎ (is_known_event_type (transfer_event_type kind direction) ≡ true)
unfolding transfer_event_type
transfer_event_type-known kind direction = ground (arith, known_types)

subscribes_any-known :
    (ts : List String) (t : String)
    → validate_event_types ts ≡ true
    → any (λ s. str_eq (trim_space s) t) ts ≡ true
    → is_known_event_type t ≡ true
unfolding validate_event_types
subscribes_any-known [] t v h = cc
subscribes_any-known (s ∷ ts) t v h = elim (Bool-cases (str_eq (trim_space s) t)) [
  | inl e ↦ ground (arith, e, eq_iff (trim_space s) t)
  | inr e ↦ subscribes_any-known ts t (ground (arith, v)) (rw e at h)
]

default_types_trimmed :
    (trim_space trx_received ≡ trx_received)
    × (trim_space trx_broadcasted ≡ trx_broadcasted)
    × (trim_space trc20_received ≡ trc20_received)
    × (trim_space trc20_broadcasted ≡ trc20_broadcasted)
unfolding trim_space
default_types_trimmed = (refl, refl, refl, refl)

-- An endpoint whose stored subscriptions were validated subscribes to known types only, also where
-- the stored list is empty and stands for the default.
pub endpoint_subscribes-known :
    (ts : List String) (t : String)
    → validate_event_types ts ≡ true
    → endpoint_subscribes ts t ≡ true
    → is_known_event_type t ≡ true
unfolding endpoint_subscribes
endpoint_subscribes-known [] t v h = ground (
  arith,
  known_types,
  default_types_trimmed,
  eq_iff trx_received t,
  eq_iff trx_broadcasted t,
  eq_iff trc20_received t,
  eq_iff trc20_broadcasted t,
)
endpoint_subscribes-known (s ∷ ts) t v h = subscribes_any-known (s ∷ ts) t v h
