-- ===== src/Payload/Examples.antt =====
-- Witnesses for the theorems about internal/webhookpayload.
use tronvent.Base.{true, [], ◌∷◌, ◌≡◌, refl, trim_space}
use tronvent.Payload.{is_known_event_type, validate_event_types, endpoint_subscribes}
use tronvent.Payload.Types.{endpoint_subscribes-known}

endpoint_subscribes-known_example : is_known_event_type "transaction.trx.received" ≡ true
unfolding validate_event_types endpoint_subscribes trim_space
endpoint_subscribes-known_example =
    endpoint_subscribes-known (" transaction.trx.received" ∷ []) "transaction.trx.received" refl
      refl
