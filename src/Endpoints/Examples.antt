-- ===== src/Endpoints/Examples.antt =====
-- A rotation of one endpoint's key (internal/db/webhook_endpoints.go).
use tronvent.Base.{
  String, true, some, [], ◌∷◌, ◌≡◌, ◌≢◌, ◌⊎◌, refl, arith, eq_iff, trim_space, has_prefix,
  trim_prefix, has_suffix,
}
use tronvent.Payload.{default_event_types, validate_event_types}
use tronvent.Outbox.{WebhookEndpoint}
use tronvent.Signing.{
  normalize_signing_key, prepare_signing_key_for_delivery, validate_signing_key,
  validate_signing_secret, decode_signing_secret,
}
use tronvent.Signing.Examples.{packages}
use tronvent.UrlPolicy.{
  resolved, validate_webhook_url, reject_private_host, reject_any, reject_private_addr,
}
use tronvent.UrlPolicy.Examples.{network, address}
use tronvent.Endpoints.{
  row_of, update_row, get_webhook_endpoint, normalize_endpoint_signing, stored,
  upsert_webhook_endpoint,
}
use tronvent.Endpoints.Rotation.{signs_with, upsert_webhook_endpoint-signs_with}

abbrev endpoint : String → WebhookEndpoint
endpoint secret = record {
  id = "ep";
  webhook_url = "https://h.example";
  signing_secret = secret;
  signing_secret_previous = "";
  signing_public_key = "";
  event_types = [];
  is_active = true;
  failure_notify_email = "";
  source = "api";
  updated_at = 0;
}

abbrev rotated : WebhookEndpoint
rotated = record (endpoint "whsec_new") {
  signing_secret_previous = "whsec_old";
  event_types = default_event_types;
  updated_at = 5;
}

named : ◌≢◌ {A = String} "ep" ""
named = ground (arith, eq_iff "ep" "")

other_id : ◌≢◌ {A = String} "other" "ep"
other_id = ground (arith, eq_iff "other" "ep")

keyed : ◌≢◌ {A = String} "whsec_new" ""
keyed = ground (arith, eq_iff "whsec_new" "")

old_loaded :
    get_webhook_endpoint packages (endpoint "whsec_old" ∷ []) "ep"
    ≡ some (some (endpoint "whsec_old"))
unfolding get_webhook_endpoint normalize_endpoint_signing prepare_signing_key_for_delivery
    normalize_signing_key validate_signing_key validate_signing_secret decode_signing_secret
    trim_space has_prefix trim_prefix
old_loaded = refl

new_normalized : normalize_signing_key packages "whsec_new" ≡ some "whsec_new"
unfolding normalize_signing_key validate_signing_key validate_signing_secret decode_signing_secret
    trim_space has_prefix trim_prefix
new_normalized = refl

new_stored :
    upsert_webhook_endpoint packages
      (network (resolved (some address ∷ [])))
      "id"
      5
      (endpoint "whsec_new")
      (endpoint "whsec_old" ∷ [])
    ≡ stored (rotated ∷ []) rotated
unfolding upsert_webhook_endpoint update_row get_webhook_endpoint normalize_endpoint_signing
    prepare_signing_key_for_delivery normalize_signing_key validate_signing_key
    validate_signing_secret decode_signing_secret trim_space has_prefix trim_prefix has_suffix
    validate_webhook_url reject_private_host reject_any reject_private_addr validate_event_types
new_stored = refl

upsert_webhook_endpoint-signs_with_example :
    (rotated.signing_secret ≡ "whsec_new")
    × (signs_with "whsec_new" rotated ≡ true)
    × (◌≡◌ {A = String} "whsec_old" "" ⊎ (signs_with "whsec_old" rotated ≡ true))
    × (row_of "ep" (rotated ∷ []) ≡ some rotated)
    × (row_of "other" (rotated ∷ []) ≡ row_of "other" (endpoint "whsec_old" ∷ []))
upsert_webhook_endpoint-signs_with_example =
    upsert_webhook_endpoint-signs_with packages (network (resolved (some address ∷ []))) "id" 5
      (endpoint "whsec_new") (endpoint "whsec_old") rotated (endpoint "whsec_old" ∷ [])
      (rotated ∷ []) "whsec_new" "other" named keyed old_loaded new_normalized new_stored other_id
