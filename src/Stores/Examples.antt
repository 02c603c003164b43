-- ===== src/Stores/Examples.antt =====
-- A history of the endpoints in memory (internal/store/webhook_config_store.go).
use tronvent.Base.{String, true, false, none, some, List, [], ◌∷◌, ◌≡◌, refl}
use tronvent.Outbox.{WebhookEndpoint}
use tronvent.Stores.{new_webhook_config_store, get_endpoint}
use tronvent.Stores.Agreement.{
  Change, reloaded, upserted, removed, changes, find, PrimaryFound, get_endpoint-changes,
}

abbrev endpoint : String → WebhookEndpoint
endpoint id = record {
  id = id;
  webhook_url = "https://hooks.example";
  signing_secret = "whsec_a";
  signing_secret_previous = "";
  signing_public_key = "";
  event_types = [];
  is_active = true;
  failure_notify_email = "";
  source = "api";
  updated_at = 0;
}

abbrev history : List Change
history =
    reloaded (some (endpoint "a" ∷ endpoint "b" ∷ []))
    ∷ upserted (record (endpoint "a") { is_active = false })
    ∷ reloaded none
    ∷ removed "b"
    ∷ []

get_endpoint-changes_example :
    let s = changes history new_webhook_config_store in
    (get_endpoint s "a" ≡ find "a" s.ordered) × PrimaryFound s "a"
get_endpoint-changes_example = get_endpoint-changes history "a" ((refl, (refl, tt)), tt)
