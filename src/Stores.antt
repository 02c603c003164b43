-- ===== src/Stores.antt =====
-- internal/store/webhook_config_store.go: the webhook endpoints that a process holds in memory, by
-- id and in the order of the table. The mutex makes each method one step on this state.
pub mod Agreement
pub mod Examples
use tronvent.Base.{
  String, Bool, true, false, not, Option, none, some, List, [], ◌∷◌, str_eq, keep, any,
  if◌then◌else◌,
}
use tronvent.Outbox.{WebhookEndpoint}

pub record WebhookConfigStore : Type 0 where
  pub by_id : String → Option WebhookEndpoint
  pub ordered : List WebhookEndpoint

-- NewWebhookConfigStore
abbrev pub new_webhook_config_store : WebhookConfigStore
new_webhook_config_store = record { by_id = λ id. none; ordered = [] }

-- byID[ep.ID] = ep
abbrev pub put_endpoint :
    (String → Option WebhookEndpoint) → WebhookEndpoint → String → Option WebhookEndpoint
put_endpoint m ep = λ id. if str_eq ep.id id then some ep else m id

-- The loop of Reload over the endpoints.
unfoldable pub index_endpoints :
    (String → Option WebhookEndpoint) → List WebhookEndpoint → String → Option WebhookEndpoint
index_endpoints m [] = m
index_endpoints m (ep ∷ eps) = index_endpoints (put_endpoint m ep) eps

-- Reload with the endpoints that the loader returned, `none` where it failed.
unfoldable pub reload : Option (List WebhookEndpoint) → WebhookConfigStore → WebhookConfigStore
reload none s = s
reload (some eps) s = record { by_id = index_endpoints (λ id. none) eps; ordered = eps }

-- The loop of UpsertEndpoint: the first endpoint with the id is replaced, or the new one is appended.
unfoldable pub place : WebhookEndpoint → List WebhookEndpoint → List WebhookEndpoint
place ep [] = ep ∷ []
place ep (cur ∷ rest) = if str_eq cur.id ep.id then ep ∷ rest else cur ∷ place ep rest

unfoldable pub upsert_endpoint : WebhookEndpoint → WebhookConfigStore → WebhookConfigStore
upsert_endpoint ep s = record { by_id = put_endpoint s.by_id ep; ordered = place ep s.ordered }

abbrev pub first_of : List WebhookEndpoint → Option WebhookEndpoint
first_of [] = none
first_of (ep ∷ eps) = some ep

unfoldable pub get_primary_endpoint : WebhookConfigStore → Option WebhookEndpoint
get_primary_endpoint s = first_of s.ordered

unfoldable pub get_endpoint : WebhookConfigStore → String → Option WebhookEndpoint
get_endpoint s id = s.by_id id

unfoldable pub remove_endpoint : String → WebhookConfigStore → WebhookConfigStore
remove_endpoint id s = record {
  by_id = λ k. if str_eq id k then none else s.by_id k;
  ordered = keep (λ ep. not (str_eq ep.id id)) s.ordered;
}
