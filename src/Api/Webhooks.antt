-- ===== src/Api/Webhooks.antt =====
-- The handlers on the webhook endpoints: internal/api/server.go (PUT and GET of the one webhook),
-- webhook_endpoints_api.go, and the settings form of dashboard.go. An error's text is left out where
-- the database gives it.
pub mod Frame
use Prim.Native.Char.{code}
use tronvent.Base.{
  ℕ, zero, suc, String, Bool, true, false, not, ◌||◌, ◌&&◌, Option, none, some, List, [], ◌∷◌, map,
  leb, ◌==◌, str_eq, keep, trim_space, has_prefix, ◌≡◌, refl, if◌then◌else◌,
}
use tronvent.Payload.{validate_event_types}
use tronvent.Outbox.{Event, WebhookEndpoint}
use tronvent.Outbox.Lifecycle.{
  DeleteResult, deleted, not_found, has_undelivered_events, delete_webhook_endpoint,
}
use tronvent.Signing.{private_key_prefix}
use tronvent.Endpoints.{
  UpsertError, invalid_endpoint, resolver_failed, invalid_previous, unreadable_key,
  endpoint_not_found, url_is_required, no_key_pair, Upserted, stored, refused, row_of,
  list_webhook_endpoints, get_webhook_endpoint, upsert_webhook_endpoint,
}
use tronvent.Endpoints.Primary.{KeyPairs, upsert_primary_webhook_endpoint_preserve_secret}
use tronvent.Stores.{get_primary_endpoint, upsert_endpoint, remove_endpoint}
use tronvent.Api.EndpointInput.{
  Built, built, not_built, is_endpoint_id, webhook_save_error, webhook_endpoint_response,
  build_endpoint_from_request, merge_endpoint_patch,
}
use tronvent.Api.{
  Packages, Call, World, Request, Response, Handler, WebhookRequest, EndpointRequest,
  EndpointPatchRequest, EndpointView, json_response, no_content, page, primary_row, endpoint_row,
  endpoint_rows, error_text, bad_request, server_error,
}

module _ {F : Type 0} (p : Packages F) (c : Call) where
  -- The table after the transaction and the endpoint in memory, or the answer of an error.
  abbrev saved : String → (WebhookEndpoint → Response) → Upserted → World F → World F × Response
  saved msg answer (refused e) w = (w, webhook_save_error e msg)
  saved msg answer (stored table ep) w =
      if c.write_ok
      then (
        record w { endpoints = table; webhook_config = upsert_endpoint ep w.webhook_config },
        answer ep,
      )
      else (w, server_error msg)

  -- s.db.UpsertWebhookEndpoint
  abbrev upsert : WebhookEndpoint → World F → Upserted
  upsert ep w = upsert_webhook_endpoint p.crypto c.network c.new_id c.now ep w.endpoints

  -- s.db.UpsertPrimaryWebhookEndpointPreserveSecret
  abbrev upsert_primary : String → String → Bool → String → List String → World F → Upserted
  upsert_primary url secret active source types w =
      upsert_primary_webhook_endpoint_preserve_secret p.crypto c.network c.key_pairs c.new_id c.now
        url secret active source types w.endpoints

  abbrev primary_answer : WebhookEndpoint → Response
  primary_answer ep = json_response 200 (primary_row ep.webhook_url ep.is_active ep.updated_at)

  abbrev put_webhook : Option WebhookRequest → World F → World F × Response
  put_webhook none w = (w, bad_request "invalid JSON body")
  put_webhook (some req) w =
      let url = trim_space req.webhook_url in
      if str_eq url ""
      then (w, bad_request "webhookUrl is required")
      else if not (validate_event_types req.event_types)
      then (w, bad_request "invalid event types")
      else if not c.read_ok
      then (w, server_error "failed to save webhook config")
      else saved "failed to save webhook config" primary_answer
          (upsert_primary url (trim_space req.signing_secret) true "api" req.event_types w) w

  unfoldable pub handle_put_webhook : Handler F
  handle_put_webhook r w = put_webhook (p.json.webhook r.body) w

  -- PublicView
  abbrev public_view : Option WebhookEndpoint → Response
  public_view none = json_response 404 (error_text "webhook not configured")
  public_view (some ep) = primary_answer ep

  unfoldable pub handle_get_webhook : Handler F
  handle_get_webhook r w = (w, public_view (get_primary_endpoint w.webhook_config))

  abbrev listed : Option (List WebhookEndpoint) → Response
  listed none = server_error "failed to list webhook endpoints"
  listed (some eps) = json_response 200 (endpoint_rows (map webhook_endpoint_response eps))

  unfoldable pub handle_list_webhook_endpoints : Handler F
  handle_list_webhook_endpoints r w =
      (w, listed (if c.read_ok then list_webhook_endpoints p.crypto w.endpoints else none))

  abbrev unknown_endpoint : Response
  unknown_endpoint = json_response 404 (error_text "webhook endpoint not found")

  abbrev found : Option (Option WebhookEndpoint) → Response
  found none = server_error "failed to load webhook endpoint"
  found (some none) = unknown_endpoint
  found (some (some ep)) = json_response 200 (endpoint_row (webhook_endpoint_response ep))

  abbrev load_id : Option String → World F → Option (Option WebhookEndpoint)
  load_id none w = none
  load_id (some id) w = get_webhook_endpoint p.crypto w.endpoints id

  -- s.db.GetWebhookEndpoint
  abbrev load : String → World F → Option (Option WebhookEndpoint)
  load id w = if c.read_ok then load_id (p.uuid id) w else none

  unfoldable pub handle_get_webhook_endpoint : Handler F
  handle_get_webhook_endpoint r w =
      let id = r.path_value "endpointID" in
      if not (is_endpoint_id id) then (w, unknown_endpoint) else (w, found (load id w))

  abbrev endpoint_answer : ℕ → WebhookEndpoint → Response
  endpoint_answer status ep = json_response status (endpoint_row (webhook_endpoint_response ep))

  abbrev post_built : Built → World F → World F × Response
  post_built not_built w = (w, bad_request "invalid webhook endpoint")
  post_built (built ep) w =
      saved "failed to save webhook endpoint" (endpoint_answer 201)
        (upsert (record ep { is_active = true; source = "api" }) w) w

  abbrev post_endpoint : Option EndpointRequest → World F → World F × Response
  post_endpoint none w = (w, bad_request "invalid JSON body")
  post_endpoint (some req) w = post_built (build_endpoint_from_request c.key_pairs req "") w

  unfoldable pub handle_post_webhook_endpoint : Handler F
  handle_post_webhook_endpoint r w = post_endpoint (p.json.endpoint r.body) w

  abbrev patch_built : Built → World F → World F × Response
  patch_built not_built w = (w, bad_request "invalid webhook endpoint")
  patch_built (built ep) w =
      saved "failed to save webhook endpoint" (endpoint_answer 200) (upsert ep w) w

  abbrev patch_existing :
      Option EndpointPatchRequest → Option (Option WebhookEndpoint) → World F → World F × Response
  patch_existing body none w = (w, server_error "failed to load webhook endpoint")
  patch_existing body (some none) w = (w, unknown_endpoint)
  patch_existing none (some (some ep)) w = (w, bad_request "invalid JSON body")
  patch_existing (some req) (some (some ep)) w =
      patch_built (merge_endpoint_patch c.key_pairs ep req) w

  unfoldable pub handle_patch_webhook_endpoint : Handler F
  handle_patch_webhook_endpoint r w =
      let id = r.path_value "endpointID" in
      if not (is_endpoint_id id)
      then (w, unknown_endpoint)
      else patch_existing (p.json.endpoint_patch r.body) (load id w) w

  abbrev has_row : Option WebhookEndpoint → Bool
  has_row none = false
  has_row (some ep) = true

  -- The rows of the endpoint's events go with it (ON DELETE CASCADE). The row is found by the uuid,
  -- the endpoint in memory by the text of the request.
  abbrev endpoint_deleted :
      String → String → List Event × DeleteResult → World F → World F × Response
  endpoint_deleted text id (events, not_found) w = (w, unknown_endpoint)
  endpoint_deleted text id (events, has_undelivered_events) w =
      (w, json_response 409 (error_text "webhook endpoint has undelivered events"))
  endpoint_deleted text id (events, deleted) w = (
    record w {
      endpoints = keep (λ ep. not (str_eq ep.id id)) w.endpoints;
      events = events;
      webhook_config = remove_endpoint text w.webhook_config;
    },
    no_content,
  )

  abbrev delete_id : String → Bool → Option String → World F → World F × Response
  delete_id text force none w = (w, server_error "failed to delete webhook endpoint")
  delete_id text force (some id) w =
      endpoint_deleted text id
        (delete_webhook_endpoint (has_row (row_of id w.endpoints)) id force w.events) w

  unfoldable pub handle_delete_webhook_endpoint : Handler F
  handle_delete_webhook_endpoint r w =
      let id = r.path_value "endpointID" in
      let force = str_eq (r.query "force") "true" in
      if not (is_endpoint_id id)
      then (w, unknown_endpoint)
      else if not c.write_ok
      then (w, server_error "failed to delete webhook endpoint")
      else delete_id id force (p.uuid id) w

  -- The form says on which settings the dashboard saves; any outcome shows the page again.
  abbrev settings_saved : Upserted → World F → World F
  settings_saved (refused e) w = w
  settings_saved (stored table ep) w =
      if c.write_ok
      then record w { endpoints = table; webhook_config = upsert_endpoint ep w.webhook_config }
      else w

  abbrev settings_form : Option (String → String) → World F → World F
  settings_form none w = w
  settings_form (some form) w =
      let url = trim_space (form "webhookUrl") in
      if str_eq url "" || not c.read_ok
      then w
      else settings_saved
          (upsert_primary url (trim_space (form "signingSecret")) (str_eq (form "isActive") "on")
            "dashboard" [] w)
          w

  unfoldable pub handle_dashboard_webhook_settings : Handler F
  handle_dashboard_webhook_settings r w = (settings_form r.form w, page "webhooks")
