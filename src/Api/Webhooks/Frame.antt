-- ===== src/Api/Webhooks/Frame.antt =====
-- The handlers on the webhook endpoints (internal/api) leave the watchlists alone.
use tronvent.Base.{
  String, Bool, not, ◌||◌, Option, none, some, List, ◌≡◌, refl, str_eq, trim_space, Bool-cases, inl,
  inr,
}
use tronvent.Payload.{validate_event_types}
use tronvent.Outbox.{Event, WebhookEndpoint}
use tronvent.Outbox.Lifecycle.{DeleteResult, deleted, not_found, has_undelivered_events}
use tronvent.Endpoints.{Upserted, stored, refused}
use tronvent.Api.{
  Packages, Call, World, Request, Response, WebhookRequest, EndpointRequest, EndpointPatchRequest,
}
use tronvent.Api.Watch.{watch, if-watch}
use tronvent.Api.Webhooks
use tronvent.Api.EndpointInput.{Built, built, not_built, is_endpoint_id}

module _ {F : Type 0} (p : Packages F) (c : Call) where
  saved-watch :
      (msg : String) (answer : WebhookEndpoint → Response) (x : Upserted) (w : World F)
      → watch (Webhooks.saved p c msg answer x w).0 ≡ watch w
  saved-watch msg answer (refused e) w = refl
  saved-watch msg answer (stored table ep) w = if-watch c.write_ok _ _ w refl refl

  put-watch :
      (req : Option WebhookRequest) (w : World F)
      → watch (Webhooks.put_webhook p c req w).0 ≡ watch w
  put-watch none w = refl
  put-watch (some req) w = if-watch (str_eq (trim_space req.webhook_url) "") _ _ w refl (
      if-watch (not (validate_event_types req.event_types)) _ _ w refl
        (if-watch (not c.read_ok) _ _ w refl (saved-watch _ _ _ w)))

  post_built-watch : (b : Built) (w : World F) → watch (Webhooks.post_built p c b w).0 ≡ watch w
  post_built-watch not_built w = refl
  post_built-watch (built ep) w = saved-watch _ _ _ w

  post-watch :
      (req : Option EndpointRequest) (w : World F)
      → watch (Webhooks.post_endpoint p c req w).0 ≡ watch w
  post-watch none w = refl
  post-watch (some req) w = post_built-watch _ w

  patch_built-watch : (b : Built) (w : World F) → watch (Webhooks.patch_built p c b w).0 ≡ watch w
  patch_built-watch not_built w = refl
  patch_built-watch (built ep) w = saved-watch _ _ _ w

  patch-watch :
      (req : Option EndpointPatchRequest) (x : Option (Option WebhookEndpoint)) (w : World F)
      → watch (Webhooks.patch_existing p c req x w).0 ≡ watch w
  patch-watch req none w = refl
  patch-watch req (some none) w = refl
  patch-watch none (some (some ep)) w = refl
  patch-watch (some req) (some (some ep)) w = patch_built-watch _ w

  deleted-watch :
      (text id : String) (x : List Event × DeleteResult) (w : World F)
      → watch (Webhooks.endpoint_deleted p c text id x w).0 ≡ watch w
  deleted-watch text id (events, not_found) w = refl
  deleted-watch text id (events, has_undelivered_events) w = refl
  deleted-watch text id (events, deleted) w = refl

  delete_id-watch :
      (text : String) (force : Bool) (id : Option String) (w : World F)
      → watch (Webhooks.delete_id p c text force id w).0 ≡ watch w
  delete_id-watch text force none w = refl
  delete_id-watch text force (some id) w = deleted-watch text id _ w

  settings_saved-watch :
      (x : Upserted) (w : World F) → watch (Webhooks.settings_saved p c x w) ≡ watch w
  settings_saved-watch (refused e) w = refl
  settings_saved-watch (stored table ep) w = elim (Bool-cases c.write_ok) [
    | inl e ↦ rw e
    | inr e ↦ rw e
  ]

  settings_form-watch :
      (form : Option (String → String)) (w : World F)
      → watch (Webhooks.settings_form p c form w) ≡ watch w
  settings_form-watch none w = refl
  settings_form-watch (some form) w =
      elim (Bool-cases (str_eq (trim_space (form "webhookUrl")) "" || not c.read_ok)) [
        | inl e ↦ rw e
        | inr e ↦ rw e (settings_saved-watch _ w)
      ]

  pub put_webhook-watch :
      (r : Request) (w : World F) → watch (Webhooks.handle_put_webhook p c r w).0 ≡ watch w
  unfolding Webhooks.handle_put_webhook
  put_webhook-watch r w = put-watch (p.json.webhook r.body) w

  pub get_webhook-watch :
      (r : Request) (w : World F) → watch (Webhooks.handle_get_webhook p c r w).0 ≡ watch w
  unfolding Webhooks.handle_get_webhook
  get_webhook-watch r w = refl

  pub list_endpoints-watch :
      (r : Request) (w : World F)
      → watch (Webhooks.handle_list_webhook_endpoints p c r w).0 ≡ watch w
  unfolding Webhooks.handle_list_webhook_endpoints
  list_endpoints-watch r w = refl

  pub get_endpoint-watch :
      (r : Request) (w : World F) → watch (Webhooks.handle_get_webhook_endpoint p c r w).0 ≡ watch w
  unfolding Webhooks.handle_get_webhook_endpoint
  get_endpoint-watch r w =
      if-watch (not (is_endpoint_id (r.path_value "endpointID"))) _ _ w refl refl

  pub post_endpoint-watch :
      (r : Request) (w : World F)
      → watch (Webhooks.handle_post_webhook_endpoint p c r w).0 ≡ watch w
  unfolding Webhooks.handle_post_webhook_endpoint
  post_endpoint-watch r w = post-watch (p.json.endpoint r.body) w

  pub patch_endpoint-watch :
      (r : Request) (w : World F)
      → watch (Webhooks.handle_patch_webhook_endpoint p c r w).0 ≡ watch w
  unfolding Webhooks.handle_patch_webhook_endpoint
  patch_endpoint-watch r w =
      if-watch (not (is_endpoint_id (r.path_value "endpointID"))) _ _ w refl (patch-watch _ _ w)

  pub delete_endpoint-watch :
      (r : Request) (w : World F)
      → watch (Webhooks.handle_delete_webhook_endpoint p c r w).0 ≡ watch w
  unfolding Webhooks.handle_delete_webhook_endpoint
  delete_endpoint-watch r w =
      if-watch (not (is_endpoint_id (r.path_value "endpointID"))) _ _ w refl
        (if-watch (not c.write_ok) _ _ w refl (delete_id-watch _ _ _ w))

  pub settings-watch :
      (r : Request) (w : World F)
      → watch (Webhooks.handle_dashboard_webhook_settings p c r w).0 ≡ watch w
  unfolding Webhooks.handle_dashboard_webhook_settings
  settings-watch r w = settings_form-watch r.form w
