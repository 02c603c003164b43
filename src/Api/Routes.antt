-- ===== src/Api/Routes.antt =====
-- internal/api/server.go: the routes and the guard of each. The routes that only read (the lists, the
-- schemas, the runtime, the metrics and the pages of the dashboard) are left out, except those on the
-- endpoints, the health and the login.
use tronvent.Base.{ℕ, ◌/◌, String, Bool, not, if◌then◌else◌}
use tronvent.Api.{Packages, Call, Handler, json_response, status_text}
use tronvent.Api.Session.{
  require_auth, require_dashboard_session, require_dashboard_csrf, handle_dashboard_login_get,
  handle_dashboard_login_post, handle_dashboard_logout,
}
use tronvent.Api.Watchlist.{
  handle_post_address, handle_delete_address, handle_post_contract, handle_delete_contract,
  handle_dashboard_add_address, handle_dashboard_deactivate_address,
  handle_dashboard_reactivate_address, handle_dashboard_add_contract,
  handle_dashboard_deactivate_contract, handle_dashboard_reactivate_contract,
}
use tronvent.Api.Webhooks.{
  handle_put_webhook, handle_get_webhook, handle_list_webhook_endpoints,
  handle_get_webhook_endpoint, handle_post_webhook_endpoint, handle_patch_webhook_endpoint,
  handle_delete_webhook_endpoint, handle_dashboard_webhook_settings,
}
use tronvent.Api.Retries.{
  handle_retry_webhook_event_api, handle_retry_all_webhook_events_api, handle_post_retry_block,
  handle_post_retry_range, handle_dashboard_retry_webhook_event,
  handle_dashboard_retry_all_webhooks, handle_dashboard_retry_block, handle_dashboard_retry_range,
}

-- The routes under /api/v1, by method and path.
pub data ApiRoute : Type 0 where
  post_address delete_address post_contract delete_contract : ApiRoute
  put_webhook get_webhook : ApiRoute
  list_endpoints post_endpoint get_endpoint patch_endpoint delete_endpoint : ApiRoute
  retry_event retry_all retry_block retry_range : ApiRoute

-- The routes under /dashboard/action.
pub data ActionRoute : Type 0 where
  add_address deactivate_address reactivate_address : ActionRoute
  add_contract deactivate_contract reactivate_contract : ActionRoute
  webhook_settings retry_webhook retry_all_webhooks : ActionRoute
  retry_block_form retry_range_form : ActionRoute

pub data Route : Type 0 where
  health login_get login_post logout : Route
  api : ApiRoute → Route
  action : ActionRoute → Route

module _ {F : Type 0} where
  unfoldable pub handle_health : Bool → Handler F
  handle_health ready r w =
      if not ready
      then (w, json_response 503 (status_text "unavailable"))
      else (w, json_response 200 (status_text "ok"))

  module _ (p : Packages F) (c : Call) where
    unfoldable pub api_handler : ApiRoute → Handler F
    api_handler post_address = handle_post_address p c
    api_handler delete_address = handle_delete_address p c
    api_handler post_contract = handle_post_contract p c
    api_handler delete_contract = handle_delete_contract p c
    api_handler put_webhook = handle_put_webhook p c
    api_handler get_webhook = handle_get_webhook p c
    api_handler list_endpoints = handle_list_webhook_endpoints p c
    api_handler post_endpoint = handle_post_webhook_endpoint p c
    api_handler get_endpoint = handle_get_webhook_endpoint p c
    api_handler patch_endpoint = handle_patch_webhook_endpoint p c
    api_handler delete_endpoint = handle_delete_webhook_endpoint p c
    api_handler retry_event = handle_retry_webhook_event_api p c
    api_handler retry_all = handle_retry_all_webhook_events_api p c
    api_handler retry_block = handle_post_retry_block p c
    api_handler retry_range = handle_post_retry_range p c

    unfoldable pub action_handler : ActionRoute → Handler F
    action_handler add_address = handle_dashboard_add_address p c
    action_handler deactivate_address = handle_dashboard_deactivate_address p c
    action_handler reactivate_address = handle_dashboard_reactivate_address p c
    action_handler add_contract = handle_dashboard_add_contract p c
    action_handler deactivate_contract = handle_dashboard_deactivate_contract p c
    action_handler reactivate_contract = handle_dashboard_reactivate_contract p c
    action_handler webhook_settings = handle_dashboard_webhook_settings p c
    action_handler retry_webhook = handle_dashboard_retry_webhook_event p c
    action_handler retry_all_webhooks = handle_dashboard_retry_all_webhooks p c
    action_handler retry_block_form = handle_dashboard_retry_block p c
    action_handler retry_range_form = handle_dashboard_retry_range p c

    -- time.Now().Unix()
    abbrev pub unix_now : ℕ
    unix_now = c.now / 1_000_000_000

    -- New: the handler of a route, behind its guards. The token is cfg.AdminAPIToken.
    unfoldable pub serve : String → Route → Handler F
    serve token health = handle_health c.forward_scan_ready
    serve token login_get = handle_dashboard_login_get p.hmac_hex token unix_now
    serve token login_post = handle_dashboard_login_post p.hmac_hex token unix_now c.random_token
    serve token logout =
        require_dashboard_session p.hmac_hex token unix_now
          (require_dashboard_csrf handle_dashboard_logout)
    serve token (api r) = require_auth token (api_handler r)
    serve token (action r) =
        require_dashboard_session p.hmac_hex token unix_now
          (require_dashboard_csrf (action_handler r))
