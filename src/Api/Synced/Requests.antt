-- ===== src/Api/Synced/Requests.antt =====
-- Every request and every reload keeps what the process holds of the watchlists in step with the tables
-- (internal/api, cmd/tronvent/main.go).
use tronvent.Base.{
  String, Bool, not, ◌||◌, Option, none, some, List, [], ◌∷◌, ◌≡◌, sym, ap, Bool-cases, inl, inr,
  str_eq, All,
}
use tronvent.Api.{Packages, Call, World, Request, Handler}
use tronvent.Api.Watch.{Watch, watch}
use tronvent.Api.Session.{
  require_auth, require_dashboard_session, require_dashboard_csrf, value_of,
  handle_dashboard_login_get, handle_dashboard_login_post, handle_dashboard_logout,
}
use tronvent.Api.Routes
use tronvent.Api.Routes.{
  ApiRoute, ActionRoute, Route, health, login_get, login_post, logout, api, action, api_handler,
  action_handler, handle_health, serve,
}
use tronvent.Api.Process.{
  Channel, addresses_changed, contracts_changed, webhook_changed, Process, Step, served, queried,
  swapped, nth, query, swap, loaded, start, start_webhooks, started, step, run,
}
use tronvent.Api.Synced.Reloads.{
  Covers, Covers-NoneActivated, All-without, CoversAny-nth, All-with_found, query-CoversAny,
  swap_found-All, swap_found-InStep, UndisturbedBy, Undisturbed,
}
use tronvent.Outbox.{WebhookEndpoint}
use tronvent.Api.Watchlist.Calls.{InStep, if-InStep, same-InStep}
use tronvent.Api.Watchlist.Kept.{
  post_address-kept, delete_address-kept, post_contract-kept, delete_contract-kept,
  address_forms-kept, contract_forms-kept,
}
use tronvent.Api.Webhooks.Frame.{
  put_webhook-watch, get_webhook-watch, list_endpoints-watch, get_endpoint-watch,
  post_endpoint-watch, patch_endpoint-watch, delete_endpoint-watch, settings-watch,
}
use tronvent.Api.Retries.Frame.{
  retry_event-watch, retry_all-watch, retry_block-watch, retry_range-watch,
  dashboard_retry_event-watch, dashboard_retry_all-watch, dashboard_retry_block-watch,
  dashboard_retry_range-watch,
}
use tronvent.Api.Synced.{NoFalseNegatives, Synced, Keyed, address_of, contract_of}
use tronvent.Api.Synced.Addresses
use tronvent.Api.Synced.Contracts

abbrev watch_in : {F : Type 0} → Watch F → Option (World F) → Watch F
watch_in v none = v
watch_in v (some w) = watch w

module _ {F : Type 0} (p : Packages F) (n : NoFalseNegatives p.bloom) where
  api_handler-InStep :
      (c : Call) (route : ApiRoute) (r : Request) (w : World F)
      → InStep p w
      → InStep p (api_handler p c route r w).0
  unfolding api_handler
  api_handler-InStep c Routes.post_address r w h = post_address-kept p n c r w h
  api_handler-InStep c Routes.delete_address r w h = delete_address-kept p n c r w h
  api_handler-InStep c Routes.post_contract r w h = post_contract-kept p n c r w h
  api_handler-InStep c Routes.delete_contract r w h = delete_contract-kept p n c r w h
  api_handler-InStep c Routes.put_webhook r w h =
      same-InStep p (watch w) _ h (put_webhook-watch p c r w)
  api_handler-InStep c Routes.get_webhook r w h =
      same-InStep p (watch w) _ h (get_webhook-watch p c r w)
  api_handler-InStep c Routes.list_endpoints r w h =
      same-InStep p (watch w) _ h (list_endpoints-watch p c r w)
  api_handler-InStep c Routes.post_endpoint r w h =
      same-InStep p (watch w) _ h (post_endpoint-watch p c r w)
  api_handler-InStep c Routes.get_endpoint r w h =
      same-InStep p (watch w) _ h (get_endpoint-watch p c r w)
  api_handler-InStep c Routes.patch_endpoint r w h =
      same-InStep p (watch w) _ h (patch_endpoint-watch p c r w)
  api_handler-InStep c Routes.delete_endpoint r w h =
      same-InStep p (watch w) _ h (delete_endpoint-watch p c r w)
  api_handler-InStep c Routes.retry_event r w h =
      same-InStep p (watch w) _ h (retry_event-watch p c r w)
  api_handler-InStep c Routes.retry_all r w h =
      same-InStep p (watch w) _ h (retry_all-watch p c r w)
  api_handler-InStep c Routes.retry_block r w h =
      same-InStep p (watch w) _ h (retry_block-watch p c r w)
  api_handler-InStep c Routes.retry_range r w h =
      same-InStep p (watch w) _ h (retry_range-watch p c r w)

  action_handler-InStep :
      (c : Call) (route : ActionRoute) (r : Request) (w : World F)
      → InStep p w
      → InStep p (action_handler p c route r w).0
  unfolding action_handler
  action_handler-InStep c Routes.add_address r w h = (address_forms-kept p n c r w h).0
  action_handler-InStep c Routes.deactivate_address r w h = (address_forms-kept p n c r w h).1
  action_handler-InStep c Routes.reactivate_address r w h = (address_forms-kept p n c r w h).2
  action_handler-InStep c Routes.add_contract r w h = (contract_forms-kept p n c r w h).0
  action_handler-InStep c Routes.deactivate_contract r w h = (contract_forms-kept p n c r w h).1
  action_handler-InStep c Routes.reactivate_contract r w h = (contract_forms-kept p n c r w h).2
  action_handler-InStep c Routes.webhook_settings r w h =
      same-InStep p (watch w) _ h (settings-watch p c r w)
  action_handler-InStep c Routes.retry_webhook r w h =
      same-InStep p (watch w) _ h (dashboard_retry_event-watch p c r w)
  action_handler-InStep c Routes.retry_all_webhooks r w h =
      same-InStep p (watch w) _ h (dashboard_retry_all-watch p c r w)
  action_handler-InStep c Routes.retry_block_form r w h =
      same-InStep p (watch w) _ h (dashboard_retry_block-watch p c r w)
  action_handler-InStep c Routes.retry_range_form r w h =
      same-InStep p (watch w) _ h (dashboard_retry_range-watch p c r w)

  -- A guard answers itself, or calls the handler.
  require_auth-InStep :
      (token : String) (next : Handler F) (r : Request) (w : World F)
      → InStep p w
      → InStep p (next r w).0
      → InStep p (require_auth token next r w).0
  unfolding require_auth
  require_auth-InStep token next r w h k =
      if-InStep p (str_eq token "") _ _ h (if-InStep p _ _ _ h k)

  dashboard-InStep :
      (token : String) (c : Call) (next : Handler F) (r : Request) (w : World F)
      → InStep p w
      → InStep p (next r w).0
      → InStep p
          (require_dashboard_session p.hmac_hex token
            (Routes.unix_now p c)
            (require_dashboard_csrf next)
            r
            w).0
  unfolding require_dashboard_session require_dashboard_csrf
  dashboard-InStep token c next r w h k = if-InStep p (str_eq token "") _ _ h (
      if-InStep p _ _ _ h
        (if-InStep p (str_eq (value_of r.csrf_cookie) "") _ _ h (if-InStep p _ _ _ h k)))

  serve-InStep :
      (c : Call) (token : String) (route : Route) (r : Request) (w : World F)
      → InStep p w
      → InStep p (serve p c token route r w).0
  unfolding serve handle_health handle_dashboard_login_get handle_dashboard_login_post
      handle_dashboard_logout
  serve-InStep c token health r w h = if-InStep p (not c.forward_scan_ready) _ _ h h
  serve-InStep c token login_get r w h = if-InStep p (str_eq token "") _ _ h (if-InStep p _ _ _ h h)
  serve-InStep c token login_post r w h = if-InStep p (str_eq token "") _ _ h h
  serve-InStep c token logout r w h =
      dashboard-InStep token c handle_dashboard_logout r w h (if-InStep p r.is_htmx _ _ h h)
  serve-InStep c token (api route) r w h =
      require_auth-InStep token (api_handler p c route) r w h (api_handler-InStep c route r w h)
  serve-InStep c token (action route) r w h =
      dashboard-InStep token c (action_handler p c route) r w h
        (action_handler-InStep c route r w h)

  abbrev InOrder : Process F → Type 0
  InOrder s = InStep p s.world × All (Covers s.world) s.under_way

  step-InOrder :
      (token : String) (x : Step) (s : Process F)
      → UndisturbedBy p token s x
      → InOrder s
      → InOrder (step p token x s)
  unfolding step
  step-InOrder token (served c route r) s u h = (
    serve-InStep c token route r s.world h.0,
    Covers-NoneActivated s.world (serve p c token route r s.world).0 s.under_way h.1 u,
  )
  step-InOrder token (queried ok channel) s u h = (
    h.0,
    All-with_found s.world (query p ok channel s.world) s.under_way
        (query-CoversAny p ok channel s.world h.0) h.1,
  )
  step-InOrder token (swapped i) s u h = (
    swap_found-InStep p n (nth i s.under_way) s.world (CoversAny-nth s.world i s.under_way h.1) h.0,
    swap_found-All p (nth i s.under_way) s.world _ (All-without (Covers s.world) i s.under_way h.1),
  )

  run-InOrder :
      (token : String) (steps : List Step) (s : Process F)
      → Undisturbed p token steps s
      → InOrder s
      → InOrder (run p token steps s)
  unfolding run
  run-InOrder token [] s u h = h
  run-InOrder token (x ∷ steps) s u h =
      run-InOrder token steps (step p token x s) u.1 (step-InOrder token x s u.0 h)

  loaded-InStep :
      (w : World F)
      → ((k : String) → Keyed address_of k (w.addresses k) w.address_keys)
      → ((k : String) → Keyed contract_of k (w.contracts k) w.contract_keys)
      → InStep p (loaded p contracts_changed (loaded p addresses_changed w))
  unfolding query swap
  loaded-InStep w a c =
      let addresses =
        Addresses.swapped-Synced p.bloom n _ (watch w) a
          (Addresses.listed_active w.addresses w.address_keys a) in
      let contracts =
        Contracts.swapped-Synced p.bloom _ (watch w) c
          (Contracts.listed_active w.contracts w.contract_keys c) in
      record {
        addresses = record { keyed = addresses.keyed; held = addresses.held };
        contracts = record { keyed = contracts.keyed; held = contracts.held };
      }

  start_webhooks-InStep :
      (eps : Option (List WebhookEndpoint)) (w w' : World F)
      → start_webhooks p eps w ≡ some w'
      → InStep p w
      → InStep p w'
  start_webhooks-InStep none w w' e h = absurd (cc e)
  start_webhooks-InStep (some eps) w w' e h =
      same-InStep p (watch w) (watch w') h (sym (ap (watch_in (watch w)) e))

  start-InStep :
      (ok : Channel → Bool) (w w' : World F)
      → start p ok w ≡ some w'
      → InStep p (loaded p contracts_changed (loaded p addresses_changed w))
      → InStep p w'
  unfolding start
  start-InStep ok w w' e h =
      elim (Bool-cases
        (not (ok addresses_changed) || not (ok contracts_changed) || not (ok webhook_changed))) [
          | inl b ↦ absurd (cc (rw b at e))
          | inr b ↦ start_webhooks-InStep _ _ w' (rw b at e) h
        ]

  -- Let the Bloom filter have no false negatives, and every row of the two watch tables stand under its
  -- own key. Once the start has loaded the stores of a process, whatever they held before, they stay in
  -- step with the tables over any sequence of its requests, whatever their routes and whichever
  -- statements fail, and of the queries and swaps of its reloads, which may overlap and may fail: every
  -- active address passes the filter, and every active contract is in the list. Condition: no request
  -- that is served between the query and the swap of a reload makes a row active in the table that the
  -- reload read. Each request is one step, and writes of other processes are not among the steps.
  pub run-Synced :
      (token : String) (ok : Channel → Bool) (steps : List Step) (w w' : World F)
      → ((k : String) → Keyed address_of k (w.addresses k) w.address_keys)
      → ((k : String) → Keyed contract_of k (w.contracts k) w.contract_keys)
      → start p ok w ≡ some w'
      → Undisturbed p token steps (started p w')
      → Synced p.bloom (watch (run p token steps (started p w')).world)
  run-Synced token ok steps w w' a c e u =
      (run-InOrder token steps (started p w') u
        (start-InStep ok w w' e (loaded-InStep w a c), tt)).0
