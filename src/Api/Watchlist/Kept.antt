-- ===== src/Api/Watchlist/Kept.antt =====
-- The handlers on the watchlists keep what the process holds in step with the tables (internal/api).
use tronvent.Base.{String, not, Option, none, some, trim_space}
use tronvent.Watched.{WatchedAddress, WatchedContract}
use tronvent.Api.{Packages, Call, World, Request}
use tronvent.Api.Store.{tron_address}
use tronvent.Api.Watchlist
use tronvent.Api.Watchlist.{
  insert_address, insert_contract, switch_off_address, switch_off_contract, store_address,
  store_contract, refresh_contracts,
}
use tronvent.Api.Synced.{NoFalseNegatives}
use tronvent.Api.Watchlist.Calls.{
  InStep, if-InStep, if_world-InStep, address_added-InStep, dashboard_address-InStep,
  contract_added-InStep, dashboard_contract-InStep, switch_off_address-InStep,
  switch_off_contract-InStep, refresh_contracts-InStep,
}

module _ {F : Type 0} (p : Packages F) (n : NoFalseNegatives p.bloom) (c : Call) where
  post_address-InStep :
      (body : Option String) (w : World F)
      → InStep p w
      → InStep p (Watchlist.post_address p c body w).0
  post_address-InStep none w h = h
  post_address-InStep (some a) w h =
      if-InStep p (not (tron_address p.check_decode (trim_space a))) _ _ h
        (address_added-InStep p n c (trim_space a) "api" w h)

  post_contract-InStep :
      (body : Option (String × String)) (w : World F)
      → InStep p w
      → InStep p (Watchlist.post_contract p c body w).0
  post_contract-InStep none w h = h
  post_contract-InStep (some (a, symbol)) w h =
      if-InStep p (not (tron_address p.check_decode (trim_space a))) _ _ h
        (contract_added-InStep p n c (trim_space a) (trim_space symbol) "api" w h)

  address_removed-InStep :
      (x : World F × Option (Option WatchedAddress))
      → InStep p x.0
      → InStep p (Watchlist.address_removed p c x).0
  address_removed-InStep (w, none) h = h
  address_removed-InStep (w, some none) h = h
  address_removed-InStep (w, some (some row)) h = h

  contract_removed-InStep :
      (x : World F × Option (Option WatchedContract))
      → InStep p x.0
      → InStep p (Watchlist.contract_removed p c x).0
  contract_removed-InStep (w, none) h = h
  contract_removed-InStep (w, some none) h = h
  contract_removed-InStep (w, some (some row)) h =
      if-InStep p c.reload_ok _ _ (refresh_contracts-InStep p n c w h)
        (refresh_contracts-InStep p n c w h)

  contract_switched_off-InStep :
      (x : World F × Option (Option WatchedContract))
      → InStep p x.0
      → InStep p (Watchlist.contract_switched_off p c x)
  contract_switched_off-InStep (w, none) h = h
  contract_switched_off-InStep (w, some none) h = h
  contract_switched_off-InStep (w, some (some row)) h = refresh_contracts-InStep p n c w h

  pub post_address-kept :
      (r : Request) (w : World F) → InStep p w → InStep p (Watchlist.handle_post_address p c r w).0
  unfolding Watchlist.handle_post_address
  post_address-kept r w h = post_address-InStep (p.json.address r.body) w h

  pub delete_address-kept :
      (r : Request) (w : World F)
      → InStep p w
      → InStep p (Watchlist.handle_delete_address p c r w).0
  unfolding Watchlist.handle_delete_address
  delete_address-kept r w h =
      let a = trim_space (r.path_value "address") in
      if-InStep p (not (tron_address p.check_decode a)) _ _ h
        (address_removed-InStep (switch_off_address c a w) (switch_off_address-InStep p n c a w h))

  pub post_contract-kept :
      (r : Request) (w : World F) → InStep p w → InStep p (Watchlist.handle_post_contract p c r w).0
  unfolding Watchlist.handle_post_contract
  post_contract-kept r w h = post_contract-InStep (p.json.contract r.body) w h

  pub delete_contract-kept :
      (r : Request) (w : World F)
      → InStep p w
      → InStep p (Watchlist.handle_delete_contract p c r w).0
  unfolding Watchlist.handle_delete_contract
  delete_contract-kept r w h =
      let a = trim_space (r.path_value "contractAddress") in
      if-InStep p (not (tron_address p.check_decode a)) _ _ h (
        contract_removed-InStep (switch_off_contract c a w)
          (switch_off_contract-InStep p n c a w h))

  add_address_form-InStep :
      (form : Option (String → String)) (w : World F)
      → InStep p w
      → InStep p (Watchlist.add_address_form p c form w)
  add_address_form-InStep none w h = h
  add_address_form-InStep (some form) w h =
      let a = trim_space (form "address") in
      if_world-InStep p (not (tron_address p.check_decode a)) _ _ h
        (dashboard_address-InStep p n c a "dashboard" w h)

  deactivate_address_form-InStep :
      (form : Option (String → String)) (w : World F)
      → InStep p w
      → InStep p (Watchlist.deactivate_address_form p c form w)
  deactivate_address_form-InStep none w h = h
  deactivate_address_form-InStep (some form) w h = switch_off_address-InStep p n c _ w h

  reactivate_address_form-InStep :
      (form : Option (String → String)) (w : World F)
      → InStep p w
      → InStep p (Watchlist.reactivate_address_form p c form w)
  reactivate_address_form-InStep none w h = h
  reactivate_address_form-InStep (some form) w h = dashboard_address-InStep p n c _ "dashboard" w h

  add_contract_form-InStep :
      (form : Option (String → String)) (w : World F)
      → InStep p w
      → InStep p (Watchlist.add_contract_form p c form w)
  add_contract_form-InStep none w h = h
  add_contract_form-InStep (some form) w h =
      let a = trim_space (form "contractAddress") in
      if_world-InStep p (not (tron_address p.check_decode a)) _ _ h
        (dashboard_contract-InStep p n c a _ "dashboard" w h)

  deactivate_contract_form-InStep :
      (form : Option (String → String)) (w : World F)
      → InStep p w
      → InStep p (Watchlist.deactivate_contract_form p c form w)
  deactivate_contract_form-InStep none w h = h
  deactivate_contract_form-InStep (some form) w h =
      let a = trim_space (form "contractAddress") in
      contract_switched_off-InStep (switch_off_contract c a w)
        (switch_off_contract-InStep p n c a w h)

  reactivate_contract_form-InStep :
      (form : Option (String → String)) (w : World F)
      → InStep p w
      → InStep p (Watchlist.reactivate_contract_form p c form w)
  reactivate_contract_form-InStep none w h = h
  reactivate_contract_form-InStep (some form) w h =
      dashboard_contract-InStep p n c _ _ "dashboard" w h

  -- The forms of the dashboard.
  pub address_forms-kept :
      (r : Request) (w : World F)
      → InStep p w
      → InStep p (Watchlist.handle_dashboard_add_address p c r w).0
        × InStep p (Watchlist.handle_dashboard_deactivate_address p c r w).0
        × InStep p (Watchlist.handle_dashboard_reactivate_address p c r w).0
  unfolding Watchlist.handle_dashboard_add_address Watchlist.handle_dashboard_deactivate_address
      Watchlist.handle_dashboard_reactivate_address
  address_forms-kept r w h = (
    add_address_form-InStep r.form w h,
    deactivate_address_form-InStep r.form w h,
    reactivate_address_form-InStep r.form w h,
  )

  pub contract_forms-kept :
      (r : Request) (w : World F)
      → InStep p w
      → InStep p (Watchlist.handle_dashboard_add_contract p c r w).0
        × InStep p (Watchlist.handle_dashboard_deactivate_contract p c r w).0
        × InStep p (Watchlist.handle_dashboard_reactivate_contract p c r w).0
  unfolding Watchlist.handle_dashboard_add_contract Watchlist.handle_dashboard_deactivate_contract
      Watchlist.handle_dashboard_reactivate_contract
  contract_forms-kept r w h = (
    add_contract_form-InStep r.form w h,
    deactivate_contract_form-InStep r.form w h,
    reactivate_contract_form-InStep r.form w h,
  )
