-- ===== src/Api/Watchlist.antt =====
-- The handlers that change the watchlists: internal/api/server.go (the additions), removals.go (the
-- deactivations) and dashboard.go (the actions of the dashboard, whose answer is a page in any case).
pub mod Calls
pub mod Kept
use tronvent.Base.{
  ℕ, String, Bool, true, false, not, ◌||◌, Option, none, some, List, [], ◌∷◌, ◌++◌, str_eq,
  trim_space, if◌then◌else◌,
}
use tronvent.Watched.{
  Addresses, Contracts, WatchedAddress, WatchedContract, Added, add_watched_address,
  deactivate_watched_address, add_watched_contract, deactivate_watched_contract,
}
use tronvent.Api.{
  Packages, Call, World, Request, Response, Handler, json_response, page, address_row, contract_row,
  error_text, bad_request, server_error,
}
use tronvent.Api.Store.{tron_address, add, add_contract, list_active_contracts, reload_contracts}

-- A new key stands at the end.
abbrev pub with_key : String → Bool → List String → List String
with_key k true keys = keys ++ k ∷ []
with_key k false keys = keys

abbrev created_status : Bool → ℕ
created_status true = 201
created_status false = 200

module _ {F : Type 0} where
  abbrev write_address : String → Addresses × Added WatchedAddress → World F → World F
  write_address k x w = record w {
    addresses = x.0;
    address_keys = with_key k x.1.created w.address_keys;
  }

  abbrev write_contract : String → Contracts × Added WatchedContract → World F → World F
  write_contract k x w = record w {
    contracts = x.0;
    contract_keys = with_key k x.1.created w.contract_keys;
  }

  -- The database's AddWatchedAddress and AddWatchedContract; the result is `none` where they fail.
  unfoldable pub insert_address :
      Call → String → String → World F → World F × Option (Added WatchedAddress)
  insert_address c k source w =
      let x = add_watched_address c.now c.new_id w.addresses k source in
      if c.write_ok then (write_address k x w, some x.1) else (w, none)

  unfoldable pub insert_contract :
      Call → String → String → String → World F → World F × Option (Added WatchedContract)
  insert_contract c k symbol source w =
      let x = add_watched_contract c.now c.new_id w.contracts k symbol source in
      if c.write_ok then (write_contract k x w, some x.1) else (w, none)

  -- DeactivateWatchedAddress: `none` is an error, `some none` is ErrWatchedAddressNotFound.
  unfoldable pub switch_off_address :
      Call → String → World F → World F × Option (Option WatchedAddress)
  switch_off_address c k w =
      let x = deactivate_watched_address c.now w.addresses k in
      if c.write_ok then (record w { addresses = x.0 }, some x.1) else (w, none)

  unfoldable pub switch_off_contract :
      Call → String → World F → World F × Option (Option WatchedContract)
  switch_off_contract c k w =
      let x = deactivate_watched_contract c.now w.contracts k in
      if c.write_ok then (record w { contracts = x.0 }, some x.1) else (w, none)

  -- s.contracts.Reload, which may fail.
  unfoldable pub refresh_contracts : Call → World F → World F
  refresh_contracts c w =
      let found = list_active_contracts w.contracts w.contract_keys in
      record w {
        contract_store =
            reload_contracts (if c.reload_ok then some found else none) w.contract_store;
      }

  module _ (p : Packages F) (c : Call) where
    -- s.addresses.Add and s.contracts.Add
    unfoldable pub store_address : String → World F → World F
    store_address k w = record w { address_store = add p.bloom w.address_store k }

    unfoldable pub store_contract : String → World F → World F
    store_contract k w = record w { contract_store = add_contract k w.contract_store }

    abbrev address_added : String → World F × Option (Added WatchedAddress) → World F × Response
    address_added k (w, none) = (w, server_error "failed to save address")
    address_added k (w, some x) =
        (store_address k w, json_response (created_status x.created) (address_row x.row))

    abbrev post_address : Option String → World F → World F × Response
    post_address none w = (w, bad_request "invalid JSON body")
    post_address (some a) w =
        if not (tron_address p.check_decode (trim_space a))
        then (w, bad_request "invalid Tron address")
        else address_added (trim_space a) (insert_address c (trim_space a) "api" w)

    unfoldable pub handle_post_address : Handler F
    handle_post_address r w = post_address (p.json.address r.body) w

    abbrev address_removed : World F × Option (Option WatchedAddress) → World F × Response
    address_removed (w, none) = (w, server_error "failed to deactivate address")
    address_removed (w, some none) = (w, json_response 404 (error_text "address not found"))
    address_removed (w, some (some row)) = (w, json_response 200 (address_row row))

    unfoldable pub handle_delete_address : Handler F
    handle_delete_address r w =
        let a = trim_space (r.path_value "address") in
        if not (tron_address p.check_decode a)
        then (w, bad_request "invalid Tron address")
        else address_removed (switch_off_address c a w)

    abbrev contract_added : String → World F × Option (Added WatchedContract) → World F × Response
    contract_added k (w, none) = (w, server_error "failed to save contract")
    contract_added k (w, some x) =
        (store_contract k w, json_response (created_status x.created) (contract_row x.row))

    abbrev post_contract : Option (String × String) → World F → World F × Response
    post_contract none w = (w, bad_request "invalid JSON body")
    post_contract (some (a, symbol)) w =
        if not (tron_address p.check_decode (trim_space a))
        then (w, bad_request "invalid Tron contract address")
        else contract_added (trim_space a)
            (insert_contract c (trim_space a) (trim_space symbol) "api" w)

    unfoldable pub handle_post_contract : Handler F
    handle_post_contract r w = post_contract (p.json.contract r.body) w

    abbrev refreshed : WatchedContract → World F → World F × Response
    refreshed row w =
        if c.reload_ok
        then (refresh_contracts c w, json_response 200 (contract_row row))
        else (refresh_contracts c w, server_error "failed to refresh contract store")

    abbrev contract_removed : World F × Option (Option WatchedContract) → World F × Response
    contract_removed (w, none) = (w, server_error "failed to deactivate contract")
    contract_removed (w, some none) = (w, json_response 404 (error_text "contract not found"))
    contract_removed (w, some (some row)) = refreshed row w

    unfoldable pub handle_delete_contract : Handler F
    handle_delete_contract r w =
        let a = trim_space (r.path_value "contractAddress") in
        if not (tron_address p.check_decode a)
        then (w, bad_request "invalid Tron contract address")
        else contract_removed (switch_off_contract c a w)

    -- The dashboard adds what the row says; any outcome shows the list again.
    abbrev addresses_page : World F → World F × Response
    addresses_page w = (w, page "watchlist_addresses")

    abbrev contracts_page : World F → World F × Response
    contracts_page w = (w, page "watchlist_contracts")

    abbrev dashboard_address_added : World F × Option (Added WatchedAddress) → World F
    dashboard_address_added (w, none) = w
    dashboard_address_added (w, some x) = store_address x.row.address w

    abbrev dashboard_contract_added : World F × Option (Added WatchedContract) → World F
    dashboard_contract_added (w, none) = w
    dashboard_contract_added (w, some x) = store_contract x.row.contract_address w

    abbrev add_address_form : Option (String → String) → World F → World F
    add_address_form none w = w
    add_address_form (some form) w =
        let a = trim_space (form "address") in
        if not (tron_address p.check_decode a)
        then w
        else dashboard_address_added (insert_address c a "dashboard" w)

    unfoldable pub handle_dashboard_add_address : Handler F
    handle_dashboard_add_address r w = addresses_page (add_address_form r.form w)

    abbrev deactivate_address_form : Option (String → String) → World F → World F
    deactivate_address_form none w = w
    deactivate_address_form (some form) w = (switch_off_address c (trim_space (form "address")) w).0

    unfoldable pub handle_dashboard_deactivate_address : Handler F
    handle_dashboard_deactivate_address r w = addresses_page (deactivate_address_form r.form w)

    -- The address is not validated.
    abbrev reactivate_address_form : Option (String → String) → World F → World F
    reactivate_address_form none w = w
    reactivate_address_form (some form) w =
        dashboard_address_added (insert_address c (trim_space (form "address")) "dashboard" w)

    unfoldable pub handle_dashboard_reactivate_address : Handler F
    handle_dashboard_reactivate_address r w = addresses_page (reactivate_address_form r.form w)

    abbrev add_contract_form : Option (String → String) → World F → World F
    add_contract_form none w = w
    add_contract_form (some form) w =
        let a = trim_space (form "contractAddress") in
        if not (tron_address p.check_decode a)
        then w
        else dashboard_contract_added
            (insert_contract c a (trim_space (form "tokenSymbol")) "dashboard" w)

    unfoldable pub handle_dashboard_add_contract : Handler F
    handle_dashboard_add_contract r w = contracts_page (add_contract_form r.form w)

    abbrev contract_switched_off : World F × Option (Option WatchedContract) → World F
    contract_switched_off (w, none) = w
    contract_switched_off (w, some none) = w
    contract_switched_off (w, some (some row)) = refresh_contracts c w

    abbrev deactivate_contract_form : Option (String → String) → World F → World F
    deactivate_contract_form none w = w
    deactivate_contract_form (some form) w =
        contract_switched_off (switch_off_contract c (trim_space (form "contractAddress")) w)

    unfoldable pub handle_dashboard_deactivate_contract : Handler F
    handle_dashboard_deactivate_contract r w = contracts_page (deactivate_contract_form r.form w)

    abbrev reactivate_contract_form : Option (String → String) → World F → World F
    reactivate_contract_form none w = w
    reactivate_contract_form (some form) w = dashboard_contract_added (
        insert_contract c (trim_space (form "contractAddress")) (trim_space (form "tokenSymbol"))
          "dashboard" w)

    unfoldable pub handle_dashboard_reactivate_contract : Handler F
    handle_dashboard_reactivate_contract r w = contracts_page (reactivate_contract_form r.form w)
