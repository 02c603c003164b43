-- ===== src/Api/Examples.antt =====
-- Witnesses for the theorems on the HTTP server (internal/api).
use tronvent.Base.{
  ◌+◌, String, ◌<>◌, Bool, true, false, none, some, List, [], ◌∷◌, any, str_eq, leb, length, ◌≡◌,
  ◌≢◌, refl, ap, arith, eq_refl, has_prefix, trim_prefix, trim_space,
}
use tronvent.Jobs.{validate_block_range, enqueue_retry_job}
use tronvent.Api.Store.{
  add, contains, tron_address, add_batch, add_strings, list_active_addresses, list_active_contracts,
  reload_addresses, reload_contracts,
}
use tronvent.Stores.{reload, index_endpoints, new_webhook_config_store}
use tronvent.Endpoints.{list_webhook_endpoints}
use tronvent.Signing.Examples.{packages}
use tronvent.UrlPolicy.{no_such_host}
use tronvent.UrlPolicy.Examples.{network}
use tronvent.Api.{Bloom, Packages, Call, Request, World}
use tronvent.Api.Session.{
  create_session_token, validate_session_token, session_max_age, require_auth,
}
use tronvent.Api.Token.{validate-create}
use tronvent.Api.Guard.{Permitted, serve-Permitted}
use tronvent.Api.Routes.{health, handle_health, api, retry_block, post_address, serve, api_handler}
use tronvent.Api.Retries.{handle_post_retry_block}
use tronvent.Api.Process.{
  Channel, addresses_changed, Step, served, queried, swapped, query, swap, start, started, step,
  run,
}
use tronvent.Api.Synced.Reloads.{Undisturbed}
use tronvent.Watched.{is_watched_address_active, add_watched_address}
use tronvent.Api.Watchlist.{handle_post_address, insert_address, store_address}
use tronvent.Api.Watch.{watch}
use tronvent.Api.Synced.{NoFalseNegatives, Synced}
use tronvent.Api.Synced.Requests.{run-Synced}

-- A filter that keeps the addresses themselves.
abbrev exact : Bloom (List String)
exact = record { new = []; add_string = λ f a. a ∷ f; test_string = λ f k. any (λ x. str_eq x k) f }

exact-NoFalseNegatives : NoFalseNegatives exact
exact-NoFalseNegatives = record {
  added = λ f a. ground (arith, eq_refl a);
  kept = λ f a k h. ground (arith, h);
}

abbrev hmac : String → String → String
hmac key message = key <> message

abbrev go : Packages (List String)
go = record {
  json = record {
    address = λ body. some body;
    contract = λ body. some (body, "");
    webhook = λ body. none;
    endpoint = λ body. none;
    endpoint_patch = λ body. none;
    block = λ body. some 7;
    range = λ body. some (7, 9);
  };
  hmac_hex = hmac;
  check_decode = λ s. some (20, 0x41);
  bloom = exact;
  crypto = packages;
  uuid = λ s. some s;
}

abbrev call : Call
call = record {
  now = 5_000_000_000;
  new_id = "j";
  read_ok = true;
  write_ok = true;
  reload_ok = true;
  network = network no_such_host;
  key_pairs = record { generated = none; public_key = λ s. "" };
  random_token = "r";
  forward_scan_ready = true;
}

abbrev request : Request
request = record {
  authorization = "Bearer secret";
  csrf_header = "";
  is_htmx = false;
  session_cookie = none;
  csrf_cookie = none;
  body = "TR7NHqjeKQxGTCi8q8ZY4pL8otSzgjLj6t";
  form = none;
  path_value = λ name. "";
  query = λ name. "";
}

abbrev empty : World (List String)
empty = record {
  addresses = λ k. none;
  address_keys = [];
  contracts = λ k. none;
  contract_keys = [];
  endpoints = [];
  events = [];
  jobs = [];
  address_store = record { filter = []; count = 0 };
  contract_store = [];
  webhook_config = new_webhook_config_store;
}

validate-create_example :
    validate_session_token hmac "secret" 90000 (create_session_token hmac "secret" 4000)
    ≡ leb 90000 (4000 + session_max_age)
validate-create_example = validate-create hmac "secret" 4000 90000 (omega arith)

one_job : length (serve go call "secret" (api retry_block) request empty).0.jobs ≡ 1
unfolding serve require_auth api_handler handle_post_retry_block enqueue_retry_job
    validate_block_range has_prefix trim_prefix
one_job = refl

changed : (serve go call "secret" (api retry_block) request empty).0 ≢ empty
changed e =
    let jobs : length (serve go call "secret" (api retry_block) request empty).0.jobs ≡ 0 =
      ap (λ w. length w.jobs) e in
    omega (arith, one_job, jobs)

serve-Permitted_example : Permitted hmac "secret" 5 request (api retry_block)
serve-Permitted_example = serve-Permitted go call "secret" (api retry_block) request empty changed

abbrev all_load : Channel → Bool
all_load channel = true

-- A reload during which the health is asked, before and after an address is added.
abbrev quiet_steps : List Step
quiet_steps =
    queried true addresses_changed
    ∷ served call health request
    ∷ swapped 0
    ∷ served call (api post_address) request
    ∷ []

quiet : Undisturbed go "secret" quiet_steps (started go empty)
unfolding step query serve handle_health list_active_addresses is_watched_address_active
quiet = (tt, (((λ k. refl), tt), (tt, (tt, tt))))

run-Synced_example : Synced exact (watch (run go "secret" quiet_steps (started go empty)).world)
unfolding start query swap list_webhook_endpoints reload index_endpoints reload_addresses
    reload_contracts add_batch add_strings list_active_addresses list_active_contracts
run-Synced_example =
    run-Synced go exact-NoFalseNegatives "secret" all_load quiet_steps empty empty (λ k. tt)
      (λ k. tt) refl quiet

-- Where an address is added between the query and the swap of a reload, the swap loses it.
abbrev after_race : World (List String)
after_race =
    (run go "secret"
      (queried true addresses_changed ∷ served call (api post_address) request ∷ swapped 0 ∷ [])
      (started go empty)).world

address_lost :
    (is_watched_address_active after_race.addresses "TR7NHqjeKQxGTCi8q8ZY4pL8otSzgjLj6t" ≡ true)
    × (contains exact after_race.address_store "TR7NHqjeKQxGTCi8q8ZY4pL8otSzgjLj6t" ≡ false)
unfolding run step query swap serve require_auth api_handler list_active_addresses
    is_watched_address_active handle_post_address insert_address store_address tron_address
    reload_addresses add_batch add_strings add contains add_watched_address has_prefix trim_prefix
    trim_space
address_lost = (refl, refl)
