-- ===== src/Api.antt =====
-- internal/api: the HTTP server of the administration. This file has what the handlers share: a
-- request, a response, the state that they read and change, and what one call of a handler is given
-- (the time, the answers of the outside). The tables belong to the database; the three stores are the
-- process's. A handler is a function from the state to the new state and the response. Log lines,
-- content types and the rendering of pages are left out; a page is its template's name.
-- Parameters: the JSON decoder per kind of body, HMAC-SHA256 in hex, base58check, the Bloom filter,
-- Postgres's reading of a uuid, and those of the keys and the URL policy.
pub mod Store
pub mod Session
pub mod Token
pub mod Guard
pub mod Watch
pub mod Watchlist
pub mod EndpointInput
pub mod Webhooks
pub mod Retries
pub mod Routes
pub mod Runtime
pub mod Process
pub mod Synced
pub mod Examples
use tronvent.Base.{
  ℕ, String, Bool, true, false, Option, none, some, List, [], ◌∷◌, str_eq, keep, if◌then◌else◌,
}
use tronvent.Watched.{Addresses, Contracts, WatchedAddress, WatchedContract}
use tronvent.Outbox.{Event, WebhookEndpoint}
use tronvent.Jobs.{Job}
use tronvent.Stores.{WebhookConfigStore}
use tronvent.Signing.{Crypto}
use tronvent.UrlPolicy.{Network}
use tronvent.Endpoints.Primary.{KeyPairs}

-- github.com/bits-and-blooms/bloom: an empty filter, AddString and TestString.
pub record Bloom (F : Type 0) : Type 0 where
  pub new : F
  pub add_string : F → String → F
  pub test_string : F → String → Bool

-- internal/scanner/bloom.go: BloomFilter
pub record BloomFilter (F : Type 0) : Type 0 where
  pub filter : F
  pub count : ℕ

-- handlePutWebhook's body
pub record WebhookRequest : Type 0 where
  pub webhook_url : String
  pub signing_secret : String
  pub event_types : List String

pub record EndpointRequest : Type 0 where
  pub webhook_url : String
  pub signing_secret : String
  pub event_types : List String
  pub failure_notify_email : String

-- A field that is `none` is not in the body.
pub record EndpointPatchRequest : Type 0 where
  pub webhook_url : Option String
  pub signing_secret : Option String
  pub event_types : List String
  pub is_active : Option Bool
  pub failure_notify_email : Option String

-- encoding/json, by the handler that decodes; `none` is an error. A block number that is not
-- positive is read as 0, which every test treats in the same way.
pub record Json : Type 0 where
  pub address : String → Option String
  pub contract : String → Option (String × String)
  pub webhook : String → Option WebhookRequest
  pub endpoint : String → Option EndpointRequest
  pub endpoint_patch : String → Option EndpointPatchRequest
  pub block : String → Option ℕ
  pub range : String → Option (ℕ × ℕ)

pub record Packages (F : Type 0) : Type 0 where
  pub json : Json
  -- hex(HMAC-SHA256(key, message))
  pub hmac_hex : String → String → String
  -- base58.CheckDecode: the number of payload bytes, and the version
  pub check_decode : String → Option (ℕ × ℕ)
  pub bloom : Bloom F
  pub crypto : Crypto
  -- Postgres's cast to uuid: the text it writes for it, `none` where it refuses
  pub uuid : String → Option String

-- What one call meets: the database's time in nanoseconds, the id of a new row, whether the reading
-- and the writing statements and the reload of a store succeed, and what is drawn or looked up.
pub record Call : Type 0 where
  pub now : ℕ
  pub new_id : String
  pub read_ok : Bool
  pub write_ok : Bool
  pub reload_ok : Bool
  pub network : Network
  pub key_pairs : KeyPairs
  pub random_token : String
  -- ForwardScanReady, true where there is no poller
  pub forward_scan_ready : Bool

pub record Request : Type 0 where
  -- the headers Authorization and X-CSRF-Token, "" where they are missing
  pub authorization : String
  pub csrf_header : String
  -- whether HX-Request is set
  pub is_htmx : Bool
  -- the cookies tronvent_dashboard and tronvent_csrf
  pub session_cookie : Option String
  pub csrf_cookie : Option String
  pub body : String
  -- the form's values; `none` where ParseForm fails
  pub form : Option (String → String)
  pub path_value : String → String
  pub query : String → String

-- webhookEndpointResponse
pub record EndpointView : Type 0 where
  pub id : String
  pub webhook_url : String
  pub signing_public_key : String
  pub event_types : List String
  pub is_active : Bool
  pub failure_notify_email : String
  pub updated_at : ℕ

pub data Body : Type 0 where
  error_text status_text : String → Body
  address_row : WatchedAddress → Body
  contract_row : WatchedContract → Body
  -- the URL, whether it is active, and the time of the last change
  primary_row : String → Bool → ℕ → Body
  endpoint_row : EndpointView → Body
  endpoint_rows : List EndpointView → Body
  retry_row : Job → Body
  event_pending : String → Body
  events_pending : ℕ → Body

pub data Cookie : Type 0 where
  set_session set_csrf : String → Cookie
  clear_session clear_csrf : Cookie

pub data Response : Type 0 where
  json_response : ℕ → Body → Response
  http_error : ℕ → String → Response
  no_content : Response
  -- 302, with the cookies that it sets
  redirect_to : List Cookie → String → Response
  -- the header HX-Redirect
  htmx_redirect : List Cookie → String → Response
  page : String → Response

-- The keys of the two watch tables stand beside them, in the order of the rows.
pub record World (F : Type 0) : Type 0 where
  pub addresses : Addresses
  pub address_keys : List String
  pub contracts : Contracts
  pub contract_keys : List String
  pub endpoints : List WebhookEndpoint
  pub events : List Event
  pub jobs : List Job
  pub address_store : BloomFilter F
  pub contract_store : List String
  pub webhook_config : WebhookConfigStore

abbrev pub Handler : Type 0 → Type 0
Handler F = Request → World F → World F × Response

abbrev pub bad_request : String → Response
bad_request text = json_response 400 (error_text text)

abbrev pub server_error : String → Response
server_error text = json_response 500 (error_text text)
