-- ===== src/Api/EndpointInput.antt =====
-- internal/api/webhook_endpoints_api.go: what the handlers on endpoints make of a request, and the
-- answers that they share.
use Prim.Native.Char.{code}
use tronvent.Base.{
  ℕ, zero, suc, String, Bool, true, false, ◌||◌, ◌&&◌, Option, none, some, List, [], ◌∷◌, leb, ◌==◌,
  str_eq, trim_space, has_prefix, ◌≡◌, refl, if◌then◌else◌,
}
use tronvent.Payload.{validate_event_types}
use tronvent.Outbox.{WebhookEndpoint}
use tronvent.Signing.{private_key_prefix}
use tronvent.Endpoints.{
  UpsertError, invalid_endpoint, resolver_failed, invalid_previous, unreadable_key,
  endpoint_not_found, url_is_required, no_key_pair,
}
use tronvent.Endpoints.Primary.{KeyPairs}
use tronvent.Api.{
  Response, EndpointRequest, EndpointPatchRequest, EndpointView, json_response, error_text,
  bad_request, server_error,
}

abbrev is_hex : ℕ → Bool
is_hex c = (leb b'0' c && leb c b'9') || (leb b'a' c && leb c b'f') || (leb b'A' c && leb c b'F')

-- What follows `n` hexadecimal digits.
abbrev after_hex : ℕ → String → Option String
after_hex zero s = some s
after_hex (suc n) String.[] = none
after_hex (suc n) (String.◌∷◌ c s) =
    let rest = after_hex n s in if is_hex (code c) then rest else none

-- The groups after the first one, each behind a dash, up to the end of the text.
unfoldable pub groups : List ℕ → Option String → Bool
groups ns none = false
groups [] (some String.[]) = true
groups [] (some (String.◌∷◌ c s)) = false
groups (n ∷ ns) (some String.[]) = false
groups (n ∷ ns) (some (String.◌∷◌ c s)) = code c == b'-' && groups ns (after_hex n s)

-- endpointIDPattern
unfoldable pub is_endpoint_id : String → Bool
is_endpoint_id id = groups (4 ∷ 4 ∷ 4 ∷ 12 ∷ []) (after_hex 8 id)

matches_uuid : is_endpoint_id "00000000-0000-0000-0000-00000000000a" ≡ true
unfolding is_endpoint_id groups
matches_uuid = refl

matches_no_tail : is_endpoint_id "00000000-0000-0000-0000-00000000000a1" ≡ false
unfolding is_endpoint_id groups
matches_no_tail = refl

-- writeWebhookSaveError; the last argument is the message of a failure of the server's.
unfoldable pub webhook_save_error : UpsertError → String → Response
webhook_save_error invalid_endpoint msg = bad_request "invalid webhook endpoint"
webhook_save_error url_is_required msg = bad_request "invalid webhook endpoint"
webhook_save_error resolver_failed msg =
    json_response 503 (error_text "could not resolve the webhook host right now; try again")
webhook_save_error invalid_previous msg = server_error msg
webhook_save_error unreadable_key msg = server_error msg
webhook_save_error endpoint_not_found msg = server_error msg
webhook_save_error no_key_pair msg = server_error msg

-- webhookEndpointResponse
unfoldable pub webhook_endpoint_response : WebhookEndpoint → EndpointView
webhook_endpoint_response ep = record {
  id = ep.id;
  webhook_url = ep.webhook_url;
  signing_public_key = ep.signing_public_key;
  event_types = ep.event_types;
  is_active = ep.is_active;
  failure_notify_email = ep.failure_notify_email;
  updated_at = ep.updated_at;
}

-- An error of the request (400), or of the server (500).
pub data Built : Type 0 where
  built : WebhookEndpoint → Built
  not_built : Built

abbrev endpoint_with : String → EndpointRequest → String → String → WebhookEndpoint
endpoint_with id req key public = record {
  id = id;
  webhook_url = trim_space req.webhook_url;
  signing_secret = key;
  signing_secret_previous = "";
  signing_public_key = public;
  event_types = req.event_types;
  is_active = false;
  failure_notify_email = trim_space req.failure_notify_email;
  source = "";
  updated_at = 0;
}

abbrev checked : EndpointRequest → WebhookEndpoint → Built
checked req ep = if validate_event_types req.event_types then built ep else not_built

abbrev with_pair : String → EndpointRequest → Option (String × String) → Built
with_pair id req none = not_built
with_pair id req (some (private, public)) = checked req (endpoint_with id req private public)

-- PublicKeyFromPrivateKey where the text is a private key
abbrev public_of : KeyPairs → String → String
public_of k key = if has_prefix private_key_prefix key then k.public_key key else ""

-- The type of the error is left out: every one is answered with 400.
unfoldable pub build_endpoint_from_request : KeyPairs → EndpointRequest → String → Built
build_endpoint_from_request k req id =
    let key = trim_space req.signing_secret in
    if str_eq (trim_space req.webhook_url) ""
    then not_built
    else if str_eq key ""
    then with_pair id req k.generated
    else checked req (endpoint_with id req key (public_of k key))

abbrev patch_url : Option String → WebhookEndpoint → WebhookEndpoint
patch_url none ep = ep
patch_url (some url) ep = record ep { webhook_url = trim_space url }

abbrev patch_secret : KeyPairs → Option String → WebhookEndpoint → WebhookEndpoint
patch_secret k none ep = ep
patch_secret k (some s) ep =
    let key = trim_space s in
    if str_eq key "" then ep else record ep {
      signing_secret = key;
      signing_public_key =
          if has_prefix private_key_prefix key then k.public_key key else ep.signing_public_key;
    }

abbrev patch_active : Option Bool → WebhookEndpoint → WebhookEndpoint
patch_active none ep = ep
patch_active (some b) ep = record ep { is_active = b }

abbrev patch_email : Option String → WebhookEndpoint → WebhookEndpoint
patch_email none ep = ep
patch_email (some email) ep = record ep { failure_notify_email = trim_space email }

abbrev patch_types : List String → WebhookEndpoint → Built
patch_types [] ep = built ep
patch_types (t ∷ ts) ep =
    if validate_event_types (t ∷ ts) then built (record ep { event_types = t ∷ ts }) else not_built

abbrev patch_rest : EndpointPatchRequest → Built → Built
patch_rest req not_built = not_built
patch_rest req (built ep) =
    built (patch_email req.failure_notify_email (patch_active req.is_active ep))

unfoldable pub merge_endpoint_patch : KeyPairs → WebhookEndpoint → EndpointPatchRequest → Built
merge_endpoint_patch k existing req = patch_rest req (
    patch_types req.event_types
      (patch_secret k req.signing_secret (patch_url req.webhook_url existing)))
