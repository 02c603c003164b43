-- ===== src/Endpoints.antt =====
-- internal/db/webhook_endpoints.go: the table webhook_endpoints, in the order of created_at. An
-- error of the database is left to the callers; the notification of a change (pg_notify) and the
-- error texts are left out. Parameters: those of the signing keys and of the URL policy, the id
-- that the database draws for a new row, a new key pair, and the public key of a private one.
pub mod Rotation
pub mod Primary
pub mod Examples
use tronvent.Base.{
  ℕ, String, Bool, true, false, not, ◌&&◌, ◌||◌, Option, none, some, List, [], ◌∷◌, ◌++◌, map,
  str_eq, keep, any, trim_space, has_prefix, if◌then◌else◌,
}
use tronvent.Payload.{validate_event_types, default_event_types}
use tronvent.Outbox.{WebhookEndpoint}
use tronvent.Signing.{
  Crypto, prepare_signing_key_for_delivery, normalize_signing_key, private_key_prefix,
}
use tronvent.UrlPolicy.{
  Network, UrlPolicy, UrlError, url_required, invalid_url, not_absolute, not_https, localhost_url,
  host_not_found, host_lookup, no_addresses, invalid_address, private_address, metadata_address,
  validate_webhook_url,
}

-- SigningSecrets
unfoldable pub signing_secrets : WebhookEndpoint → List String
signing_secrets ep =
    let previous =
      if not (str_eq ep.signing_secret_previous "")
        && not (str_eq ep.signing_secret_previous ep.signing_secret)
      then ep.signing_secret_previous ∷ []
      else [] in
    if not (str_eq ep.signing_secret "") then ep.signing_secret ∷ previous else previous

abbrev pub row_of : String → List WebhookEndpoint → Option WebhookEndpoint
row_of id [] = none
row_of id (ep ∷ eps) = let rest = row_of id eps in if str_eq ep.id id then some ep else rest

-- UPDATE webhook_endpoints … WHERE id = $1
unfoldable pub update_row :
    String → (WebhookEndpoint → WebhookEndpoint) → List WebhookEndpoint → List WebhookEndpoint
update_row id f [] = []
update_row id f (ep ∷ eps) = (if str_eq ep.id id then f ep else ep) ∷ update_row id f eps

abbrev pub deactivated : ℕ → WebhookEndpoint → WebhookEndpoint
deactivated now ep = record ep { is_active = false; updated_at = now }

unfoldable pub deactivate_webhook_endpoint :
    ℕ → String → List WebhookEndpoint → List WebhookEndpoint
deactivate_webhook_endpoint now id eps = update_row id (deactivated now) eps

-- DeactivateWebhook
unfoldable pub deactivate_webhook : ℕ → String → List WebhookEndpoint → List WebhookEndpoint
deactivate_webhook now id eps =
    if not (str_eq id "") then deactivate_webhook_endpoint now id eps else map (deactivated now) eps

pub data UpsertError : Type 0 where
  invalid_endpoint resolver_failed invalid_previous unreadable_key endpoint_not_found : UpsertError
  url_is_required no_key_pair : UpsertError

pub data Upserted : Type 0 where
  stored : List WebhookEndpoint → WebhookEndpoint → Upserted
  refused : UpsertError → Upserted

abbrev is_some_text : Option String → Bool
is_some_text none = false
is_some_text (some s) = true

abbrev is_lookup_error : UrlError → Bool
is_lookup_error host_lookup = true
is_lookup_error url_required = false
is_lookup_error invalid_url = false
is_lookup_error not_absolute = false
is_lookup_error not_https = false
is_lookup_error localhost_url = false
is_lookup_error host_not_found = false
is_lookup_error no_addresses = false
is_lookup_error invalid_address = false
is_lookup_error private_address = false
is_lookup_error metadata_address = false

module _ (c : Crypto) where
  abbrev with_previous : WebhookEndpoint → String → Option String → Option WebhookEndpoint
  with_previous ep key none = none
  with_previous ep key (some prev) =
      some (record ep { signing_secret = key; signing_secret_previous = prev })

  abbrev with_key : WebhookEndpoint → Option String → Option WebhookEndpoint
  with_key ep none = none
  with_key ep (some key) =
      if str_eq ep.signing_secret_previous ""
      then some (record ep { signing_secret = key })
      else with_previous ep key (prepare_signing_key_for_delivery c ep.signing_secret_previous)

  -- normalizeEndpointSigning; `none` is an error.
  unfoldable pub normalize_endpoint_signing : WebhookEndpoint → Option WebhookEndpoint
  normalize_endpoint_signing ep = with_key ep (prepare_signing_key_for_delivery c ep.signing_secret)

  abbrev cons_endpoint :
      Option WebhookEndpoint → Option (List WebhookEndpoint) → Option (List WebhookEndpoint)
  cons_endpoint none eps = none
  cons_endpoint (some ep) none = none
  cons_endpoint (some ep) (some eps) = some (ep ∷ eps)

  -- ListWebhookEndpoints: one key that cannot be read fails the whole list.
  unfoldable pub list_webhook_endpoints : List WebhookEndpoint → Option (List WebhookEndpoint)
  list_webhook_endpoints [] = some []
  list_webhook_endpoints (ep ∷ eps) =
      cons_endpoint (normalize_endpoint_signing ep) (list_webhook_endpoints eps)

  abbrev loaded : Option WebhookEndpoint → Option (Option WebhookEndpoint)
  loaded none = none
  loaded (some ep) = some (some ep)

  abbrev load_row : Option WebhookEndpoint → Option (Option WebhookEndpoint)
  load_row none = some none
  load_row (some ep) = loaded (normalize_endpoint_signing ep)

  -- GetWebhookEndpoint: `none` is an error, `some none` no row.
  unfoldable pub get_webhook_endpoint :
      List WebhookEndpoint → String → Option (Option WebhookEndpoint)
  get_webhook_endpoint eps id = load_row (row_of id eps)

  module _ (net : Network) (new_id : String) where
    -- The secret that the new one replaces.
    abbrev pub replaced : String → WebhookEndpoint → String
    replaced key existing =
        if not (str_eq existing.signing_secret "") && not (str_eq existing.signing_secret key)
        then existing.signing_secret
        else existing.signing_secret_previous

    abbrev pub written : ℕ → WebhookEndpoint → String → List String → String → WebhookEndpoint
    written now ep key types previous = record ep {
      signing_secret = key;
      signing_secret_previous = previous;
      event_types = types;
      updated_at = now;
    }

    abbrev update_existing :
        ℕ
        → WebhookEndpoint
        → String
        → List String
        → List WebhookEndpoint
        → Option (Option WebhookEndpoint)
        → Upserted
    update_existing now ep key types eps none = refused unreadable_key
    update_existing now ep key types eps (some none) = refused endpoint_not_found
    update_existing now ep key types eps (some (some existing)) =
        let row = written now ep key types (replaced key existing) in
        stored (update_row ep.id (λ old. row) eps) row

    -- Past the tests of the input: the transaction.
    abbrev pub write_endpoint :
        ℕ → WebhookEndpoint → String → List String → List WebhookEndpoint → Upserted
    write_endpoint now ep key types eps =
        if str_eq ep.id ""
        then stored (eps ++ written now (record ep { id = new_id }) key types "" ∷ [])
            (written now (record ep { id = new_id }) key types "")
        else update_existing now ep key types eps (get_webhook_endpoint eps ep.id)

    abbrev types_of : List String → List String
    types_of [] = default_event_types
    types_of (t ∷ ts) = t ∷ ts

    abbrev previous_ok : WebhookEndpoint → Bool
    previous_ok ep =
        str_eq ep.signing_secret_previous ""
        || is_some_text (normalize_signing_key c ep.signing_secret_previous)

    abbrev with_signing_key : ℕ → WebhookEndpoint → List WebhookEndpoint → Option String → Upserted
    with_signing_key now ep eps none = refused invalid_endpoint
    with_signing_key now ep eps (some key) =
        if not (previous_ok ep)
        then refused invalid_previous
        else if not (validate_event_types ep.event_types)
        then refused invalid_endpoint
        else write_endpoint now ep key (types_of ep.event_types) eps

    abbrev with_url : ℕ → WebhookEndpoint → List WebhookEndpoint → Option UrlError → Upserted
    with_url now ep eps (some e) =
        if is_lookup_error e then refused resolver_failed else refused invalid_endpoint
    with_url now ep eps none =
        with_signing_key now ep eps (normalize_signing_key c ep.signing_secret)

    -- UpsertWebhookEndpoint
    unfoldable pub upsert_webhook_endpoint : ℕ → WebhookEndpoint → List WebhookEndpoint → Upserted
    upsert_webhook_endpoint now ep eps = with_url now ep eps (
        validate_webhook_url net (record { allow_http = false; allow_private_hosts = false })
          ep.webhook_url)
