-- ===== src/Endpoints/Primary.antt =====
-- internal/db/webhook_endpoints.go: the endpoint that the environment and the old single-webhook API
-- configure, which is the oldest one (BootstrapWebhookEndpoints,
-- UpsertPrimaryWebhookEndpointPreserveSecret).
use tronvent.Base.{
  ℕ, String, Bool, true, Option, none, some, List, [], ◌∷◌, str_eq, trim_space, has_prefix,
  if◌then◌else◌,
}
use tronvent.Outbox.{WebhookEndpoint}
use tronvent.Signing.{Crypto, private_key_prefix}
use tronvent.UrlPolicy.{Network}
use tronvent.Endpoints.{
  Upserted, refused, url_is_required, unreadable_key, no_key_pair, list_webhook_endpoints,
  upsert_webhook_endpoint,
}

-- GenerateSigningKeyPair (`none` is an error) and PublicKeyFromPrivateKey ("" where it fails).
pub record KeyPairs : Type 0 where
  pub generated : Option (String × String)
  pub public_key : String → String

abbrev types_or : List String → List String → List String
types_or [] kept = kept
types_or (t ∷ ts) kept = t ∷ ts

-- The oldest endpoint with its new settings.
abbrev pub changed_primary :
    KeyPairs → WebhookEndpoint → String → String → Bool → String → List String → WebhookEndpoint
changed_primary k ep url secret is_active source types =
    let changed = record ep {
      webhook_url = url;
      is_active = is_active;
      source = source;
      event_types = types_or types ep.event_types;
    } in
    if str_eq secret "" then changed else record changed {
      signing_secret = trim_space secret;
      signing_public_key =
          if has_prefix private_key_prefix (trim_space secret)
          then k.public_key (trim_space secret)
          else ep.signing_public_key;
    }

abbrev pub first_primary : String → String → String → Bool → String → List String → WebhookEndpoint
first_primary url secret public is_active source types = record {
  id = "";
  webhook_url = url;
  signing_secret = secret;
  signing_secret_previous = "";
  signing_public_key = public;
  event_types = types;
  is_active = is_active;
  failure_notify_email = "";
  source = source;
  updated_at = 0;
}

module _ (c : Crypto) (net : Network) (k : KeyPairs) (new_id : String) where
  abbrev with_pair :
      ℕ
      → String
      → Bool
      → String
      → List String
      → List WebhookEndpoint
      → Option (String × String)
      → Upserted
  with_pair now url is_active source types table none = refused no_key_pair
  with_pair now url is_active source types table (some (private, public)) =
      upsert_webhook_endpoint c net new_id now
        (first_primary url private public is_active source types) table

  abbrev upsert_first :
      ℕ → String → String → Bool → String → List String → List WebhookEndpoint → Upserted
  upsert_first now url secret is_active source types table =
      if str_eq secret ""
      then with_pair now url is_active source types table k.generated
      else upsert_webhook_endpoint c net new_id now
          (first_primary url secret
            (if has_prefix private_key_prefix secret then k.public_key secret else "") is_active
            source types)
          table

  abbrev pub upsert_listed :
      ℕ
      → String
      → String
      → Bool
      → String
      → List String
      → List WebhookEndpoint
      → Option (List WebhookEndpoint)
      → Upserted
  upsert_listed now url secret is_active source types table none = refused unreadable_key
  upsert_listed now url secret is_active source types table (some []) =
      upsert_first now url (trim_space secret) is_active source types table
  upsert_listed now url secret is_active source types table (some (ep ∷ eps)) =
      upsert_webhook_endpoint c net new_id now
        (changed_primary k ep url secret is_active source types) table

  unfoldable pub upsert_primary_webhook_endpoint_preserve_secret :
      ℕ → String → String → Bool → String → List String → List WebhookEndpoint → Upserted
  upsert_primary_webhook_endpoint_preserve_secret now url secret is_active source types table =
      if str_eq (trim_space url) ""
      then refused url_is_required
      else upsert_listed now (trim_space url) secret is_active source types table
          (list_webhook_endpoints c table)

  abbrev bootstrap_listed :
      ℕ → String → String → List WebhookEndpoint → Option (List WebhookEndpoint) → Option Upserted
  bootstrap_listed now url secret table none = some (refused unreadable_key)
  bootstrap_listed now url secret table (some []) =
      if str_eq url ""
      then none
      else some (upsert_primary_webhook_endpoint_preserve_secret now url secret true "env" [] table)
  bootstrap_listed now url secret table (some (ep ∷ eps)) = none

  -- `none` where there is nothing to do.
  unfoldable pub bootstrap_webhook_endpoints :
      ℕ → String → String → List WebhookEndpoint → Option Upserted
  bootstrap_webhook_endpoints now url secret table =
      bootstrap_listed now url secret table (list_webhook_endpoints c table)
