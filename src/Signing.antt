-- ===== src/Signing.antt =====
-- internal/webhookspec/secret.go, asymmetric.go, signing_normalize.go and signer.go: the keys by
-- which a webhook is signed, and the headers of a delivery. An error is `none`. Parameters: base64
-- (encoding/base64), ed25519 (crypto/ed25519), the library standardwebhooks, the bytes of a text and
-- the decimal text of a number. The bytes of a key are a list of numbers.
pub mod Accepted
pub mod Examples
use tronvent.Base.{
  ℕ, ◌+◌, ◌≤◌, String, ◌<>◌, Bool, true, false, not, ◌&&◌, ◌||◌, Option, none, some, List, [], ◌∷◌,
  ltb, leb, ◌==◌, str_eq, any, length, trim_space, has_prefix, trim_prefix, has_char, if◌then◌else◌,
}

abbrev pub secret_prefix : String
secret_prefix = "whsec_"

abbrev pub private_key_prefix : String
private_key_prefix = "whsk_"

abbrev pub min_secret_bytes : ℕ
min_secret_bytes = 24

abbrev pub max_secret_bytes : ℕ
max_secret_bytes = 64

-- ed25519.SeedSize and ed25519.PrivateKeySize
abbrev pub seed_size : ℕ
seed_size = 32

abbrev pub private_key_size : ℕ
private_key_size = 64

-- The packages that the code calls.
pub record Crypto : Type 0 where
  pub encode64 : List ℕ → String
  pub decode64 : String → Option (List ℕ)
  pub bytes_of : String → List ℕ
  pub format_int : ℕ → String
  -- ed25519.Sign with the key of a seed, and with a private key
  pub sign_seed : List ℕ → List ℕ → List ℕ
  pub sign_private : List ℕ → List ℕ → List ℕ
  -- standardwebhooks.NewWebhook(secret) and its Sign
  pub new_webhook : String → Bool
  pub sign_webhook : String → String → ℕ → String → Option String

abbrev pub is_some {ℓ} : {A : Type ℓ} → Option A → Bool
is_some none = false
is_some (some a) = true

-- The length test of decodeSigningSecret.
abbrev secret_of_length : Option (List ℕ) → Option (List ℕ)
secret_of_length none = none
secret_of_length (some raw) =
    if ltb (length raw) min_secret_bytes || ltb max_secret_bytes (length raw)
    then none
    else some raw

abbrev private_of_length : Option (List ℕ) → Option (List ℕ)
private_of_length none = none
private_of_length (some raw) =
    if not (length raw == seed_size) && not (length raw == private_key_size) then none else some raw

-- map[string]struct{}: whether the secret was seen.
abbrev seen_in : String → List String → Bool
seen_in s seen = any (λ t. str_eq t s) seen

unfoldable pub compact_from : List String → List String → List String
compact_from seen [] = []
compact_from seen (s ∷ ss) =
    let skipped = compact_from seen ss in
    let taken = compact_from (trim_space s ∷ seen) ss in
    if str_eq (trim_space s) ""
    then skipped
    else if seen_in (trim_space s) seen
    then skipped
    else trim_space s ∷ taken

unfoldable pub compact_secrets : List String → List String
compact_secrets = compact_from []

-- The header values that depend on the event: id, timestamp and signatures.
pub record Headers : Type 0 where
  pub webhook_id : String
  pub webhook_timestamp : String
  pub webhook_signature : String

abbrev pub join_space : List String → String
join_space [] = ""
join_space (s ∷ []) = s
join_space (s ∷ t ∷ ss) = s <> (" " <> join_space (t ∷ ss))

module _ (c : Crypto) where
  unfoldable pub decode_signing_secret : String → Option (List ℕ)
  decode_signing_secret secret =
      if str_eq (trim_space secret) ""
      then none
      else if not (has_prefix secret_prefix (trim_space secret))
      then none
      else secret_of_length (c.decode64 (trim_prefix secret_prefix (trim_space secret)))

  -- `true` is nil.
  unfoldable pub validate_signing_secret : String → Bool
  validate_signing_secret secret = is_some (decode_signing_secret secret)

  -- The raw bytes: a seed or a private key, by their number.
  unfoldable pub decode_private_signing_key : String → Option (List ℕ)
  decode_private_signing_key key =
      if not (has_prefix private_key_prefix (trim_space key))
      then none
      else private_of_length (c.decode64 (trim_prefix private_key_prefix (trim_space key)))

  unfoldable pub validate_signing_key : String → Bool
  validate_signing_key key =
      if has_prefix secret_prefix (trim_space key)
      then validate_signing_secret (trim_space key)
      else if has_prefix private_key_prefix (trim_space key)
      then is_some (decode_private_signing_key (trim_space key))
      else false

  -- An old plaintext secret becomes the base64 of its bytes.
  abbrev legacy_secret : String → String
  legacy_secret key = secret_prefix <> c.encode64 (c.bytes_of key)

  unfoldable pub normalize_signing_key : String → Option String
  normalize_signing_key key =
      let k = trim_space key in
      if str_eq k ""
      then none
      else if validate_signing_key k
      then some k
      else if has_prefix secret_prefix k || has_prefix private_key_prefix k
      then none
      else if validate_signing_key (legacy_secret k)
      then some (legacy_secret k)
      else none

  abbrev or_as_stored : String → Option String → Option String
  or_as_stored k (some n) = some n
  or_as_stored k none =
      if has_prefix secret_prefix k || has_prefix private_key_prefix k then some k else none

  unfoldable pub prepare_signing_key_for_delivery : String → Option String
  prepare_signing_key_for_delivery key =
      if str_eq (trim_space key) ""
      then some ""
      else or_as_stored (trim_space key) (normalize_signing_key (trim_space key))

  -- fmt.Sprintf("%s.%d.%s", …)
  abbrev to_sign : String → ℕ → String → String
  to_sign id ts body = id <> ("." <> (c.format_int ts <> ("." <> body)))

  abbrev sign_raw : List ℕ → List ℕ → List ℕ
  sign_raw raw message =
      if length raw == seed_size then c.sign_seed raw message else c.sign_private raw message

  abbrev signed_asymmetric : String → ℕ → String → Option (List ℕ) → Option String
  signed_asymmetric id ts body none = none
  signed_asymmetric id ts body (some raw) =
      some ("v1a," <> c.encode64 (sign_raw raw (c.bytes_of (to_sign id ts body))))

  unfoldable pub sign_asymmetric : String → String → ℕ → String → Option String
  sign_asymmetric key id ts body = signed_asymmetric id ts body (decode_private_signing_key key)

  unfoldable pub sign_symmetric : String → String → ℕ → String → Option String
  sign_symmetric secret id ts body =
      if not (validate_signing_secret secret)
      then none
      else if not (validate_signing_secret secret)
      then none
      else if c.new_webhook secret
      then c.sign_webhook secret id ts body
      else none

  unfoldable pub sign_with_key : String → String → ℕ → String → Option String
  sign_with_key key id ts body =
      if has_prefix private_key_prefix (trim_space key)
      then sign_asymmetric (trim_space key) id ts body
      else sign_symmetric (trim_space key) id ts body

  abbrev cons_signature : Option String → Option (List String) → Option (List String)
  cons_signature none sigs = none
  cons_signature (some sig) none = none
  cons_signature (some sig) (some sigs) = some (sig ∷ sigs)

  -- The loop over the keys: the first error ends it.
  unfoldable pub sign_all : List String → String → ℕ → String → Option (List String)
  sign_all [] id ts body = some []
  sign_all (k ∷ ks) id ts body =
      cons_signature (sign_with_key k id ts body) (sign_all ks id ts body)

  abbrev with_signatures : String → ℕ → Option (List String) → Option Headers
  with_signatures id ts none = none
  with_signatures id ts (some sigs) = some (record {
    webhook_id = id;
    webhook_timestamp = c.format_int ts;
    webhook_signature = join_space sigs;
  })

  -- Content-Type is always application/json. 46 is the code of '.'.
  unfoldable pub build_headers : String → ℕ → String → List String → Option Headers
  build_headers id ts body keys =
      if has_char 46 id
      then none
      else if length (compact_secrets keys) == 0
      then none
      else with_signatures id ts (sign_all (compact_secrets keys) id ts body)
