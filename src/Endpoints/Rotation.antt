-- ===== src/Endpoints/Rotation.antt =====
-- Changes of an endpoint's signing key (internal/db/webhook_endpoints.go).
use tronvent.Base.{
  ℕ, String, Bool, true, false, ◌&&◌, none, some, List, [], ◌∷◌, ◌≡◌, ◌≢◌, ◌⊎◌, inl, inr,
  Bool-cases, refl, ◌∙◌, arith, str_eq, eq_iff, eq_refl, any, if◌then◌else◌,
}
use tronvent.Outbox.{WebhookEndpoint}
use tronvent.Signing.{Crypto, normalize_signing_key}
use tronvent.UrlPolicy.{Network}
use tronvent.Endpoints.{
  signing_secrets, row_of, update_row, get_webhook_endpoint, stored, upsert_webhook_endpoint,
}

abbrev pub signs_with : String → WebhookEndpoint → Bool
signs_with key ep = any (λ k. str_eq k key) (signing_secrets ep)

row_of-update_row :
    (id k : String) (row : WebhookEndpoint) (eps : List WebhookEndpoint)
    → row.id ≡ id
    → row_of k (update_row id (λ old. row) eps)
      ≡ (if str_eq id k && any (λ ep. str_eq ep.id k) eps then some row else row_of k eps)
unfolding update_row
row_of-update_row id k row [] h = ground arith
row_of-update_row id k row (ep ∷ eps) h = ground (
  arith,
  h,
  row_of-update_row id k row eps h,
  eq_iff ep.id id,
  eq_iff id k,
  eq_iff ep.id k,
  eq_iff row.id k,
)

row_of-any :
    (id : String) (eps : List WebhookEndpoint)
    → any (λ ep. str_eq ep.id id) eps ≡ false
    → row_of id eps ≡ none
row_of-any id [] h = refl
row_of-any id (ep ∷ eps) h = ground (arith, h, row_of-any id eps)

module _ (c : Crypto) (net : Network) (new_id : String) where
  upsert-update_row :
      (now : ℕ) (ep old row : WebhookEndpoint) (eps eps' : List WebhookEndpoint)
      → ep.id ≢ ""
      → get_webhook_endpoint c eps ep.id ≡ some (some old)
      → upsert_webhook_endpoint c net new_id now ep eps ≡ stored eps' row
      → (eps' ≡ update_row ep.id (λ x. row) eps)
        × (row.id ≡ ep.id)
        × (any (λ x. str_eq x.id ep.id) eps ≡ true)
  unfolding upsert_webhook_endpoint get_webhook_endpoint
  upsert-update_row now ep old row eps eps' a g h =
      ground (arith, eq_iff ep.id "", g, h, row_of-any ep.id eps)

  upsert-signs_with :
      (now : ℕ) (ep old row : WebhookEndpoint) (eps eps' : List WebhookEndpoint) (key : String)
      → ep.id ≢ ""
      → key ≢ ""
      → get_webhook_endpoint c eps ep.id ≡ some (some old)
      → normalize_signing_key c ep.signing_secret ≡ some key
      → upsert_webhook_endpoint c net new_id now ep eps ≡ stored eps' row
      → (row.signing_secret ≡ key)
        × (signs_with key row ≡ true)
        × (old.signing_secret ≢ "" → signs_with old.signing_secret row ≡ true)
  unfolding upsert_webhook_endpoint signing_secrets
  upsert-signs_with now ep old row eps eps' key a b g n h = ground (
    arith,
    eq_iff ep.id "",
    eq_iff key "",
    eq_iff old.signing_secret "",
    eq_iff old.signing_secret key,
    eq_refl key,
    eq_refl old.signing_secret,
    g,
    n,
    h,
  )

  -- A rotation loses no signature. Where an update of an existing endpoint is stored, the row holds
  -- the normalized new key, the endpoint signs with it, and it signs with the key that it had
  -- before as well, if it had one; the table has this row under the id, and every other id's row
  -- as it was.
  pub upsert_webhook_endpoint-signs_with :
      (now : ℕ) (ep old row : WebhookEndpoint) (eps eps' : List WebhookEndpoint) (key k : String)
      → ep.id ≢ ""
      → key ≢ ""
      → get_webhook_endpoint c eps ep.id ≡ some (some old)
      → normalize_signing_key c ep.signing_secret ≡ some key
      → upsert_webhook_endpoint c net new_id now ep eps ≡ stored eps' row
      → k ≢ ep.id
      → (row.signing_secret ≡ key)
        × (signs_with key row ≡ true)
        × ((old.signing_secret ≡ "") ⊎ (signs_with old.signing_secret row ≡ true))
        × (row_of ep.id eps' ≡ some row)
        × (row_of k eps' ≡ row_of k eps)
  upsert_webhook_endpoint-signs_with now ep old row eps eps' key k a b g n h d =
      let (e, same, there) = upsert-update_row now ep old row eps eps' a g h in
      let (holds, new_signs, old_signs) = upsert-signs_with now ep old row eps eps' key a b g n h in
      (
        holds,
        new_signs,
        elim (Bool-cases (str_eq old.signing_secret "")) [
          | inl o ↦ inl ((eq_iff old.signing_secret "").0 o)
          | inr o ↦
              inr (old_signs (λ q. absurd (ground (arith, o, (eq_iff old.signing_secret "").1 q))))
        ],
        rw e (row_of-update_row ep.id ep.id row eps same ∙ ground (arith, eq_refl ep.id, there)),
        rw e (row_of-update_row ep.id k row eps same ∙ ground (arith, eq_iff ep.id k, d)),
      )
