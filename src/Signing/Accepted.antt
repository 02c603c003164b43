-- ===== src/Signing/Accepted.antt =====
-- A key that the endpoints' table accepts can sign (internal/webhookspec/signing_normalize.go and
-- signer.go).
use mathlib.Core.Path.{subst}
use tronvent.Base.{
  ℕ, String, Bool, true, false, ◌||◌, map, Option, some, List, [], ◌∷◌, ◌≡◌, refl, sym, ◌∙◌, inl,
  inr, Bool-cases, arith, ◌==◌, str_eq, eq_iff, eq_refl, any, length, All, All-weaken, Option-cases,
  trim_space, trim_space_twice, has_prefix, has_char,
}
use tronvent.Signing.{
  Crypto, join_space, secret_prefix, private_key_prefix, is_some, validate_signing_key,
  validate_signing_secret, normalize_signing_key, sign_with_key, sign_all, sign_symmetric,
  sign_asymmetric, compact_from, compact_secrets, build_headers, decode_private_signing_key,
}

prefixes_disjoint :
    (s : String) → has_prefix secret_prefix s ≡ true → has_prefix private_key_prefix s ≡ false
unfolding has_prefix
prefixes_disjoint String.[] h = refl
prefixes_disjoint (String.◌∷◌ a String.[]) h = ground arith
prefixes_disjoint (String.◌∷◌ a (String.◌∷◌ b String.[])) h = ground arith
prefixes_disjoint (String.◌∷◌ a (String.◌∷◌ b (String.◌∷◌ d String.[]))) h = ground arith
prefixes_disjoint (String.◌∷◌ a (String.◌∷◌ b (String.◌∷◌ d (String.◌∷◌ e s)))) h = ground arith

abbrev pub lists : String → List String → Bool
lists key keys = any (λ t. str_eq t key) keys

abbrev pub AllSigned : (String → Option String) → List String → Type 0
AllSigned sign ks = All (λ k. is_some (sign k) ≡ true) ks

module _ (c : Crypto) where
  normalize-valid :
      (key n : String) → normalize_signing_key c key ≡ some n → validate_signing_key c n ≡ true
  unfolding normalize_signing_key
  normalize-valid key n h = ground (arith, h)

  validate-trim_space :
      (key : String) → validate_signing_key c (trim_space key) ≡ validate_signing_key c key
  unfolding validate_signing_key
  validate-trim_space key = rw (trim_space_twice key)

  -- What the library standardwebhooks does with a secret without outer spaces that passed the code's own
  -- test.
  abbrev pub SignsSecrets : Type 0
  SignsSecrets =
      (secret id : String) (ts : ℕ) (body : String)
      → trim_space secret ≡ secret
      → validate_signing_secret c secret ≡ true
      → (c.new_webhook secret ≡ true) × (is_some (c.sign_webhook secret id ts body) ≡ true)

  sign_with_key-valid :
      SignsSecrets
      → (key id : String) (ts : ℕ) (body : String) → validate_signing_key c key ≡ true
      → is_some (sign_with_key c key id ts body) ≡ true
  unfolding validate_signing_key sign_with_key sign_symmetric sign_asymmetric
  sign_with_key-valid lib key id ts body v = ground (
    arith,
    prefixes_disjoint (trim_space key),
    lib (trim_space key) id ts body (trim_space_twice key),
    Option-cases (decode_private_signing_key c (trim_space key)),
  )

  sign_all-signed :
      (ks : List String) (id : String) (ts : ℕ) (body : String)
      → AllSigned (λ k. sign_with_key c k id ts body) ks
      → (sigs : List String) × (sign_all c ks id ts body ≡ some sigs)
        × (map (λ k. sign_with_key c k id ts body) ks ≡ map some sigs)
  unfolding sign_all
  sign_all-signed [] id ts body h = ([], refl, refl)
  sign_all-signed (k ∷ ks) id ts body h =
      let (sigs, e, l) = sign_all-signed ks id ts body h.1 in
      elim (Option-cases (sign_with_key c k id ts body)) [
        | inl n ↦ absurd (cc (rw n at h.0))
        | inr (sig, n) ↦ (sig ∷ sigs, rw (n, e), rw (n, l))
      ]

  -- The keys of the compacted list are trimmed keys of the list.
  compact_from-All :
      (P : String → Type 0) (keys seen : List String)
      → All (λ k. P (trim_space k)) keys
      → All P (compact_from seen keys)
  unfolding compact_from
  compact_from-All P [] seen h = tt
  compact_from-All P (k ∷ ks) seen h = elim (Bool-cases (str_eq (trim_space k) "")) [
    | inl e ↦ rw e (compact_from-All P ks seen h.1)
    | inr e ↦ rw e (elim (Bool-cases (any (λ t. str_eq t (trim_space k)) seen)) [
      | inl f ↦ rw f (compact_from-All P ks seen h.1)
      | inr f ↦ rw f (h.0, compact_from-All P ks (trim_space k ∷ seen) h.1)
    ])
  ]

  valid-signed :
      (lib : SignsSecrets) (keys : List String) (id : String) (ts : ℕ) (body : String)
      → All (λ k. validate_signing_key c k ≡ true) keys
      → All (λ k. is_some (sign_with_key c (trim_space k) id ts body) ≡ true) keys
  valid-signed lib [] id ts body h = tt
  valid-signed lib (k ∷ ks) id ts body h = (
    sign_with_key-valid lib (trim_space k) id ts body (validate-trim_space k ∙ h.0),
    valid-signed lib ks id ts body h.1,
  )

  validate-not_blank :
      (k : String) → validate_signing_key c k ≡ true → str_eq (trim_space k) "" ≡ false
  unfolding validate_signing_key has_prefix
  validate-not_blank k v = elim (Bool-cases (str_eq (trim_space k) "")) [
    | inl e ↦ absurd (cc (rw ((eq_iff (trim_space k) "").0 e) at v))
    | inr e ↦ e
  ]

  compact_some :
      (k : String) (ks : List String)
      → validate_signing_key c k ≡ true
      → (length (compact_secrets (k ∷ ks)) == 0) ≡ false
  unfolding compact_secrets compact_from
  compact_some k ks v = rw (validate-not_blank k v) (ground arith)

  compact_from-skip :
      (k : String) (ks seen : List String)
      → (str_eq (trim_space k) "" || lists (trim_space k) seen) ≡ true
      → compact_from seen (k ∷ ks) ≡ compact_from seen ks
  unfolding compact_from
  compact_from-skip k ks seen h = ground (arith, h)

  compact_from-take :
      (k : String) (ks seen : List String)
      → (str_eq (trim_space k) "" || lists (trim_space k) seen) ≡ false
      → compact_from seen (k ∷ ks) ≡ trim_space k ∷ compact_from (trim_space k ∷ seen) ks
  unfolding compact_from
  compact_from-take k ks seen h = ground (arith, h)

  -- Each key of the list, without its outer spaces, is blank, seen before, or in the compacted list.
  abbrev Listed : List String → List String → List String → Type 0
  Listed keys seen compacted =
      All
        (λ k.
          (str_eq (trim_space k) ""
            || (lists (trim_space k) seen || lists (trim_space k) compacted))
          ≡ true)
        keys

  compact_from-lists : (keys seen : List String) → Listed keys seen (compact_from seen keys)
  compact_from-lists [] seen = tt
  compact_from-lists (k ∷ ks) seen =
      elim (Bool-cases (str_eq (trim_space k) "" || lists (trim_space k) seen)) [
        | inl e ↦
            subst (Listed (k ∷ ks) seen) (sym (compact_from-skip k ks seen e))
              (ground (arith, e), compact_from-lists ks seen)
        | inr e ↦ subst (Listed (k ∷ ks) seen) (sym (compact_from-take k ks seen e)) (
          ground (arith, eq_refl (trim_space k)),
          All-weaken _ _ ks (λ x h. ground (arith, h))
              (compact_from-lists ks (trim_space k ∷ seen)),
        )
      ]

  compacted-All :
      (keys compacted : List String)
      → All (λ k. validate_signing_key c k ≡ true) keys
      → Listed keys [] compacted
      → All (λ k. lists (trim_space k) compacted ≡ true) keys
  compacted-All [] compacted v h = tt
  compacted-All (k ∷ ks) compacted v h =
      (ground (arith, h.0, validate-not_blank k v.0), compacted-All ks compacted v.1 h.1)

  -- Every key that NormalizeSigningKey accepts signs. Where the keys of an endpoint are all results
  -- of that function and there is one, an event whose id has no '.' gets its headers. Their signatures
  -- are those of the compacted keys, in order, and every key of the endpoint is one of these, so both
  -- the current and the previous key of a rotation sign. Condition: the library signs with every
  -- secret without outer spaces that passed the code's own test.
  pub build_headers-normalized :
      (lib : SignsSecrets) (id : String) (ts : ℕ) (body : String) (key : String)
      (keys : List String)
      → All (λ n. (k : String) × (normalize_signing_key c k ≡ some n)) (key ∷ keys)
      → has_char 46 id ≡ false
      → (sigs : List String) × (build_headers c id ts body (key ∷ keys)
          ≡ some (record {
            webhook_id = id;
            webhook_timestamp = c.format_int ts;
            webhook_signature = join_space sigs;
          }))
        × (map (λ k. sign_with_key c k id ts body) (compact_secrets (key ∷ keys)) ≡ map some sigs)
        × All (λ k. lists (trim_space k) (compact_secrets (key ∷ keys)) ≡ true) (key ∷ keys)
  unfolding build_headers compact_secrets
  build_headers-normalized lib id ts body key keys h d =
      let valid =
        All-weaken (λ n. (k : String) × (normalize_signing_key c k ≡ some n))
          (λ k. validate_signing_key c k ≡ true) (key ∷ keys) (λ n (k, e). normalize-valid k n e)
          h in
      let (sigs, e, l) =
        sign_all-signed (compact_secrets (key ∷ keys)) id ts body
          (compact_from-All _ (key ∷ keys) [] (valid-signed lib (key ∷ keys) id ts body valid)) in
      (
        sigs,
        rw (d, compact_some key keys valid.0, e),
        l,
        compacted-All (key ∷ keys) _ valid (compact_from-lists (key ∷ keys) []),
      )
