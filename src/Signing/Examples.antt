-- ===== src/Signing/Examples.antt =====
-- Witnesses for the theorems on signing, with small functions for the libraries.
use tronvent.Base.{
  ℕ, ◌<>◌, String, true, some, List, [], ◌∷◌, ◌≡◌, refl, map, All, trim_space, has_prefix,
  trim_prefix, has_char,
}
use tronvent.Signing.{
  Crypto, sign_with_key, build_headers, compact_secrets, join_space, normalize_signing_key,
  validate_signing_key, validate_signing_secret, decode_signing_secret,
}
use tronvent.Signing.Accepted.{SignsSecrets, lists, build_headers-normalized}

-- Thirty bytes for every text.
abbrev pub some_bytes : List ℕ
some_bytes =
    1 ∷ 2 ∷ 3 ∷ 4 ∷ 5 ∷ 6 ∷ 7 ∷ 8 ∷ 9 ∷ 10 ∷ 11 ∷ 12 ∷ 13 ∷ 14 ∷ 15 ∷ 16 ∷ 17 ∷ 18 ∷ 19 ∷ 20 ∷ 21
    ∷ 22 ∷ 23 ∷ 24 ∷ 25 ∷ 26 ∷ 27 ∷ 28 ∷ 29 ∷ 30 ∷ []

abbrev pub packages : Crypto
packages = record {
  encode64 = λ raw. "AA";
  decode64 = λ s. some some_bytes;
  bytes_of = λ s. [];
  format_int = λ n. "1";
  sign_seed = λ raw m. m;
  sign_private = λ raw m. m;
  new_webhook = λ s. true;
  sign_webhook = λ s id ts body. some ("v1," <> s);
}

packages_sign : SignsSecrets packages
packages_sign secret id ts body t v = (refl, refl)

key_normalized : normalize_signing_key packages " whsec_new" ≡ some "whsec_new"
unfolding normalize_signing_key validate_signing_key validate_signing_secret decode_signing_secret
    trim_space has_prefix trim_prefix
key_normalized = refl

old_normalized : normalize_signing_key packages "plain" ≡ some "whsec_AA"
unfolding normalize_signing_key validate_signing_key validate_signing_secret decode_signing_secret
    trim_space has_prefix trim_prefix
old_normalized = refl

build_headers-normalized_example :
    let keys : List String = "whsec_new" ∷ "whsec_AA" ∷ [] in
    (sigs : List String) × (build_headers packages "e" 7 "{}" keys
      ≡ some (record {
        webhook_id = "e";
        webhook_timestamp = "1";
        webhook_signature = join_space sigs;
      }))
    × (map (λ k. sign_with_key packages k "e" 7 "{}") (compact_secrets keys) ≡ map some sigs)
    × All (λ k. lists (trim_space k) (compact_secrets keys) ≡ true) keys
unfolding has_char
build_headers-normalized_example =
    build_headers-normalized packages packages_sign "e" 7 "{}" "whsec_new" ("whsec_AA" ∷ [])
      ((" whsec_new", key_normalized), (("plain", old_normalized), tt)) refl
