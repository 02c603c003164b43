-- ===== src/Api/Token.antt =====
-- A dashboard session (internal/api/dashboard_auth.go): the token that the login sets.

use text.Mathlib.TextLemmas.{cons-append, nil-append}
use tronvent.Base.{
  ℕ, zero, suc, ◌+◌, ◌*◌, ◌/◌, ◌%◌, ◌^◌, ◌≤◌, ◌<◌, String, ◌<>◌, Bool, true, false, some, ltb, leb,
  Bool-cases, inl, inr, ◌≡◌, refl, ◌∙◌, arith, eq_refl, has_char,
}
use tronvent.Retry.Header.{parse_int, digits}
use tronvent.Api.Session.{
  digit, format_before, format_int, split_point, session_max_age, sign_session_payload,
  create_session_token, validate_session_token,
}

digits-digit :
    (acc : ℕ) (seen : Bool) (n : ℕ) (rest : String)
    → n < 10
    → digits acc seen (digit n rest) ≡ digits (10 * acc + n) true rest
unfolding digits digit
digits-digit acc seen n rest h = ground arith

format_small :
    (fuel n : ℕ) (rest : String) → n < 10 → format_before (suc fuel) n rest ≡ digit n rest
unfolding format_before
format_small fuel n rest h = ground arith

format_large :
    (fuel n : ℕ) (rest : String)
    → 10 ≤ n
    → format_before (suc fuel) n rest ≡ format_before fuel (n / 10) (digit (n % 10) rest)
unfolding format_before
format_large fuel n rest h = ground arith

digits_again : (m n : ℕ) (rest : String) → m ≡ n → digits m true rest ≡ digits n true rest
digits_again m n rest e = rw e

digits-format :
    (fuel n : ℕ) (seen : Bool) (rest : String)
    → n < 10 ^ suc fuel
    → digits 0 seen (format_before (suc fuel) n rest) ≡ digits n true rest
digits-format zero n seen rest h =
    rw (format_small 0 n rest h)
      (digits-digit 0 seen n rest h ∙ digits_again (10 * 0 + n) n rest (omega arith))
digits-format (suc fuel) n seen rest h = elim (Bool-cases (ltb n 10)) [
  | inl e ↦
      rw (format_small (suc fuel) n rest (ground arith))
        (digits-digit 0 seen n rest (ground arith) ∙ digits_again (10 * 0 + n) n rest (omega arith))
  | inr e ↦ rw (format_large (suc fuel) n rest (ground arith)) (
      digits-format fuel (n / 10) seen (digit (n % 10) rest) (omega (arith, h))
      ∙ digits-digit (n / 10) true (n % 10) rest (omega arith)
      ∙ digits_again (10 * (n / 10) + n % 10) n rest (omega arith))
]

-- What is formatted has no point, and is read back.
has_char-digit : (n : ℕ) (rest : String) → has_char b'.' (digit n rest) ≡ has_char b'.' rest
unfolding has_char digit
has_char-digit n rest = ground arith

has_char-format :
    (fuel n : ℕ) (rest : String) → has_char b'.' (format_before fuel n rest) ≡ has_char b'.' rest
unfolding format_before
has_char-format zero n rest = refl
has_char-format (suc fuel) n rest = elim (Bool-cases (ltb n 10)) [
  | inl e ↦ rw (format_small fuel n rest (ground arith)) (has_char-digit n rest)
  | inr e ↦
      rw (format_large fuel n rest (ground arith))
        (has_char-format fuel (n / 10) (digit (n % 10) rest) ∙ has_char-digit (n % 10) rest)
]

split_point-append :
    (p s : String) → has_char b'.' p ≡ false → split_point (p <> String.◌∷◌ "." s) ≡ some (p, s)
unfolding split_point has_char
split_point-append String.[] s h = rw (nil-append (String.◌∷◌ "." s)) refl
split_point-append (String.◌∷◌ c p) s h =
    rw (cons-append c p (String.◌∷◌ "." s), split_point-append p s (ground (arith, h)))
      (ground (arith, h))

-- The text starts with no sign.
parse_int-digit : (n : ℕ) (rest : String) → parse_int (digit n rest) ≡ digits 0 false (digit n rest)
unfolding digit parse_int
parse_int-digit n rest = ground arith

parse_int-format :
    (fuel n : ℕ) (rest : String)
    → n < 10 ^ suc fuel
    → parse_int (format_before (suc fuel) n rest) ≡ digits 0 false (format_before (suc fuel) n rest)
parse_int-format zero n rest h = rw (format_small 0 n rest h) (parse_int-digit n rest)
parse_int-format (suc fuel) n rest h = elim (Bool-cases (ltb n 10)) [
  | inl e ↦ rw (format_small (suc fuel) n rest (ground arith)) (parse_int-digit n rest)
  | inr e ↦
      rw (format_large (suc fuel) n rest (ground arith))
        (parse_int-format fuel (n / 10) (digit (n % 10) rest) (omega (arith, h)))
]

digits-end : (n : ℕ) → n < 2 ^ 63 → digits n true "" ≡ some n
unfolding digits
digits-end n h = ground arith

pub parse_int-format_int : (n : ℕ) → n < 2 ^ 63 → parse_int (format_int n) ≡ some n
unfolding format_int
parse_int-format_int n h =
    parse_int-format 18 n "" (omega (arith, h))
    ∙ digits-format 18 n false "" (omega (arith, h))
    ∙ digits-end n h

module _ (hmac : String → String → String) (admin_api_token : String) where
  split-session :
      (now : ℕ)
      → split_point (create_session_token hmac admin_api_token now)
        ≡ some (
          format_int (now + session_max_age),
          hmac admin_api_token (format_int (now + session_max_age)),
        )
  unfolding create_session_token sign_session_payload format_int has_char
  split-session now = split_point-append _ _ (has_char-format 19 (now + session_max_age) "")

  -- The token that a login sets at the time `now` (below 2 ^ 63 - 86400 seconds) is valid at the time
  -- `later` exactly where `later` is at most 24 hours after `now`, whatever the signature function is.
  pub validate-create :
      (now later : ℕ)
      → now + session_max_age < 2 ^ 63
      → validate_session_token hmac admin_api_token later
          (create_session_token hmac admin_api_token now)
        ≡ leb later (now + session_max_age)
  unfolding validate_session_token sign_session_payload
  validate-create now later h =
      rw
        (
          split-session now,
          eq_refl (hmac admin_api_token (format_int (now + session_max_age))),
          parse_int-format_int (now + session_max_age) h,
        )
        (ground arith)
