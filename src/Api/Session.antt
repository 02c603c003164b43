-- ===== src/Api/Session.antt =====
-- internal/api/dashboard_auth.go and requireAuth of internal/api/server.go: who a request is from.
use Prim.Native.Char.{Char, code}
use tronvent.Base.{
  ℕ, zero, suc, ◌+◌, ◌/◌, ◌%◌, String, ◌<>◌, Bool, true, false, not, ◌||◌, Option, none, some, List,
  [], ◌∷◌, ltb, ◌==◌, str_eq, trim_space, has_prefix, trim_prefix, ◌≡◌, refl, if◌then◌else◌,
}
use tronvent.Retry.Header.{parse_int}
use tronvent.Api.{
  Request, Response, Handler, Cookie, set_session, set_csrf, clear_session, clear_csrf,
  json_response, http_error, redirect_to, htmx_redirect, page, error_text,
}

-- One decimal digit before a text.
unfoldable pub digit : ℕ → String → String
digit n rest =
    if n == 0
    then String.◌∷◌ "0" rest
    else if n == 1
    then String.◌∷◌ "1" rest
    else if n == 2
    then String.◌∷◌ "2" rest
    else if n == 3
    then String.◌∷◌ "3" rest
    else if n == 4
    then String.◌∷◌ "4" rest
    else if n == 5
    then String.◌∷◌ "5" rest
    else if n == 6
    then String.◌∷◌ "6" rest
    else if n == 7
    then String.◌∷◌ "7" rest
    else if n == 8
    then String.◌∷◌ "8" rest
    else String.◌∷◌ "9" rest

-- The digits of a number that has at most `fuel` of them, before a text.
unfoldable pub format_before : ℕ → ℕ → String → String
unfolding digit
format_before zero n rest = rest
format_before (suc fuel) n rest =
    let all = format_before fuel (n / 10) (digit (n % 10) rest) in
    if ltb n 10 then digit n rest else all

-- strconv.FormatInt(n, 10): an int64 has at most 19 digits.
unfoldable pub format_int : ℕ → String
format_int n = format_before 19 n ""

formats : format_int 1900 ≡ "1900"
unfolding format_int format_before
formats = refl

-- strings.SplitN(token, ".", 2): what stands before and after the first point; `none` where it
-- has one part only.
unfoldable pub split_point : String → Option (String × String)
split_point String.[] = none
split_point (String.◌∷◌ c s) = point_or (code c == b'.') c s (split_point s)
  where
    before : Char → Option (String × String) → Option (String × String)
    before c none = none
    before c (some (p, rest)) = some (String.◌∷◌ c p, rest)

    point_or : Bool → Char → String → Option (String × String) → Option (String × String)
    point_or true c s rest = some (String.[], s)
    point_or false c s rest = before c rest

-- 24 hours, in seconds
abbrev pub session_max_age : ℕ
session_max_age = 86400

abbrev valid_until : ℕ → Option ℕ → Bool
valid_until now none = false
valid_until now (some exp) = not (ltb exp now)

-- Whether there is a cookie that is not empty.
abbrev pub value_of : Option String → String
value_of none = ""
value_of (some v) = v

module _ {F : Type 0} where
  unfoldable pub require_auth : String → Handler F → Handler F
  require_auth admin_api_token next r w =
      if str_eq admin_api_token ""
      then (w, json_response 503 (error_text "admin API not configured"))
      else if not (has_prefix "Bearer " r.authorization)
          || not (str_eq (trim_prefix "Bearer " r.authorization) admin_api_token)
      then (w, json_response 401 (error_text "unauthorized"))
      else next r w

  unfoldable pub require_dashboard_csrf : Handler F → Handler F
  require_dashboard_csrf next r w =
      if str_eq (value_of r.csrf_cookie) ""
      then (w, http_error 403 "missing CSRF cookie")
      else if not (str_eq r.csrf_header (value_of r.csrf_cookie))
      then (w, http_error 403 "invalid CSRF token")
      else next r w

  unfoldable pub handle_dashboard_logout : Handler F
  handle_dashboard_logout r w =
      let cleared = clear_session ∷ clear_csrf ∷ [] in
      if r.is_htmx
      then (w, htmx_redirect cleared "/dashboard/login")
      else (w, redirect_to cleared "/dashboard/login")

-- `hmac` signs with the token; `now` is time.Now().Unix().
module _ (hmac : String → String → String) (admin_api_token : String) where
  unfoldable pub sign_session_payload : String → String
  sign_session_payload payload = hmac admin_api_token payload

  unfoldable pub create_session_token : ℕ → String
  unfolding sign_session_payload
  create_session_token now =
      format_int (now + session_max_age)
      <> String.◌∷◌ "." (sign_session_payload (format_int (now + session_max_age)))

  abbrev validate_parts : ℕ → Option (String × String) → Bool
  validate_parts now none = false
  validate_parts now (some (payload, signature)) =
      if not (str_eq (sign_session_payload payload) signature)
      then false
      else valid_until now (parse_int payload)

  unfoldable pub validate_session_token : ℕ → String → Bool
  validate_session_token now token = validate_parts now (split_point token)

  unfoldable pub has_valid_session : ℕ → Request → Bool
  has_valid_session now r =
      if str_eq admin_api_token ""
      then false
      else if str_eq (value_of r.session_cookie) ""
      then false
      else validate_session_token now (value_of r.session_cookie)

  -- ensureCSRFCookie: a new token is set only where the request has none.
  abbrev csrf_cookies : String → Option String → List Cookie
  csrf_cookies random cookie = if str_eq (value_of cookie) "" then set_csrf random ∷ [] else []

  abbrev login_with : ℕ → String → Request → Option (String → String) → Response
  login_with now random r none = page "login"
  login_with now random r (some form) =
      if not (str_eq (trim_space (form "token")) admin_api_token)
      then page "login"
      else redirect_to (set_session (create_session_token now) ∷ csrf_cookies random r.csrf_cookie)
          "/dashboard"

  module _ {F : Type 0} where
    unfoldable pub require_dashboard_session : ℕ → Handler F → Handler F
    require_dashboard_session now next r w =
        if str_eq admin_api_token ""
        then (w, http_error 503 "dashboard not configured")
        else if not (has_valid_session now r)
        then (w, redirect_to [] "/dashboard/login")
        else next r w

    unfoldable pub handle_dashboard_login_get : ℕ → Handler F
    handle_dashboard_login_get now r w =
        if str_eq admin_api_token ""
        then (w, http_error 503 "dashboard not configured")
        else if has_valid_session now r
        then (w, redirect_to [] "/dashboard")
        else (w, page "login")

    unfoldable pub handle_dashboard_login_post : ℕ → String → Handler F
    handle_dashboard_login_post now random r w =
        if str_eq admin_api_token ""
        then (w, http_error 503 "dashboard not configured")
        else (w, login_with now random r r.form)
