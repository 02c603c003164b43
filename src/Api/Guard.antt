-- ===== src/Api/Guard.antt =====
-- Who may change the state through the HTTP server (requireAuth of internal/api/server.go,
-- requireDashboardSession and requireDashboardCSRF of dashboard_auth.go).
use tronvent.Base.{
  ℕ, ◌/◌, String, ◌<>◌, Bool, true, false, not, ◌≡◌, ◌≢◌, inl, inr, refl, arith, eq_iff, Bool-cases,
  str_eq, sym, ap, ◌∙◌, append-trim_prefix, has_prefix, trim_prefix, if◌then◌else◌,
}
use tronvent.Api.{Packages, Call, World, Request, Response, Handler}
use tronvent.Api.Session.{
  value_of, require_auth, require_dashboard_session, require_dashboard_csrf, has_valid_session,
  validate_session_token, handle_dashboard_login_get, handle_dashboard_login_post,
  handle_dashboard_logout,
}
use tronvent.Api.Routes.{
  Route, health, login_get, login_post, logout, api, action, handle_health, serve, api_handler,
  action_handler,
}

-- The request carries the configured token, which is not empty, as `Authorization: Bearer …`.
pub record Bearer (token : String) (r : Request) : Type 0 where
  pub configured : token ≢ ""
  pub authorization : r.authorization ≡ "Bearer " <> token

-- The request carries a session cookie that is valid at the time, and repeats its CSRF cookie in the
-- header.
pub record Dashboard (hmac : String → String → String) (token : String) (now : ℕ) (r : Request)
    : Type 0 where
  pub configured : token ≢ ""
  pub session : validate_session_token hmac token now (value_of r.session_cookie) ≡ true
  pub csrf_cookie : value_of r.csrf_cookie ≢ ""
  pub csrf_header : r.csrf_header ≡ value_of r.csrf_cookie

-- What the routes ask of a request that changes the state.
unfoldable pub Permitted : (String → String → String) → String → ℕ → Request → Route → Type 0
Permitted hmac token now r health = ⊥
Permitted hmac token now r login_get = ⊥
Permitted hmac token now r login_post = ⊥
Permitted hmac token now r logout = ⊥
Permitted hmac token now r (api route) = Bearer token r
Permitted hmac token now r (action route) = Dashboard hmac token now r

authorised-Bearer :
    (token : String) (r : Request)
    → token ≢ ""
    → has_prefix "Bearer " r.authorization ≡ true
    → trim_prefix "Bearer " r.authorization ≡ token
    → Bearer token r
authorised-Bearer token r h k e = record {
  configured = h;
  authorization = sym (append-trim_prefix "Bearer " r.authorization k) ∙ ap (λ t. "Bearer " <> t) e;
}

valid-session :
    (hmac : String → String → String) (token : String) (now : ℕ) (r : Request)
    → has_valid_session hmac token now r ≡ true
    → validate_session_token hmac token now (value_of r.session_cookie) ≡ true
unfolding has_valid_session
valid-session hmac token now r h = ground (arith, h)

module _ {F : Type 0} where
  require_auth-Bearer :
      (token : String) (next : Handler F) (r : Request) (w : World F)
      → (require_auth token next r w).0 ≢ w
      → Bearer token r
  unfolding require_auth
  require_auth-Bearer token next r w h = elim (Bool-cases (str_eq token "")) [
    | inl e ↦ absurd (h (rw e))
    | inr e ↦ elim (Bool-cases (has_prefix "Bearer " r.authorization)) [
      | inl k ↦ elim (Bool-cases (str_eq (trim_prefix "Bearer " r.authorization) token)) [
        | inl same ↦
            authorised-Bearer token r (ground (arith, e, eq_iff token "")) k
              (ground (arith, same, eq_iff (trim_prefix "Bearer " r.authorization) token))
        | inr other ↦ absurd (h (rw (e, k, other)))
      ]
      | inr k ↦ absurd (h (rw (e, k)))
    ]
  ]

  -- What requireDashboardSession and requireDashboardCSRF have tested where they call the handler.
  require_dashboard_csrf-changes :
      (next : Handler F) (r : Request) (w : World F)
      → (require_dashboard_csrf next r w).0 ≢ w
      → (value_of r.csrf_cookie ≢ "") × (r.csrf_header ≡ value_of r.csrf_cookie)
  unfolding require_dashboard_csrf
  require_dashboard_csrf-changes next r w h =
      elim (Bool-cases (str_eq (value_of r.csrf_cookie) "")) [
        | inl e ↦ absurd (h (rw e))
        | inr e ↦ elim (Bool-cases (str_eq r.csrf_header (value_of r.csrf_cookie))) [
          | inl k ↦ (
            ground (arith, e, eq_iff (value_of r.csrf_cookie) ""),
            ground (arith, k, eq_iff r.csrf_header (value_of r.csrf_cookie)),
          )
          | inr k ↦ absurd (h (rw (e, k)))
        ]
      ]

  require_dashboard_session-changes :
      (hmac : String → String → String) (token : String) (now : ℕ) (next : Handler F) (r : Request)
      (w : World F)
      → (require_dashboard_session hmac token now next r w).0 ≢ w
      → (token ≢ "") × (has_valid_session hmac token now r ≡ true) × ((next r w).0 ≢ w)
  unfolding require_dashboard_session
  require_dashboard_session-changes hmac token now next r w h =
      elim (Bool-cases (str_eq token "")) [
        | inl e ↦ absurd (h (rw e))
        | inr e ↦ elim (Bool-cases (has_valid_session hmac token now r)) [
          | inl k ↦ (ground (arith, e, eq_iff token ""), k, λ same. h (rw (e, k) same))
          | inr k ↦ absurd (h (rw (e, k)))
        ]
      ]

  guarded-Dashboard :
      (hmac : String → String → String) (token : String) (now : ℕ) (next : Handler F) (r : Request)
      (w : World F)
      → (require_dashboard_session hmac token now (require_dashboard_csrf next) r w).0 ≢ w
      → Dashboard hmac token now r
  guarded-Dashboard hmac token now next r w h =
      let outer =
        require_dashboard_session-changes hmac token now (require_dashboard_csrf next) r w h in
      let inner = require_dashboard_csrf-changes next r w outer.2 in
      record {
        configured = outer.0;
        session = valid-session hmac token now r outer.1;
        csrf_cookie = inner.0;
        csrf_header = inner.1;
      }

  -- The handlers of the open routes and of the logout change nothing.
  if_same :
      (b : Bool) (w : World F) (x y : Response)
      → ((if◌then◌else◌ {A = World F × Response} b (w, x) (w, y)).0) ≡ w
  if_same true w x y = refl
  if_same false w x y = refl

  login_get_same :
      (hmac : String → String → String) (token : String) (now : ℕ) (r : Request) (w : World F)
      → (handle_dashboard_login_get hmac token now r w).0 ≡ w
  unfolding handle_dashboard_login_get
  login_get_same hmac token now r w = elim (Bool-cases (str_eq token "")) [
    | inl e ↦ rw e
    | inr e ↦ rw e (if_same (has_valid_session hmac token now r) w _ _)
  ]

  logout_same :
      (hmac : String → String → String) (token : String) (now : ℕ) (r : Request) (w : World F)
      → ¬ (require_dashboard_session hmac token now
          (require_dashboard_csrf handle_dashboard_logout)
          r
          w).0
        ≢ w
  unfolding require_dashboard_csrf handle_dashboard_logout
  logout_same hmac token now r w h =
      let outer =
        require_dashboard_session-changes hmac token now
          (require_dashboard_csrf handle_dashboard_logout) r w h in
      outer.2 (elim (Bool-cases (str_eq (value_of r.csrf_cookie) "")) [
        | inl e ↦ rw e
        | inr e ↦ elim (Bool-cases (str_eq r.csrf_header (value_of r.csrf_cookie))) [
          | inl k ↦ rw (e, k) (if_same r.is_htmx w _ _)
          | inr k ↦ rw (e, k)
        ]
      ])

  -- A request changes the state only where its route permits it: on a route under /api/v1 it carries the
  -- configured token, which is not empty; on a route under /dashboard/action it carries a session cookie
  -- that is valid at the time and a CSRF cookie that the header repeats; the other routes change nothing.
  pub serve-Permitted :
      (p : Packages F) (c : Call) (token : String) (route : Route) (r : Request) (w : World F)
      → (serve p c token route r w).0 ≢ w
      → Permitted p.hmac_hex token (c.now / 1_000_000_000) r route
  unfolding Permitted serve handle_health handle_dashboard_login_post
  serve-Permitted p c token health r w h = h (if_same (not c.forward_scan_ready) w _ _)
  serve-Permitted p c token login_get r w h = h (login_get_same p.hmac_hex token _ r w)
  serve-Permitted p c token login_post r w h = h (if_same (str_eq token "") w _ _)
  serve-Permitted p c token logout r w h = logout_same p.hmac_hex token _ r w h
  serve-Permitted p c token (api route) r w h =
      require_auth-Bearer token (api_handler p c route) r w h
  serve-Permitted p c token (action route) r w h =
      guarded-Dashboard p.hmac_hex token _ (action_handler p c route) r w h
