-- ===== src/App/Browser.antt =====
-- A browser with the front end: it sends the cookies that it keeps, and the CSRF cookie's token in the
-- header.
use shared_todos.Common.{
  ℕ, ◌+◌, ◌*◌, String, ◌≡◌, refl, ◌∙◌, Bool, true, false, some, inl, inr, [], ◌∷◌, is_ascii,
  if◌then◌else◌, string_eq, ltb, arith,
}
use shared_todos.Http.{ok, err, http}
use shared_todos.Db.{
  Engine, IsEngine, tally, User, is_user, has_email, clashes_session, Session, ◌>>=◌, pure, run,
  run-answered, run-failed, moved_to,
}
use shared_todos.Config.{Settings}
use shared_todos.Auth.RateLimiter
use shared_todos.Auth.RateLimiter.{check_login_rate_limit}
use shared_todos.Auth.Csrf.{call_next, compare_digest, dispatch}
use shared_todos.Auth.Csrf.Verdicts.{dispatch-unchecked}
use shared_todos.Auth.Cookies.{
  Jar, session_cookie_name, csrf_cookie_name, nonce_cookie_name, set_auth_cookies, keep_cookies,
}
use shared_todos.Auth.Secrets.{Crypto, verify_password}
use shared_todos.Auth.Sessions.{require_auth}
use shared_todos.Auth.Sessions.Lifetime.{opened-lifetime}
use shared_todos.Auth.Login.{LoginRequest, LoginDraw, user_out, login, get_session_info}
use shared_todos.Auth.Login.Outcomes
use shared_todos.Auth.Login.Outcomes.{login-let_in}
use shared_todos.Auth.OAuth.{Google}
use shared_todos.App.{
  Endpoint, login_call, session_call, Incoming, Draws, logged_in, session_out, cookies_of,
}
use shared_todos.App.Service.{csrf_view, login_draw, endpoint, respond}
use shared_todos.App.Gate.{is_exempt, path_of-is_exempt, respond-call_next}

abbrev pub visit : Jar → RateLimiter.Request → Endpoint → Incoming
visit jar client target = record {
  endpoint = target;
  session_cookie = jar session_cookie_name;
  csrf_cookie = jar csrf_cookie_name;
  csrf_header = jar csrf_cookie_name;
  nonce_cookie = jar nonce_cookie_name;
  client = client;
}

-- the jar after a login or a registration
kept-set_auth_cookies :
    (settings : Settings) (session_token csrf_token : String) (jar : Jar)
    → let kept = keep_cookies (set_auth_cookies settings session_token csrf_token) jar in
      (kept session_cookie_name ≡ some session_token) × (kept csrf_cookie_name ≡ some csrf_token)
unfolding keep_cookies set_auth_cookies string_eq
kept-set_auth_cookies settings session_token csrf_token jar = (refl, refl)

-- A browser whose CSRF cookie is ASCII passes the middleware, wherever it goes.
pub dispatch-visit :
    (show_id : ℕ → String) (jar : Jar) (client : RateLimiter.Request) (target : Endpoint)
    (token : String)
    → jar csrf_cookie_name ≡ some token
    → is_ascii token ≡ true
    → dispatch (csrf_view show_id (visit jar client target)) ≡ ok call_next
unfolding dispatch compare_digest csrf_view
dispatch-visit show_id jar client target token kept ascii = ground (arith, kept, ascii)

module _ ⦃e : Engine⦄ (laws : IsEngine e) (c : Crypto) (g : Google) (settings : Settings)
    (show_id : ℕ → String) where
  shown :
      (incoming : Incoming) (d : Draws) (s : Session e) (b : Bool) (user : User)
      → run (require_auth c incoming.session_cookie d.now) s
        ≡ ((if b then ok user else err (http 401 "Not authenticated")), s)
      → run (endpoint c g settings show_id incoming d session_call) s
        ≡ ((if b then ok (session_out (user_out user)) else err (http 401 "Not authenticated")), s)
  unfolding endpoint get_session_info
  shown incoming d s true user h = run-answered session_out _ s (run-answered user_out _ s h)
  shown incoming d s false user h = run-failed _ _ s (run-failed _ _ s h)

  module _ (jar : Jar) (client : RateLimiter.Request) (body : LoginRequest) (d : Draws)
      (s : Session e) (user : User) (hashed : String) where
    abbrev signing_in : Incoming
    signing_in = visit jar client (login_call body)

    abbrev drawn : LoginDraw
    drawn = login_draw c g settings show_id signing_in d

    -- the jar once the answer of the login has come
    abbrev pub signed_in : Jar
    signed_in =
        keep_cookies
          (cookies_of settings d.csrf_token
            (logged_in (record { user = user_out user; session = d.raw_token })))
          jar

    kept :
        (signed_in session_cookie_name ≡ some d.raw_token)
        × (signed_in csrf_cookie_name ≡ some d.csrf_token)
    unfolding cookies_of
    kept = kept-set_auth_cookies settings d.raw_token d.csrf_token jar

    passes :
        (incoming : Incoming)
        → is_exempt incoming.endpoint ≡ true
        → dispatch (csrf_view show_id incoming) ≡ ok call_next
    unfolding csrf_view
    passes incoming exempt =
        dispatch-unchecked (csrf_view show_id incoming)
          (inr (inl (path_of-is_exempt show_id incoming.endpoint ∙ exempt)))

    respond-login :
        respond c g settings show_id signing_in d s
        ≡ run (login c settings body drawn >>= λ answer. pure (logged_in answer)) s
    unfolding endpoint
    respond-login = respond-call_next c g settings show_id signing_in d s (passes signing_in refl)

    module _ (open_ : check_login_rate_limit settings drawn.ip d.checked_at s.failed_logins ≡ ok tt)
        (known : e.select (has_email body.email) s.db.users ≡ user ∷ [])
        (by_id : e.select (is_user user.id) s.db.users ≡ user ∷ [])
        (has_password : user.password_hash ≡ some hashed)
        (right : verify_password c body.password hashed ≡ ok true)
        (fresh : tally
            (clashes_session (Outcomes.row laws c settings body drawn s user hashed))
            s.db.sessions
          ≡ 0)
        (ascii : is_ascii d.csrf_token ≡ true) where
      first : respond c g settings show_id signing_in d s ≡ (
        ok (logged_in (record { user = user_out user; session = d.raw_token })),
        moved_to
            (Outcomes.forgiven laws c settings body drawn s user hashed)
            (Outcomes.let_in laws c settings body drawn s user hashed),
      )
      first =
          respond-login
          ∙ run-answered logged_in _ s (
              login-let_in laws c settings body drawn s user hashed open_ known by_id has_password
                right fresh)

      -- A browser whose user has the right password, where the limiter lets the address through and
      -- what is drawn is unused, is signed in by the cookies of the answer: with them every request
      -- passes the CSRF check, and the session's route shows the user until the session expires,
      -- and answers 401 from then on.
      pub login-then_request :
          (client' : RateLimiter.Request) (target : Endpoint) (later : Draws)
          → let (answer, s') = respond c g settings show_id signing_in d s in
            (answer ≡ ok (logged_in (record { user = user_out user; session = d.raw_token })))
            × (dispatch (csrf_view show_id (visit signed_in client' target)) ≡ ok call_next)
            × (respond c g settings show_id (visit signed_in client' session_call) later s' ≡ (
              (if ltb later.now (d.now + settings.session_ttl_days * 86400)
                  then ok (session_out (user_out user))
                  else err (http 401 "Not authenticated")),
              s',
            ))
      login-then_request client' target later =
          let (session, csrf) = kept in
          rw first (
            refl,
            dispatch-visit show_id signed_in client' target d.csrf_token csrf ascii,
            respond-call_next c g settings show_id (visit signed_in client' session_call) later _
                  (dispatch-visit show_id signed_in client' session_call d.csrf_token csrf ascii)
                ∙ shown (visit signed_in client' session_call) later _
                    (ltb later.now (d.now + settings.session_ttl_days * 86400)) user
                    (rw session (
                      opened-lifetime laws c user.id settings.session_ttl_days d.raw_token
                        d.session_id d.now
                        (Outcomes.forgiven laws c settings body drawn s user hashed) user by_id
                        fresh later.now)),
          )
