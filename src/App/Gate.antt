-- ===== src/App/Gate.antt =====
-- What a request has to carry before its handler runs: app/auth/csrf.py and `Depends(require_auth)`.
use shared_todos.Common.{
  ℕ, String, ◌≡◌, ◌≢◌, refl, subst, ◌∙◌, Bool-cases, inl, inr, eq_of_==, str_append, starts_with,
  starts_with-append, Bool, true, false, Option, none, some, contains, get_or, is_ascii, ◌&&◌,
  if◌then◌else◌, string_eq, nat_eq, ◌==◌, arith,
}
use shared_todos.Http.{Error, ok, err, http, type_error, error_status}
use shared_todos.Db.{Engine, IsEngine, tally, Session, ◌>>=◌, run, run-failed, moved_to}
use shared_todos.Config.{Settings}
use shared_todos.Auth.Csrf.{
  mutating_methods, csrf_exempt_paths, call_next, token_missing, token_mismatch, dispatch,
}
use shared_todos.Auth.Csrf.Verdicts.{dispatch-checked, dispatch-non_ascii}
use shared_todos.Auth.Secrets.{Crypto, hash_token}
use shared_todos.Auth.Sessions.{is_live, require_auth}
use shared_todos.Auth.Sessions.Lifetime.{require_auth-refused}
use shared_todos.Auth.Login.{get_session_info}
use shared_todos.Auth.OAuth.{Google}
use shared_todos.App.{
  Endpoint, health, register_call, login_call, session_call, method_of, call_path, path_of,
  create_list_call, list_lists_call, list_call, Incoming, Draws,
}
use shared_todos.App.Service.{csrf_view, caller, endpoint, by_verdict, handled, respond}

-- the routes behind `require_auth`
abbrev pub needs_auth : Endpoint → Bool
needs_auth session_call = true
needs_auth (create_list_call body) = true
needs_auth list_lists_call = true
needs_auth (list_call list_id call) = true
needs_auth _ = false

-- the routes that the middleware leaves alone
abbrev pub is_exempt : Endpoint → Bool
is_exempt (register_call body) = true
is_exempt (login_call body) = true
is_exempt _ = false

abbrev lists_prefix : String
lists_prefix = "/api/v1/lists/"

-- what is under the lists is no other path
under_lists :
    (rest other : String)
    → starts_with lists_prefix other ≡ false
    → (str_append lists_prefix rest == other) ≡ false
under_lists rest other h = elim (Bool-cases (str_append lists_prefix rest == other)) [
  | inl same ↦
      let text : starts_with lists_prefix other ≡ true =
        subst (λ t. starts_with lists_prefix t ≡ true)
          (eq_of_== (str_append lists_prefix rest) other same)
          (starts_with-append lists_prefix rest) in
      ground (arith, text, h)
  | inr differ ↦ differ
]

-- The paths in `_CSRF_EXEMPT_PATHS` are those of two routes, whatever the ids in a path look like.
pub path_of-is_exempt :
    (show_id : ℕ → String) (target : Endpoint)
    → contains csrf_exempt_paths (path_of show_id target) ≡ is_exempt target
unfolding path_of string_eq nat_eq
path_of-is_exempt show_id (list_call list_id call) =
    let rest = str_append (show_id list_id) (call_path show_id call) in
    ground (
      arith,
      under_lists rest "/api/v1/auth/login" refl,
      under_lists rest "/api/v1/auth/register" refl,
    )
path_of-is_exempt show_id health = refl
path_of-is_exempt show_id _ = refl

-- no session row is live under the token of the cookie, if there is one
abbrev pub HasNoSession : ⦃e : Engine⦄ → Crypto → Incoming → Draws → Session e → Type 0
HasNoSession ⦃e⦄ c incoming d s =
    (token : String)
    → incoming.session_cookie ≡ some token
    → tally (is_live (hash_token c token) d.now) s.db.sessions ≡ 0

module _ ⦃e : Engine⦄ (c : Crypto) (g : Google) (settings : Settings) (show_id : ℕ → String)
    (incoming : Incoming) (d : Draws) (s : Session e) where
  -- what the middleware lets through, and what it stops
  pub respond-call_next :
      dispatch (csrf_view show_id incoming) ≡ ok call_next
      → respond c g settings show_id incoming d s
        ≡ run (endpoint c g settings show_id incoming d incoming.endpoint) s
  unfolding respond handled by_verdict run ◌>>=◌
  respond-call_next h = rw h

  respond-token_missing :
      dispatch (csrf_view show_id incoming) ≡ ok token_missing
      → respond c g settings show_id incoming d s
        ≡ (err (http 403 "CSRF token missing"), moved_to s s.db)
  unfolding respond handled by_verdict run ◌>>=◌
  respond-token_missing h = rw h

  respond-token_mismatch :
      dispatch (csrf_view show_id incoming) ≡ ok token_mismatch
      → respond c g settings show_id incoming d s
        ≡ (err (http 403 "CSRF token mismatch"), moved_to s s.db)
  unfolding respond handled by_verdict run ◌>>=◌
  respond-token_mismatch h = rw h

  -- A request with a mutating method that another site forges, to any endpoint but login and
  -- register: the browser sends the CSRF cookie, the header is missing or differs, and both are ASCII.
  -- The answer is a 403, and neither the database nor the limiter's store changes.
  pub respond-forged :
      (token header : String)
      → contains mutating_methods (method_of incoming.endpoint) ≡ true
      → is_exempt incoming.endpoint ≡ false
      → incoming.csrf_cookie ≡ some token
      → token ≢ ""
      → get_or "" incoming.csrf_header ≡ header
      → is_ascii token ≡ true
      → is_ascii header ≡ true
      → header ≢ token
      → respond c g settings show_id incoming d s ≡ (
        err (http 403 (if header == "" then "CSRF token missing" else "CSRF token mismatch")),
        moved_to s s.db,
      )
  unfolding csrf_view
  respond-forged token header mutating counted cookie nonempty given a b other =
      let (_, missing, mismatch) =
        dispatch-checked (csrf_view show_id incoming) token header
          (record {
            mutating = mutating;
            not_exempt = path_of-is_exempt show_id incoming.endpoint ∙ counted;
            cookie = cookie;
            nonempty = nonempty;
          })
          given a b in
      elim (Bool-cases (header == "")) [
        | inl none_ ↦ respond-token_missing (missing (eq_of_== header "" none_)) ∙ rw none_
        | inr some_ ↦
            respond-token_mismatch (mismatch (λ none_. ground (arith, none_, some_)) other)
            ∙ rw some_
      ]

  respond-raised :
      (x : Error)
      → dispatch (csrf_view show_id incoming) ≡ err x
      → respond c g settings show_id incoming d s ≡ (err x, moved_to s s.db)
  unfolding respond handled by_verdict run ◌>>=◌
  respond-raised x h = rw h

  -- A request with a mutating method, to any endpoint but login and register, from a browser with a
  -- CSRF cookie: where it has a header, and the cookie or the header is not ASCII, the comparison of
  -- the two raises, so that the answer is a server error and no 403, and neither the database nor the
  -- limiter's store changes.
  pub respond-non_ascii :
      (token header : String)
      → contains mutating_methods (method_of incoming.endpoint) ≡ true
      → is_exempt incoming.endpoint ≡ false
      → incoming.csrf_cookie ≡ some token
      → token ≢ ""
      → get_or "" incoming.csrf_header ≡ header
      → header ≢ ""
      → (is_ascii token && is_ascii header) ≡ false
      → (respond c g settings show_id incoming d s ≡ (err type_error, moved_to s s.db))
        × (error_status type_error ≡ 500)
  unfolding csrf_view
  respond-non_ascii token header mutating counted cookie nonempty given there wide = (
    respond-raised type_error (
        dispatch-non_ascii (csrf_view show_id incoming) token header
          (record {
            mutating = mutating;
            not_exempt = path_of-is_exempt show_id incoming.endpoint ∙ counted;
            cookie = cookie;
            nonempty = nonempty;
          })
          given there wide),
    refl,
  )

module _ ⦃e : Engine⦄ (laws : IsEngine e) (c : Crypto) (g : Google) (settings : Settings)
    (show_id : ℕ → String) (incoming : Incoming) (d : Draws) (s : Session e) where
  unknown :
      (cookie : Option String)
      → ((token : String)
          → cookie ≡ some token
          → tally (is_live (hash_token c token) d.now) s.db.sessions ≡ 0)
      → run (require_auth c cookie d.now) s ≡ (err (http 401 "Not authenticated"), moved_to s s.db)
  unfolding require_auth run ◌>>=◌
  unknown none h = ground arith
  unknown (some token) h = require_auth-refused laws c token d.now s (h token refl)

  pub endpoint-unknown :
      (target : Endpoint)
      → needs_auth target ≡ true
      → run (require_auth c incoming.session_cookie d.now) s
        ≡ (err (http 401 "Not authenticated"), moved_to s s.db)
      → run (endpoint c g settings show_id incoming d target) s
        ≡ (err (http 401 "Not authenticated"), moved_to s s.db)
  unfolding endpoint caller get_session_info
  endpoint-unknown session_call h k = run-failed _ _ s (run-failed _ _ s k)
  endpoint-unknown (create_list_call body) h k = run-failed _ _ s k
  endpoint-unknown list_lists_call h k = run-failed _ _ s k
  endpoint-unknown (list_call list_id call) h k = run-failed _ _ s k
  endpoint-unknown _ h k = ground (arith, h)

  -- A request that the middleware lets through to the lists, or to the session's user, without a
  -- live session: the answer is a 401 and nothing changes.
  pub respond-unauthenticated :
      needs_auth incoming.endpoint ≡ true
      → dispatch (csrf_view show_id incoming) ≡ ok call_next
      → HasNoSession c incoming d s
      → respond c g settings show_id incoming d s
        ≡ (err (http 401 "Not authenticated"), moved_to s s.db)
  respond-unauthenticated h passed none_ =
      respond-call_next c g settings show_id incoming d s passed
      ∙ endpoint-unknown incoming.endpoint h (unknown incoming.session_cookie none_)
