-- ===== src/App/Service.antt =====
-- app/main.py: a request passes the CSRF middleware, then goes to the handler of its route, in a
-- database session of its own.
use shared_todos.Common.{ℕ, String, Bool, not, List, map}
use shared_todos.Http.{Result, ok, err, http}
use shared_todos.Db.{
  Engine, User, Db, Session, Write, apply_all, Tx, ◌>>=◌, ◌>>◌, pure, raise, lift, raise_if, run,
}
use shared_todos.Config.{Settings}
use shared_todos.Auth.RateLimiter.{client_ip}
use shared_todos.Auth.Csrf
use shared_todos.Auth.Csrf.{Verdict, call_next, token_missing, token_mismatch, dispatch}
use shared_todos.Auth.Secrets.{Crypto}
use shared_todos.Auth.Sessions.{require_auth}
use shared_todos.Auth.Login.{LoginDraw, login, logout, get_session_info}
use shared_todos.Auth.Register.{RegisterDraw, RegisterRequest_accepts, register}
use shared_todos.Auth.PasswordReset.{
  CompleteBody_accepts, password_reset_request, password_reset_validate, password_reset_complete,
}
use shared_todos.Auth.OAuth.{Google, OAuthDraw, oauth_google_initiate, oauth_google_callback}
use shared_todos.Lists.{list_out_of, ListCreate_accepts, create_list, list_lists}
use shared_todos.Routes.{Draw, request}
use shared_todos.App.{
  Endpoint, health, register_call, login_call, logout_call, session_call, reset_request_call,
  reset_validate_call, reset_complete_call, google_call, callback_call, create_list_call,
  list_lists_call, list_call, method_of, path_of, Incoming, Draws, Answer, healthy, registered,
  logged_in, logged_out, session_out, reset_requested, reset_valid, reset_completed, initiated,
  redirected, list_created, lists_out, list_answer,
}

-- What the other requests of the meantime write, if the server takes it.
abbrev pub committing : ⦃e : Engine⦄ → List Write → Db e → Db e
committing ws db = elim (apply_all ws db) [ ok db' ↦ db' | err x ↦ db ]

-- what the middleware sees
unfoldable pub csrf_view : (ℕ → String) → Incoming → Csrf.Request
csrf_view show_id incoming = record {
  method = method_of incoming.endpoint;
  path = path_of show_id incoming.endpoint;
  csrf_cookie = incoming.csrf_cookie;
  csrf_header = incoming.csrf_header;
}

module _ ⦃e : Engine⦄ (c : Crypto) (g : Google) (settings : Settings) (show_id : ℕ → String)
    (incoming : Incoming) (d : Draws) where
  abbrev pub login_draw : LoginDraw
  login_draw = record {
    ip = client_ip settings.trust_proxy incoming.client;
    checked_at = d.checked_at;
    now = d.now;
    raw_token = d.raw_token;
    id = d.session_id;
  }

  abbrev pub register_draw : RegisterDraw
  register_draw = record {
    user_id = d.id;
    session_id = d.session_id;
    salt = d.salt;
    raw_token = d.raw_token;
    now = d.now;
  }

  abbrev pub oauth_draw : OAuthDraw e
  oauth_draw = record {
    user_id = d.id;
    session_id = d.session_id;
    raw_token = d.raw_token;
    now = d.now;
    others = committing d.others;
  }

  abbrev pub list_draw : Draw e
  list_draw = record { id = d.id; now = d.now; others = committing d.others }

  -- validation of a body by its schema
  accepted : Bool → Tx e (Unit {0})
  accepted valid = raise_if (not valid) (http 422 "Unprocessable Entity")

  -- `Depends(require_auth)`
  unfoldable pub caller : Tx e User
  caller = require_auth c incoming.session_cookie d.now

  unfoldable pub endpoint : Endpoint → Tx e Answer
  unfolding accepted caller
  endpoint health = pure healthy
  endpoint (register_call body) = do
    accepted (RegisterRequest_accepts body)
    answer ← register c settings body register_draw (committing d.others)
    pure (registered answer)
  endpoint (login_call body) = do answer ← login c settings body login_draw; pure (logged_in answer)
  endpoint logout_call = do logout c incoming.session_cookie; pure logged_out
  endpoint session_call = do
    user ← get_session_info c incoming.session_cookie d.now
    pure (session_out user)
  endpoint (reset_request_call email) = do
    mail ← password_reset_request c settings email d.raw_token d.id d.now
    pure (reset_requested mail)
  endpoint (reset_validate_call token) = do
    valid ← password_reset_validate c token d.now
    pure (reset_valid valid)
  endpoint (reset_complete_call body) = do
    accepted (CompleteBody_accepts body)
    password_reset_complete c body d.salt d.now (committing d.others)
    pure reset_completed
  endpoint google_call = pure (initiated (oauth_google_initiate g settings d.nonce))
  endpoint (callback_call code state error) = do
    redirect ←
        oauth_google_callback c g settings oauth_draw (record {
          code = code;
          state = state;
          error = error;
          nonce_cookie = incoming.nonce_cookie;
        })
    pure (redirected redirect)
  endpoint (create_list_call body) = do
    user ← caller
    accepted (ListCreate_accepts body)
    lst ← create_list body user.id d.id d.now
    pure (list_created (list_out_of lst))
  endpoint list_lists_call = do
    user ← caller
    lists ← list_lists user.id
    pure (lists_out (map list_out_of lists))
  endpoint (list_call list_id call) = do
    user ← caller
    response ← request call list_id user.id list_draw
    pure (list_answer response)

  unfoldable pub by_verdict : Verdict → Tx e Answer
  by_verdict call_next = endpoint incoming.endpoint
  by_verdict token_missing = raise (http 403 "CSRF token missing")
  by_verdict token_mismatch = raise (http 403 "CSRF token mismatch")

  unfoldable pub handled : Tx e Answer
  handled = do verdict ← lift (dispatch (csrf_view show_id incoming)); by_verdict verdict

  unfoldable pub respond : Session e → Result Answer × Session e
  unfolding handled by_verdict
  respond = run handled
