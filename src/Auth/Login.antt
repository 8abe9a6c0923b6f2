-- ===== src/Auth/Login.antt =====
-- app/auth/router.py: login, logout and the session's user. A successful answer carries the session
-- token, which the response sets as the cookie.
pub mod Outcomes
pub mod Keeps
pub mod Single
use shared_todos.Common.{
  ℕ, String, Bool, true, false, not, Option, none, some, List, [], ◌∷◌, ◌==◌, string_eq,
  if◌then◌else◌,
}
use shared_todos.Http.{Result, ok, err, http}
use shared_todos.Db.{
  Engine, User, Db, has_email, Session, Tx, ◌>>=◌, ◌>>◌, pure, raise, lift, query, check_store,
  change_store, scalar_one_or_none,
}
use shared_todos.Config.{Settings}
use shared_todos.Auth.RateLimiter.{record_failed_login, check_login_rate_limit, reset_failed_logins}
use shared_todos.Auth.Secrets.{Crypto, make_dummy_hash, verify_password}
use shared_todos.Auth.Sessions.{create_session, invalidate_session, require_auth}

pub record LoginRequest : Type 0 where
  pub email : String
  pub password : String

-- `_user_out`
pub record UserOut : Type 0 where
  pub id : ℕ
  pub email : String
  pub display_name : String

abbrev pub user_out : User → UserOut
user_out user = record { id = user.id; email = user.email; display_name = user.display_name }

-- the body, and the session cookie of `set_auth_cookies`
pub record Login : Type 0 where
  pub user : UserOut
  pub session : String

-- What a login draws: the client's address, the two readings of the clock, a token and an id.
pub record LoginDraw : Type 0 where
  pub ip : String
  pub checked_at : ℕ
  pub now : ℕ
  pub raw_token : String
  pub id : ℕ

module _ ⦃e : Engine⦄ (c : Crypto) (settings : Settings) (body : LoginRequest) (d : LoginDraw) where
  -- Both refusals record the failure.
  refuse : Tx e Login
  refuse = do
    change_store (record_failed_login settings d.ip d.now)
    raise (http 401 "Invalid credentials")

  accept : User → Tx e Login
  accept user = do
    change_store (reset_failed_logins d.ip)
    token ← create_session c user.id settings.session_ttl_days d.raw_token d.id d.now
    pure (record { user = user_out user; session = token })

  with_hash : User → Option String → Tx e Login
  with_hash user none = do lift (verify_password c body.password (make_dummy_hash c)); refuse
  with_hash user (some hashed) = do
    right ← lift (verify_password c body.password hashed)
    if not right then refuse else accept user

  attempt : Option User → Tx e Login
  attempt none = do lift (verify_password c body.password (make_dummy_hash c)); refuse
  attempt (some user) = with_hash user user.password_hash

  unfoldable pub login : Tx e Login
  unfolding attempt with_hash refuse accept
  login = do
    check_store (check_login_rate_limit settings d.ip d.checked_at)
    found ← query (λ db. e.select (has_email body.email) db.users)
    user ← lift (scalar_one_or_none found)
    attempt user

module _ ⦃e : Engine⦄ (c : Crypto) where
  -- the cookie, and whether it is deleted: it always is
  unfoldable pub logout : Option String → Tx e (Unit {0})
  logout none = pure tt
  logout (some token) = if token == "" then pure tt else invalidate_session c token

  unfoldable pub get_session_info : Option String → ℕ → Tx e UserOut
  get_session_info session now = do user ← require_auth c session now; pure (user_out user)
