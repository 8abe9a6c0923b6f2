-- ===== src/Auth/Login/Outcomes.antt =====
-- What a login answers, and what it leaves.
use shared_todos.Common.{
  ℕ, ◌+◌, ◌*◌, String, ◌≡◌, refl, true, false, none, some, [], ◌∷◌, nat_eq, string_eq, ltb,
  if◌then◌else◌, arith, Bool,
}
use shared_todos.Http.{Error, ok, err, http}
use shared_todos.Db.{
  Engine, IsEngine, tally, User, SessionRow, Db, has_email, is_user, clashes_session, Session,
  ◌>>=◌, commit, run, moved_to, apply, apply_all, scalar_one_or_none,
}
use shared_todos.Db.Invariant.{not_exists-of_tally}
use shared_todos.Config.{Settings}
use shared_todos.Auth.RateLimiter.{record_failed_login, check_login_rate_limit, reset_failed_logins}
use shared_todos.Auth.Secrets.{Crypto, make_dummy_hash, verify_password, hash_token}
use shared_todos.Auth.Sessions.{create_session, require_auth}
use shared_todos.Auth.Sessions.Lifetime.{opened, opened-lifetime}
use shared_todos.Auth.Login.{LoginRequest, LoginDraw, user_out, login}

module _ ⦃e : Engine⦄ (c : Crypto) (settings : Settings) (body : LoginRequest) (d : LoginDraw)
    (s : Session e) where
  -- Nobody has the email, or its user has no password, or the password is another.
  pub data IsWrong : Type 0 where
    unknown_email : e.select (has_email body.email) s.db.users ≡ [] → IsWrong
    google_only :
        (user : User)
        → e.select (has_email body.email) s.db.users ≡ user ∷ []
        → user.password_hash ≡ none
        → IsWrong
    wrong_password :
        (user : User) (hashed : String)
        → e.select (has_email body.email) s.db.users ≡ user ∷ []
        → user.password_hash ≡ some hashed
        → verify_password c body.password hashed ≡ ok false
        → IsWrong

  abbrev pub with_failure : Session e
  with_failure = record s {
    pending = [];
    failed_logins = record_failed_login settings d.ip d.now s.failed_logins;
  }

  -- The three reasons to refuse a login that the limiter lets through (no such email, no password,
  -- another password) have one answer and one effect, the failure recorded, if argon2 can read the
  -- dummy hash.
  pub login-refused :
      (dummy : Bool)
      → verify_password c body.password (make_dummy_hash c) ≡ ok dummy
      → check_login_rate_limit settings d.ip d.checked_at s.failed_logins ≡ ok tt
      → IsWrong
      → run (login c settings body d) s ≡ (err (http 401 "Invalid credentials"), with_failure)
  unfolding login run ◌>>=◌ scalar_one_or_none
  login-refused dummy reads open_ (unknown_email h) = ground arith
  login-refused dummy reads open_ (google_only user h k) = ground arith
  login-refused dummy reads open_ (wrong_password user hashed h k w) = ground arith

  -- Once the limiter refuses an address, no password is looked at, and nothing changes.
  pub login-limited :
      (x : Error)
      → check_login_rate_limit settings d.ip d.checked_at s.failed_logins ≡ err x
      → run (login c settings body d) s ≡ (err x, moved_to s s.db)
  unfolding login run ◌>>=◌
  login-limited x h = ground arith

module _ ⦃e : Engine⦄ (laws : IsEngine e) (c : Crypto) (settings : Settings) (body : LoginRequest)
    (d : LoginDraw) (s : Session e) (user : User) (hashed : String) where
  -- the session after the failures of the address are forgotten
  abbrev pub forgiven : Session e
  forgiven = record s { failed_logins = reset_failed_logins d.ip s.failed_logins }

  abbrev pub let_in : Db e
  let_in = opened laws c user.id settings.session_ttl_days d.raw_token d.id d.now forgiven

  -- the row of the new session
  abbrev pub row : SessionRow
  row = record {
    id = d.id;
    user_id = user.id;
    token_hash = hash_token c d.raw_token;
    expires_at = d.now + settings.session_ttl_days * 86400;
    created_at = d.now;
  }

  module _ (open_ : check_login_rate_limit settings d.ip d.checked_at s.failed_logins ≡ ok tt)
      (known : e.select (has_email body.email) s.db.users ≡ user ∷ [])
      (by_id : e.select (is_user user.id) s.db.users ≡ user ∷ [])
      (has_password : user.password_hash ≡ some hashed)
      (right : verify_password c body.password hashed ≡ ok true)
      (fresh : tally (clashes_session row) s.db.sessions ≡ 0) where
    pub login-let_in :
        run (login c settings body d) s
        ≡ (ok (record { user = user_out user; session = d.raw_token }), moved_to forgiven let_in)
    unfolding login create_session run ◌>>=◌ scalar_one_or_none commit apply_all apply opened
    login-let_in = ground (
      arith,
      open_,
      known,
      by_id,
      has_password,
      right,
      not_exists-of_tally laws (clashes_session row) s.db.sessions fresh,
    )

    -- The right password for a user's email, where the limiter lets the address through and the drawn
    -- token and id are unused: the answer shows the user, the failures of the address are forgotten,
    -- and the new session's token stands for the user until it expires, and not after.
    pub login-succeeds :
        (later : ℕ)
        → let (answer, s') = run (login c settings body d) s in
          (answer ≡ ok (record { user = user_out user; session = d.raw_token }))
          × (s'.failed_logins ≡ reset_failed_logins d.ip s.failed_logins)
          × (run (require_auth c (some d.raw_token) later) s' ≡ (
            (if ltb later (d.now + settings.session_ttl_days * 86400)
                then ok user
                else err (http 401 "Not authenticated")),
            s',
          ))
    login-succeeds later = rw login-let_in (
      refl,
      refl,
      opened-lifetime laws c user.id settings.session_ttl_days d.raw_token d.id d.now forgiven user
          by_id fresh later,
    )
