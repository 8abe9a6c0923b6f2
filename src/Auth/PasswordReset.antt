-- ===== src/Auth/PasswordReset.antt =====
-- app/auth/router.py: the three steps of a password reset. The mail server is outside: a request
-- answers with what is handed to it, and its failures are dropped by the code.
pub mod SingleUse
pub mod Link
pub mod Keeps
pub mod Single
pub mod Race
use shared_todos.Common.{
  ℕ, ◌+◌, String, Bool, true, false, not, ◌&&◌, Option, none, some, List, [], ◌∷◌, ◌==◌, nat_eq,
  string_eq, ltb, leb, is_some, str_length,
}
use shared_todos.Http.{Result, ok, err, http}
use shared_todos.Db.{
  Engine, User, PasswordResetToken, Db, is_user, has_email, add_reset_token, set_used_at,
  set_password_hash, Session, Tx, ◌>>=◌, ◌>>◌, pure, raise, lift, query, write, meanwhile, commit,
  raise_if, scalar_one_or_none, scalar_one,
}
use shared_todos.Config.{Settings}
use shared_todos.Auth.Email.{Outgoing, send_password_reset_email}
use shared_todos.Auth.Secrets.{Crypto, hash_token, hash_password}
use shared_todos.Auth.Sessions.{invalidate_all_user_sessions}

-- the mail that a request sends, if any
abbrev pub Mail : Type 0
Mail = Option Outgoing

-- `_RESET_TTL_HOURS`, in seconds
abbrev pub reset_ttl : ℕ
reset_ttl = 3600

abbrev pub has_reset_hash : String → PasswordResetToken → Bool
has_reset_hash hash t = t.token_hash == hash

-- `token_hash == token_hash, expires_at > now, used_at.is_(None)`
abbrev pub is_usable : String → ℕ → PasswordResetToken → Bool
is_usable hash now t = has_reset_hash hash t && (ltb now t.expires_at && not (is_some t.used_at))

-- `PasswordResetCompleteBody`
pub record CompleteBody : Type 0 where
  pub token : String
  pub new_password : String

unfoldable pub CompleteBody_accepts : CompleteBody → Bool
CompleteBody_accepts body = leb 12 (str_length body.new_password)

module _ ⦃e : Engine⦄ (c : Crypto) where
  send_token : Settings → String → String → ℕ → ℕ → User → Option String → Tx e Mail
  send_token settings email raw_token id now user none = pure none
  send_token settings email raw_token id now user (some hashed) = do
    write (
        add_reset_token (record {
          id = id;
          user_id = user.id;
          token_hash = hash_token c raw_token;
          expires_at = now + reset_ttl;
          used_at = none;
          created_at = now;
        }))
    commit
    pure (some (send_password_reset_email settings email raw_token))

  to_user : Settings → String → String → ℕ → ℕ → Option User → Tx e Mail
  to_user settings email raw_token id now none = pure none
  to_user settings email raw_token id now (some user) =
      send_token settings email raw_token id now user user.password_hash

  -- The answer to the client is the same message on every branch.
  unfoldable pub password_reset_request : Settings → String → String → ℕ → ℕ → Tx e Mail
  unfolding to_user send_token
  password_reset_request settings email raw_token id now = do
    found ← query (λ db. e.select (has_email email) db.users)
    user ← lift (scalar_one_or_none found)
    to_user settings email raw_token id now user

  unfoldable pub password_reset_validate : String → ℕ → Tx e Bool
  password_reset_validate token now = do
    found ← query (λ db. e.select (is_usable (hash_token c token) now) db.reset_tokens)
    prt ← lift (scalar_one_or_none found)
    raise_if (not (is_some prt)) (http 400 "invalid")
    pure true

  -- `others` is what other requests commit between the two queries and the commit.
  complete_with : String → String → ℕ → (Db e → Db e) → Option PasswordResetToken → Tx e (Unit {0})
  complete_with salt new_password now others none = raise (http 400 "invalid_or_used")
  complete_with salt new_password now others (some prt) = do
    found ← query (λ db. e.select (is_user prt.user_id) db.users)
    user ← lift (scalar_one found)
    write (set_used_at prt.id now)
    write (set_password_hash user.id (hash_password c salt new_password) now)
    invalidate_all_user_sessions c user.id false
    meanwhile others
    commit

  unfoldable pub password_reset_complete :
      CompleteBody → String → ℕ → (Db e → Db e) → Tx e (Unit {0})
  unfolding complete_with
  password_reset_complete body salt now others = do
    found ← query (λ db. e.select (is_usable (hash_token c body.token) now) db.reset_tokens)
    prt ← lift (scalar_one_or_none found)
    complete_with salt body.new_password now others prt
