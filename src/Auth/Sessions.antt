-- ===== src/Auth/Sessions.antt =====
-- app/auth/session.py and dependencies.py. Random tokens, new ids and the time of the call are
-- arguments.
pub mod Lifetime
pub mod Keeps
pub mod Single
use shared_todos.Common.{
  ℕ, ◌+◌, ◌*◌, String, Bool, true, false, not, ◌&&◌, Option, none, some, List, [], ◌∷◌, ◌++◌, ◌==◌,
  nat_eq, string_eq, is_some, ltb, if◌then◌else◌,
}
use shared_todos.Auth.Secrets.{Crypto, hash_token}
use shared_todos.Http.{Result, ok, err, http}
use shared_todos.Db.{
  Engine, User, SessionRow, Db, is_user, has_token_hash, add_session, remove_session_hash,
  remove_user_sessions, Session, Tx, ◌>>=◌, ◌>>◌, pure, raise, lift, query, write, commit,
  scalar_one_or_none,
}

abbrev pub is_live : String → ℕ → SessionRow → Bool
is_live hash now s = s.token_hash == hash && ltb now s.expires_at

abbrev pub of_user : ℕ → SessionRow → Bool
of_user user_id s = s.user_id == user_id

module _ ⦃e : Engine⦄ (c : Crypto) where
  unfoldable pub create_session : ℕ → ℕ → String → ℕ → ℕ → Tx e String
  create_session user_id ttl_days raw_token id now = do
    write (
        add_session (record {
          id = id;
          user_id = user_id;
          token_hash = hash_token c raw_token;
          expires_at = now + ttl_days * 86400;
          created_at = now;
        }))
    commit
    pure raw_token

  -- `select(User).join(Session, Session.user_id == User.id)`: a row of users for each session
  abbrev pub join_users : List SessionRow → Db e → List User
  join_users [] db = []
  join_users (s ∷ ss) db = e.select (is_user s.user_id) db.users ++ join_users ss db

  unfoldable pub get_session_user : String → ℕ → Tx e (Option User)
  get_session_user token now = do
    found ← query (λ db. join_users (e.select (is_live (hash_token c token) now) db.sessions) db)
    lift (scalar_one_or_none found)

  unfoldable pub invalidate_session : String → Tx e (Unit {0})
  invalidate_session token = do write (remove_session_hash (hash_token c token)); commit

  -- `commit=False` leaves the deletion pending
  unfoldable pub invalidate_all_user_sessions : ℕ → Bool → Tx e (Unit {0})
  invalidate_all_user_sessions user_id do_commit = do
    write (remove_user_sessions user_id)
    if do_commit then commit else pure tt

  or_401 : Option User → Tx e User
  or_401 none = raise (http 401 "Not authenticated")
  or_401 (some user) = pure user

  unfoldable pub require_auth : Option String → ℕ → Tx e User
  unfolding or_401
  require_auth none now = raise (http 401 "Not authenticated")
  require_auth (some session) now = do user ← get_session_user session now; or_401 user
