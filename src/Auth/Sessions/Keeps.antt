-- ===== src/Auth/Sessions/Keeps.antt =====
-- What every accepted write keeps, every operation on sessions keeps.
use shared_todos.Common.{ℕ, String, Bool, Option, none, some}
use shared_todos.Db.{Engine, User, Db}
use shared_todos.Db.Keeps.{
  Keeps, Keeps-bind, Keeps-if, Keeps-write-then, Keeps-pure, Keeps-raise, keeps_rules, IsStable,
  Keeps-commit, Keeps-commit-then,
}
use shared_todos.Auth.Secrets.{Crypto}
use shared_todos.Auth.Sessions.{
  create_session, get_session_user, invalidate_session, invalidate_all_user_sessions, or_401,
  require_auth,
}

module _ ⦃e : Engine⦄ (P : Db e → Type 0) (stable : IsStable P) (c : Crypto) where
  pub Keeps-create_session :
      (user_id ttl_days : ℕ) (raw : String) (id now : ℕ)
      → Keeps P (create_session c user_id ttl_days raw id now)
  unfolding create_session
  Keeps-create_session user_id ttl_days raw id now =
      Keeps-write-then _ _ (Keeps-commit-then P stable _ (search keeps_rules))

  Keeps-or_401 : (user : Option User) → Keeps P (or_401 c user)
  unfolding or_401
  Keeps-or_401 none = Keeps-raise _
  Keeps-or_401 (some user) = Keeps-pure user

  pub Keeps-require_auth :
      (session : Option String) (now : ℕ) → Keeps P (require_auth c session now)
  unfolding require_auth get_session_user
  Keeps-require_auth none now = Keeps-raise _
  Keeps-require_auth (some session) now = Keeps-bind _ _ (search keeps_rules) Keeps-or_401

  pub Keeps-invalidate_session : (token : String) → Keeps P (invalidate_session c token)
  unfolding invalidate_session
  Keeps-invalidate_session token = Keeps-write-then _ _ (Keeps-commit P stable)

  pub Keeps-invalidate_all_user_sessions :
      (user_id : ℕ) (do_commit : Bool) → Keeps P (invalidate_all_user_sessions c user_id do_commit)
  unfolding invalidate_all_user_sessions
  Keeps-invalidate_all_user_sessions user_id do_commit =
      Keeps-write-then _ _ (Keeps-if _ _ _ (Keeps-commit P stable) (Keeps-pure tt))
