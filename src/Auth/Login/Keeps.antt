-- ===== src/Auth/Login/Keeps.antt =====
-- What every accepted write keeps, login and logout keep.
use shared_todos.Common.{ℕ, String, Option, none, some}
use shared_todos.Db.{Engine, User, Db}
use shared_todos.Db.Keeps.{
  Keeps, Keeps-bind, Keeps-if, Keeps-check_store, Keeps-change_store, Keeps-lift, Keeps-query,
  Keeps-pure, Keeps-raise, IsStable,
}
use shared_todos.Config.{Settings}
use shared_todos.Auth.Secrets.{Crypto}
use shared_todos.Auth.Sessions.Keeps.{
  Keeps-create_session, Keeps-require_auth, Keeps-invalidate_session,
}
use shared_todos.Auth.Login.{
  LoginRequest, LoginDraw, refuse, accept, with_hash, attempt, login, logout, get_session_info,
}

module _ ⦃e : Engine⦄ (P : Db e → Type 0) (stable : IsStable P) (c : Crypto) where
  module _ (settings : Settings) (body : LoginRequest) (d : LoginDraw) where
    Keeps-refuse : Keeps P (refuse c settings body d)
    unfolding refuse
    Keeps-refuse = Keeps-bind _ _ (Keeps-change_store _) λ _. Keeps-raise _

    Keeps-accept : (user : User) → Keeps P (accept c settings body d user)
    unfolding accept
    Keeps-accept user =
        Keeps-bind _ _ (Keeps-change_store _)
          λ _. Keeps-bind _ _ (Keeps-create_session P stable c _ _ _ _ _) λ token. Keeps-pure _

    Keeps-with_hash :
        (user : User) (hash : Option String) → Keeps P (with_hash c settings body d user hash)
    unfolding with_hash
    Keeps-with_hash user none = Keeps-bind _ _ (Keeps-lift _) λ _. Keeps-refuse
    Keeps-with_hash user (some hashed) =
        Keeps-bind _ _ (Keeps-lift _) λ right. Keeps-if _ _ _ Keeps-refuse (Keeps-accept user)

    Keeps-attempt : (user : Option User) → Keeps P (attempt c settings body d user)
    unfolding attempt
    Keeps-attempt none = Keeps-bind _ _ (Keeps-lift _) λ _. Keeps-refuse
    Keeps-attempt (some user) = Keeps-with_hash user user.password_hash

    pub Keeps-login : Keeps P (login c settings body d)
    unfolding login
    Keeps-login =
        Keeps-bind _ _ (Keeps-check_store _)
          λ _. Keeps-bind _ _ (Keeps-query _) λ found. Keeps-bind _ _ (Keeps-lift _) Keeps-attempt

  pub Keeps-logout : (session : Option String) → Keeps P (logout c session)
  unfolding logout
  Keeps-logout none = Keeps-pure tt
  Keeps-logout (some token) =
      Keeps-if _ _ _ (Keeps-pure tt) (Keeps-invalidate_session P stable c token)

  pub Keeps-get_session_info :
      (session : Option String) (now : ℕ) → Keeps P (get_session_info c session now)
  unfolding get_session_info
  Keeps-get_session_info session now =
      Keeps-bind _ _ (Keeps-require_auth P stable c session now) λ user. Keeps-pure _
