-- ===== src/Auth/Login/Single.antt =====
-- In a sound database neither login nor logout ends in MultipleResultsFound.
use shared_todos.Common.{ℕ, String, ◌≡◌, refl, false, Option, none, some, List, arith}
use shared_todos.Db.{Engine, IsEngine, User}
use shared_todos.Db.Single.{
  Single, Single-pure, Single-raise, Single-if, Single-bind, Single-find, Single-change_store-then,
  Single-lift-then, Single-check_store-then, ambiguous,
}
use shared_todos.Db.Invariant.Sound.{IsSound, apply-IsSound}
use shared_todos.Db.Invariant.Lookups.{rows_of_email}
use shared_todos.Config.{Settings}
use shared_todos.Auth.RateLimiter.{check_login_rate_limit}
use shared_todos.Auth.Secrets.{Crypto}
use shared_todos.Auth.Secrets.Matching.{ambiguous-verify_password}
use shared_todos.Auth.Sessions.Keeps.{Keeps-create_session, Keeps-require_auth}
use shared_todos.Auth.Sessions.Single.{
  Single-create_session, Single-require_auth, Single-invalidate_session,
}
use shared_todos.Auth.Login.{
  LoginRequest, LoginDraw, refuse, accept, with_hash, attempt, login, logout, get_session_info,
}

module _ ⦃e : Engine⦄ (laws : IsEngine e) (c : Crypto) where
  module _ (settings : Settings) (body : LoginRequest) (d : LoginDraw) where
    ambiguous-check :
        (store : List (String × List ℕ))
        → ambiguous (check_login_rate_limit settings d.ip d.checked_at store) ≡ false
    unfolding check_login_rate_limit
    ambiguous-check store = ground arith

    Single-refuse : Single IsSound (refuse c settings body d)
    unfolding refuse
    Single-refuse = Single-change_store-then _ _ (Single-raise _ refl)

    Single-accept : (user : User) → Single IsSound (accept c settings body d user)
    unfolding accept
    Single-accept user = Single-change_store-then _ _ (
        Single-bind _ _ (Keeps-create_session IsSound (apply-IsSound laws) c _ _ _ _ _)
          (Single-create_session laws c _ _ _ _ _) λ token. Single-pure _)

    Single-with_hash :
        (user : User) (hash : Option String)
        → Single IsSound (with_hash c settings body d user hash)
    unfolding with_hash
    Single-with_hash user none =
        Single-lift-then _ _ (ambiguous-verify_password c body.password _) λ _. Single-refuse
    Single-with_hash user (some hashed) =
        Single-lift-then _ _ (ambiguous-verify_password c body.password hashed)
          λ right. Single-if _ _ _ Single-refuse (Single-accept user)

    Single-attempt : (user : Option User) → Single IsSound (attempt c settings body d user)
    unfolding attempt
    Single-attempt none =
        Single-lift-then _ _ (ambiguous-verify_password c body.password _) λ _. Single-refuse
    Single-attempt (some user) = Single-with_hash user user.password_hash

    pub Single-login : Single IsSound (login c settings body d)
    unfolding login
    Single-login =
        Single-check_store-then _ _ ambiguous-check
          (Single-find _ _ (λ db h. rows_of_email laws db h body.email) Single-attempt)

  pub Single-logout : (session : Option String) → Single IsSound (logout c session)
  unfolding logout
  Single-logout none = Single-pure tt
  Single-logout (some token) =
      Single-if _ _ _ (Single-pure tt) (Single-invalidate_session laws c token)

  pub Single-get_session_info :
      (session : Option String) (now : ℕ) → Single IsSound (get_session_info c session now)
  unfolding get_session_info
  Single-get_session_info session now =
      Single-bind _ _ (Keeps-require_auth IsSound (apply-IsSound laws) c session now)
        (Single-require_auth laws c session now) λ user. Single-pure _
