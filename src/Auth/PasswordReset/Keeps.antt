-- ===== src/Auth/PasswordReset/Keeps.antt =====
-- What every accepted write keeps, the steps of a password reset keep.
use shared_todos.Common.{ℕ, String, Option, none, some}
use shared_todos.Db.{Engine, User, PasswordResetToken, Db}
use shared_todos.Db.Keeps.{
  Keeps, Keeps-bind, Keeps-write-then, Keeps-lift, Keeps-query, Keeps-pure, Keeps-raise,
  keeps_rules, IsStable, Keeps-commit, Keeps-commit-then, Keeps-meanwhile-then,
}
use shared_todos.Config.{Settings}
use shared_todos.Auth.Secrets.{Crypto}
use shared_todos.Auth.Sessions.Keeps.{Keeps-invalidate_all_user_sessions}
use shared_todos.Auth.PasswordReset.{
  CompleteBody, send_token, to_user, complete_with, password_reset_request, password_reset_validate,
  password_reset_complete,
}

module _ ⦃e : Engine⦄ (P : Db e → Type 0) (stable : IsStable P) (c : Crypto) where
  module _ (settings : Settings) (email raw_token : String) (id now : ℕ) where
    Keeps-send_token :
        (user : User) (hash : Option String)
        → Keeps P (send_token c settings email raw_token id now user hash)
    unfolding send_token
    Keeps-send_token user none = Keeps-pure none
    Keeps-send_token user (some hashed) =
        Keeps-write-then _ _ (Keeps-commit-then P stable _ (Keeps-pure _))

    Keeps-to_user : (user : Option User) → Keeps P (to_user c settings email raw_token id now user)
    unfolding to_user
    Keeps-to_user none = Keeps-pure none
    Keeps-to_user (some user) = Keeps-send_token user user.password_hash

    pub Keeps-password_reset_request :
        Keeps P (password_reset_request c settings email raw_token id now)
    unfolding password_reset_request
    Keeps-password_reset_request =
        Keeps-bind _ _ (Keeps-query _) λ found. Keeps-bind _ _ (Keeps-lift _) Keeps-to_user

  pub Keeps-password_reset_validate :
      (token : String) (now : ℕ) → Keeps P (password_reset_validate c token now)
  unfolding password_reset_validate
  Keeps-password_reset_validate token now = search keeps_rules

  Keeps-complete_with :
      (salt password : String) (now : ℕ) (others : Db e → Db e)
      → ((db : Db e) → P db → P (others db))
      → (prt : Option PasswordResetToken) → Keeps P (complete_with c salt password now others prt)
  unfolding complete_with
  Keeps-complete_with salt password now others hold none = Keeps-raise _
  Keeps-complete_with salt password now others hold (some prt) =
      Keeps-bind _ _ (Keeps-query _) λ found. Keeps-bind _ _ (Keeps-lift _) λ user.
        Keeps-write-then _ _ (
          Keeps-write-then _ _ (
            Keeps-bind _ _ (Keeps-invalidate_all_user_sessions P stable c _ _)
              λ _. Keeps-meanwhile-then _ _ hold (Keeps-commit P stable)))

  pub Keeps-password_reset_complete :
      (body : CompleteBody) (salt : String) (now : ℕ) (others : Db e → Db e)
      → ((db : Db e) → P db → P (others db))
      → Keeps P (password_reset_complete c body salt now others)
  unfolding password_reset_complete
  Keeps-password_reset_complete body salt now others hold = Keeps-bind _ _ (Keeps-query _) λ found.
      Keeps-bind _ _ (Keeps-lift _) (Keeps-complete_with salt body.new_password now others hold)
