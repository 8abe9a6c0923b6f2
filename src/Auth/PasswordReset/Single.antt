-- ===== src/Auth/PasswordReset/Single.antt =====
-- In a sound database no step of a password reset ends in MultipleResultsFound.
use shared_todos.Common.{ℕ, String, refl, not, ◌&&◌, is_some, ltb, Option, none, some, true}
use shared_todos.Db.{Engine, IsEngine, User, Db, PasswordResetToken}
use shared_todos.Db.Single.{
  Single, Single-pure, Single-raise, Single-bind, Single-find, Single-get, Single-write-then,
  Single-raise_if-then, Single-commit, Single-commit-then, Single-meanwhile-then,
}
use shared_todos.Db.Invariant.Sound.{IsSound, apply-IsSound}
use shared_todos.Db.Invariant.Lookups.{rows_of_email, rows_of_user, rows_of_token}
use shared_todos.Config.{Settings}
use shared_todos.Auth.Secrets.{Crypto, hash_token}
use shared_todos.Auth.Sessions.Keeps.{Keeps-invalidate_all_user_sessions}
use shared_todos.Auth.Sessions.Single.{Single-invalidate_all_user_sessions}
use shared_todos.Auth.PasswordReset.{
  CompleteBody, send_token, to_user, complete_with, password_reset_request, password_reset_validate,
  password_reset_complete,
}

module _ ⦃e : Engine⦄ (laws : IsEngine e) (c : Crypto) where
  module _ (settings : Settings) (email raw_token : String) (id now : ℕ) where
    Single-send_token :
        (user : User) (hash : Option String)
        → Single IsSound (send_token c settings email raw_token id now user hash)
    unfolding send_token
    Single-send_token user none = Single-pure none
    Single-send_token user (some hashed) =
        Single-write-then _ _ (Single-commit-then IsSound (apply-IsSound laws) _ (Single-pure _))

    Single-to_user :
        (user : Option User) → Single IsSound (to_user c settings email raw_token id now user)
    unfolding to_user
    Single-to_user none = Single-pure none
    Single-to_user (some user) = Single-send_token user user.password_hash

    pub Single-password_reset_request :
        Single IsSound (password_reset_request c settings email raw_token id now)
    unfolding password_reset_request
    Single-password_reset_request =
        Single-find _ _ (λ db h. rows_of_email laws db h email) Single-to_user

  pub Single-password_reset_validate :
      (token : String) (now : ℕ) → Single IsSound (password_reset_validate c token now)
  unfolding password_reset_validate
  Single-password_reset_validate token now =
      Single-find _ _
        (λ db h.
          rows_of_token laws db h (hash_token c token)
            (λ t. ltb now t.expires_at && not (is_some t.used_at)))
        λ prt. Single-raise_if-then _ _ _ refl (Single-pure true)

  Single-complete_with :
      (salt password : String) (now : ℕ) (others : Db e → Db e)
      → ((db : Db e) → IsSound db → IsSound (others db))
      → (prt : Option PasswordResetToken)
      → Single IsSound (complete_with c salt password now others prt)
  unfolding complete_with
  Single-complete_with salt password now others hold none = Single-raise _ refl
  Single-complete_with salt password now others hold (some prt) =
      Single-get _ _ (λ db h. rows_of_user laws db h prt.user_id)
        λ user. Single-write-then _ _ (
          Single-write-then _ _ (
            Single-bind _ _ (Keeps-invalidate_all_user_sessions IsSound (apply-IsSound laws) c _ _)
              (Single-invalidate_all_user_sessions laws c _ _)
              λ _. Single-meanwhile-then _ _ hold (Single-commit IsSound (apply-IsSound laws))))

  pub Single-password_reset_complete :
      (body : CompleteBody) (salt : String) (now : ℕ) (others : Db e → Db e)
      → ((db : Db e) → IsSound db → IsSound (others db))
      → Single IsSound (password_reset_complete c body salt now others)
  unfolding password_reset_complete
  Single-password_reset_complete body salt now others hold =
      Single-find _ _
        (λ db h.
          rows_of_token laws db h (hash_token c body.token)
            (λ t. ltb now t.expires_at && not (is_some t.used_at)))
        (Single-complete_with salt body.new_password now others hold)
