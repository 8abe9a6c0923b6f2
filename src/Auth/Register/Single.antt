-- ===== src/Auth/Register/Single.antt =====
-- In a sound database no registration ends in MultipleResultsFound.
use shared_todos.Common.{Option, none, some}
use shared_todos.Db.{Engine, IsEngine, User, Db}
use shared_todos.Db.Single.{
  Single, Single-pure, Single-bind, Single-find, Single-get, Single-write-then, Single-commit-then,
  Single-meanwhile-then,
}
use shared_todos.Db.Invariant.Sound.{IsSound, apply-IsSound}
use shared_todos.Db.Invariant.Lookups.{rows_of_email, rows_of_user}
use shared_todos.Config.{Settings}
use shared_todos.Auth.Secrets.{Crypto}
use shared_todos.Auth.Sessions.Keeps.{Keeps-create_session}
use shared_todos.Auth.Sessions.Single.{Single-create_session}
use shared_todos.Auth.Register.{
  RegisterRequest, RegisterDraw, decoy, register_new, by_existing, register,
}

module _ ⦃e : Engine⦄ (laws : IsEngine e) (c : Crypto) (settings : Settings)
    (body : RegisterRequest) (d : RegisterDraw) (others : Db e → Db e)
    (hold : (db : Db e) → IsSound db → IsSound (others db)) where
  Single-register_new : Single IsSound (register_new c settings body d others)
  unfolding register_new
  Single-register_new = Single-write-then _ _ (
      Single-meanwhile-then _ _ hold (
        Single-commit-then IsSound (apply-IsSound laws) _ (
          Single-get _ _ (λ db h. rows_of_user laws db h d.user_id)
            λ user.
              Single-bind _ _ (Keeps-create_session IsSound (apply-IsSound laws) c _ _ _ _ _)
                (Single-create_session laws c _ _ _ _ _) λ token. Single-pure _)))

  Single-by_existing :
      (user : Option User) → Single IsSound (by_existing c settings body d others user)
  unfolding by_existing decoy
  Single-by_existing none = Single-register_new
  Single-by_existing (some user) = Single-pure _

  pub Single-register : Single IsSound (register c settings body d others)
  unfolding register
  Single-register = Single-find _ _ (λ db h. rows_of_email laws db h body.email) Single-by_existing
