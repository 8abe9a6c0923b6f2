-- ===== src/Auth/Register/Keeps.antt =====
-- What every accepted write keeps, registration keeps.
use shared_todos.Common.{Option, none, some}
use shared_todos.Db.{Engine, User, Db}
use shared_todos.Db.Keeps.{
  Keeps, Keeps-bind, Keeps-write-then, Keeps-lift, Keeps-query, Keeps-pure, IsStable,
  Keeps-commit-then, Keeps-meanwhile-then,
}
use shared_todos.Config.{Settings}
use shared_todos.Auth.Secrets.{Crypto}
use shared_todos.Auth.Sessions.Keeps.{Keeps-create_session}
use shared_todos.Auth.Register.{
  RegisterRequest, RegisterDraw, decoy, register_new, by_existing, register,
}

module _ ⦃e : Engine⦄ (P : Db e → Type 0) (stable : IsStable P) (c : Crypto) (settings : Settings)
    (body : RegisterRequest) (d : RegisterDraw) (others : Db e → Db e)
    (hold : (db : Db e) → P db → P (others db)) where
  Keeps-register_new : Keeps P (register_new c settings body d others)
  unfolding register_new
  Keeps-register_new = Keeps-write-then _ _ (
      Keeps-meanwhile-then _ _ hold (
        Keeps-commit-then P stable _ (
          Keeps-bind _ _ (Keeps-query _) λ found. Keeps-bind _ _ (Keeps-lift _) λ user.
            Keeps-bind _ _ (Keeps-create_session P stable c _ _ _ _ _) λ token. Keeps-pure _)))

  Keeps-by_existing : (user : Option User) → Keeps P (by_existing c settings body d others user)
  unfolding by_existing decoy
  Keeps-by_existing none = Keeps-register_new
  Keeps-by_existing (some user) = Keeps-pure _

  pub Keeps-register : Keeps P (register c settings body d others)
  unfolding register
  Keeps-register =
      Keeps-bind _ _ (Keeps-query _) λ found. Keeps-bind _ _ (Keeps-lift _) Keeps-by_existing
