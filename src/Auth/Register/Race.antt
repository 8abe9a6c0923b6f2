-- ===== src/Auth/Register/Race.antt =====
-- Registration when another request takes the email between the look for it and the commit.
use shared_todos.Common.{◌≤◌, ◌≡◌, arith}
use shared_todos.Http.{err, unique_violation}
use shared_todos.Db.{
  Engine, IsEngine, tally, Db, has_email, clashes_user, Session, run, moved_to, ◌>>=◌,
  scalar_one_or_none, commit, apply_all, apply,
}
use shared_todos.Db.Tally.{select-empty, tally_mono}
use shared_todos.Db.Invariant.{exists-of_tally}
use shared_todos.Config.{Settings}
use shared_todos.Auth.Secrets.{Crypto}
use shared_todos.Auth.Register.{RegisterRequest, RegisterDraw, new_user, register}

-- The email is free when it is looked for, and somebody has it by the commit: the request ends in the
-- error of the UNIQUE constraint, which no handler takes, instead of the answer that names no user.
-- Nothing of it is stored.
pub register-race :
    ⦃e : Engine⦄ (laws : IsEngine e) (c : Crypto) (settings : Settings) (body : RegisterRequest)
    (d : RegisterDraw) (others : Db e → Db e) (s : Session e)
    → tally (has_email body.email) s.db.users ≡ 0
    → 1 ≤ tally (has_email body.email) (others s.db).users
    → run (register c settings body d others) s ≡ (err unique_violation, moved_to s (others s.db))
unfolding register run ◌>>=◌ scalar_one_or_none commit apply_all apply
register-race ⦃e⦄ laws c settings body d others s free taken = ground (
  arith,
  select-empty laws (has_email body.email) s.db.users free,
  exists-of_tally laws (clashes_user (new_user c settings body d)) (others s.db).users,
  taken,
  tally_mono (has_email body.email) (clashes_user (new_user c settings body d)) (others s.db).users
      (λ u h. ground arith),
)
