-- ===== src/Auth/OAuth/Race.antt =====
-- A first sign-in with Google when another request takes the Google id or the email before the commit.
use shared_todos.Common.{◌≤◌, ◌≡◌, ◌∙◌, refl, String, arith}
use shared_todos.Http.{err, unique_violation}
use shared_todos.Db.{
  Engine, IsEngine, tally, clashes_user, Session, run, moved_to, ◌>>=◌, scalar_one_or_none, commit,
  apply_all, apply,
}
use shared_todos.Db.Tally.{select-empty, tally_mono}
use shared_todos.Db.Invariant.{exists-of_tally}
use shared_todos.Config.{Settings}
use shared_todos.Auth.Secrets.{Crypto}
use shared_todos.Auth.OAuth.{
  Google, OAuthDraw, CallbackRequest, is_account, name_of, google_user, find_user,
  oauth_google_callback,
}
use shared_todos.Auth.OAuth.Callback.{IsVouched, oauth_google_callback-find_user}

-- Google vouches for an id and an email that nobody has when they are looked for, and that somebody
-- has by the commit: the request ends in the error of the UNIQUE constraint, and nothing of it is
-- stored.
callback-race :
    ⦃e : Engine⦄ (laws : IsEngine e) (c : Crypto) (g : Google) (settings : Settings)
    (d : OAuthDraw e) (request : CallbackRequest) (code sub email : String) (s : Session e)
    → IsVouched g settings request code sub email
    → tally (is_account sub email) s.db.users ≡ 0
    → 1 ≤ tally (is_account sub email) (d.others s.db).users
    → run (oauth_google_callback c g settings d request) s
      ≡ (err unique_violation, moved_to s (d.others s.db))
unfolding find_user run ◌>>=◌ scalar_one_or_none commit apply_all apply
callback-race laws c g settings d request code sub email s vouched free taken =
    let account = google_user c g settings d sub email (name_of email vouched.claims) in
    oauth_google_callback-find_user laws c g settings d request code sub email s vouched
      (name_of email vouched.claims) refl
    ∙ ground (
      arith,
      select-empty laws (is_account sub email) s.db.users free,
      exists-of_tally laws (clashes_user account) (d.others s.db).users,
      taken,
      tally_mono (is_account sub email) (clashes_user account) (d.others s.db).users
          (λ u h. ground arith),
    )
