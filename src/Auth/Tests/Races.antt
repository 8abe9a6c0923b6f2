-- ===== src/Auth/Tests/Races.antt =====
-- Requests that overlap, on a small database.
use shared_todos.Common.{
  suc, ◌+◌, ◌<◌, ◌≤◌, ◌≡◌, refl, some, [], ◌∷◌, nat_eq, string_eq, option_eq, none, count, arith,
}
use shared_todos.Http.{ok, err, unique_violation}
use shared_todos.Config.{fields_accept}
use shared_todos.Db.{tally, Db, has_email, run}
use shared_todos.Db.Memory.{memory, memory-IsEngine}
use shared_todos.Db.Sample.{user}
use shared_todos.Auth.Sample.{plain, settings}
use shared_todos.Auth.RateLimiter.{get, put, record_failed_login, check_login_rate_limit}
use shared_todos.Auth.RateLimiter.Window.{failed, apply_event}
use shared_todos.Auth.RateLimiter.Window.Guesses.{span}
use shared_todos.Auth.RateLimiter.Window.InFlight.{
  Traffic, Overlapping, idle, begins, fails, wrong_lt,
}
use shared_todos.Auth.RateLimiter.Window.Overshoot.{wrong_lt-sharp}
use shared_todos.Auth.Sessions.{of_user}
use shared_todos.Auth.Register.{register}
use shared_todos.Auth.Register.Race.{register-race}
use shared_todos.Auth.PasswordReset.{password_reset_complete}
use shared_todos.Auth.PasswordReset.SingleUse.{has_other_password}
use shared_todos.Auth.PasswordReset.Race.{completing, password_reset_complete-overlap}
use shared_todos.Auth.Tests.{quiet, signup, signup_draw, reset_body, reset_token}

-- somebody registers with the email in the meantime
abbrev taking : Db memory → Db memory
taking db = record db {
  users =
      record {
        id = 7;
        email = "new@example.org";
        display_name = "new";
        password_hash = some "theirs";
        google_sub = none;
        created_at = 0;
        updated_at = 0;
      }
      ∷ db.users;
}

one : tally (has_email "new@example.org") (taking quiet.db).users ≡ 1
unfolding string_eq
one = refl

one_taken : 1 ≤ tally (has_email "new@example.org") (taking quiet.db).users
one_taken = omega (arith, one)

register-race_example :
    run (register plain settings signup signup_draw taking) quiet
    ≡ (err unique_violation, record quiet { db = taking quiet.db })
unfolding string_eq
register-race_example =
    register-race memory-IsEngine plain settings signup signup_draw taking quiet refl one_taken

password_reset_complete-overlap_example :
    let other = record reset_body { new_password = "their password" } in
    let (answer, s') =
      run
        (password_reset_complete plain reset_body "s" 120 (completing plain other "f" 100))
        quiet in
    ((run (password_reset_complete plain other "f" 100 (λ db. db)) quiet).0 ≡ ok tt)
    × (answer ≡ ok tt)
    × (tally
          (has_other_password memory-IsEngine plain reset_body "s" 120 quiet reset_token (user 1))
          s'.db.users
        ≡ 0)
    × (tally (of_user 1) s'.db.sessions ≡ 0)
unfolding nat_eq string_eq
password_reset_complete-overlap_example =
    password_reset_complete-overlap memory-IsEngine plain reset_body "their password" "f" "s" 100
      120 quiet reset_token (user 1) refl refl refl

-- Two logins begin at once, the first fails, and one more begins.
abbrev after_first : Traffic
after_first = record {
  store = apply_event settings (failed "1.2.3.4" 8) [];
  waiting = 2;
  wrong = 8 ∷ [];
}

overlapped : Overlapping settings "1.2.3.4" 2 9 after_first
unfolding string_eq nat_eq record_failed_login check_login_rate_limit get put
overlapped = begins 9 (omega arith) (omega arith) refl (
    fails 8 (omega arith)
      (begins 7 (omega arith) (omega arith) refl (begins 5 (omega arith) (omega arith) refl idle)))

-- Three wrong passwords are looked at, where the limit is 2.
abbrev after_all : Traffic
after_all = record {
  store =
      apply_event settings (failed "1.2.3.4" 12)
        (apply_event settings (failed "1.2.3.4" 11) (apply_event settings (failed "1.2.3.4" 8) []));
  waiting = 0;
  wrong = 8 ∷ 11 ∷ 12 ∷ [];
}

overlapped_all : Overlapping settings "1.2.3.4" 2 12 after_all
unfolding string_eq nat_eq
overlapped_all = fails 12 (omega arith) (fails 11 (omega arith) overlapped)

wrong_lt-sharp_example :
    (s : Traffic) × Overlapping settings "1.2.3.4" 2 0 s
    × (suc (count (span settings 0) s.wrong) ≡ 2 + 2)
unfolding fields_accept
wrong_lt-sharp_example = wrong_lt-sharp settings "1.2.3.4" 2 refl (omega arith)

wrong_lt_example : count (span settings 5) after_all.wrong < 2 + 2
unfolding fields_accept
wrong_lt_example = wrong_lt settings "1.2.3.4" 2 refl overlapped_all 5
