-- ===== src/Auth/Tests.antt =====
-- Callers, sessions and passwords on a small database.
mod Flows
mod Races
use shared_todos.Common.{
  Bool, is_ascii, ==_refl, ◌+◌, ◌*◌, ◌≡◌, refl, String, not, ◌&&◌, Option, none, some, List, [],
  ◌∷◌, nat_eq, string_eq, option_eq, ltb, leb, length, count, true, ◌≤◌, if◌then◌else◌, arith,
  false,
}
use shared_todos.Http.{too_many_requests, ok, err, http, type_error}
use shared_todos.Db.{
  ◌>>=◌, scalar_one_or_none, scalar_one, commit, apply_all, apply, Db, Session, User,
  PasswordResetToken, is_user, run,
}
use shared_todos.Db.Memory.{memory, memory-IsEngine}
use shared_todos.Db.Sample.{user, sample}
use shared_todos.Auth.Sample.{plain, settings}
use shared_todos.Auth.RateLimiter.{get, check_login_rate_limit, reset_failed_logins}
use shared_todos.Auth.RateLimiter.Window.{
  Event, failed, succeeded, replay, recent_failures, check-after_replay,
}
use shared_todos.Auth.RateLimiter.Window.Guesses.{span, tried, tried_le, check-again}
use shared_todos.Config.{fields_accept}
use shared_todos.Auth.Csrf.{Request, dispatch}
use shared_todos.Auth.Csrf.Verdicts.{IsChecked}
use shared_todos.Auth.Secrets.{Crypto, verify_password}
use shared_todos.Auth.Sessions.{create_session, require_auth}
use shared_todos.Auth.Sessions.Lifetime.{session-lifetime}
use shared_todos.Auth.Login.{LoginRequest, LoginDraw, user_out, login}
use shared_todos.Auth.Login.Outcomes.{unknown_email, login-refused, with_failure, login-succeeds}
use shared_todos.Auth.Register.{RegisterRequest, RegisterDraw, new_user, register}
use shared_todos.Auth.Register.Outcomes.Password.{register-then_login}
use shared_todos.Auth.Secrets.Matching.{IsCrypto}
use shared_todos.Auth.Register.Outcomes.{register-new, register-decoy}
use shared_todos.Auth.PasswordReset.{CompleteBody, password_reset_request}
use shared_todos.Auth.Email.{send_password_reset_email}
use shared_todos.Auth.PasswordReset.Link.{request-then_complete}

-- one user, whose password is "secret", and an open request for a reset
abbrev alone : Db memory
alone = record sample {
  users = user 1 ∷ [];
  reset_tokens =
      record {
        id = 5;
        user_id = 1;
        token_hash = "r";
        expires_at = 3600;
        used_at = none;
        created_at = 0;
      }
      ∷ [];
}

abbrev quiet : Session memory
quiet = record { db = alone; pending = []; failed_logins = [] }

abbrev draw : LoginDraw
draw = record { ip = "1.2.3.4"; checked_at = 100; now = 100; raw_token = "t"; id = 8 }

abbrev asked : String → String → LoginRequest
asked email password = record { email = email; password = password }

login-refused_example :
    run (login plain settings (asked "nobody@example.org" "secret") draw) quiet ≡ (
      err (http 401 "Invalid credentials"),
      with_failure plain settings (asked "nobody@example.org" "secret") draw quiet,
    )
unfolding check_login_rate_limit get string_eq verify_password
login-refused_example =
    login-refused plain settings (asked "nobody@example.org" "secret") draw quiet false refl refl
      (unknown_email refl)

-- a success, then two failures, the first of which is out of the window by 70
abbrev history : List Event
history = succeeded "1.2.3.4" 5 ∷ failed "1.2.3.4" 8 ∷ failed "1.2.3.4" 30 ∷ []

check-after_replay_example :
    check_login_rate_limit settings "1.2.3.4" 70 (replay settings history []) ≡ (
      if leb 2 (length (recent_failures settings "1.2.3.4" history 70))
      then err (
          too_many_requests "Too many failed login attempts. Please try again later."
            settings.rate_limit_login_window_seconds)
      else ok tt)
check-after_replay_example =
    check-after_replay settings "1.2.3.4" history 70 (omega arith, (omega arith, (omega arith, tt)))
      (omega arith)

-- The limit is 2: the third password is not looked at.
abbrev guesses : List Event
guesses = failed "1.2.3.4" 8 ∷ failed "1.2.3.4" 30 ∷ failed "1.2.3.4" 40 ∷ []

check-again_example :
    check_login_rate_limit settings "1.2.3.4" 100 (replay settings guesses []) ≡ ok tt
unfolding fields_accept
check-again_example =
    check-again settings "1.2.3.4" guesses 100 refl (omega arith, (omega arith, (omega arith, tt)))
      (omega arith)

abbrev signup : RegisterRequest
signup = record { email = "new@example.org"; password = "a long password" }

abbrev signup_draw : RegisterDraw
signup_draw = record { user_id = 4; session_id = 9; salt = "s"; raw_token = "u"; now = 100 }

register-new_example :
    let (answer, s') = run (register plain settings signup signup_draw (λ db. db)) quiet in
    (answer
      ≡ ok (record {
        user = some (user_out (new_user plain settings signup signup_draw));
        message = "Account created successfully.";
        session = "u";
      }))
    × ((u : User) × (memory.select (is_user 4) s'.db.users ≡ u ∷ [])
        × (user_out u ≡ user_out (new_user plain settings signup signup_draw))
        × (run (require_auth plain (some "u") 200) s' ≡ (
          (if ltb 200 (100 + 7 * 86400) then ok u else err (http 401 "Not authenticated")),
          s',
        )))
unfolding nat_eq string_eq
register-new_example =
    register-new memory-IsEngine plain settings signup signup_draw quiet refl refl 200

abbrev again : RegisterRequest
again = record { email = "someone@example.org"; password = "a long password" }

register-decoy_example :
    let (answer, s') = run (register plain settings again signup_draw (λ db. db)) quiet in
    (answer
      ≡ ok (record {
        user = none;
        message = "If this email is available, your account has been created.";
        session = "u";
      }))
    × (s'.db ≡ alone)
    × (run (require_auth plain (some "u") 200) s' ≡ (err (http 401 "Not authenticated"), s'))
unfolding string_eq
register-decoy_example =
    register-decoy memory-IsEngine plain settings again signup_draw quiet (user 1) refl refl 200

abbrev reset_body : CompleteBody
reset_body = record { token = "r"; new_password = "another password" }

abbrev reset_token : PasswordResetToken
reset_token = record {
  id = 5;
  user_id = 1;
  token_hash = "r";
  expires_at = 3600;
  used_at = none;
  created_at = 0;
}

-- somebody ends all sessions in the meantime
abbrev closing : Db memory → Db memory
closing db = record db { sessions = [] }

abbrev post : Option String → Request
post header = record {
  method = "POST";
  path = "/api/v1/lists";
  csrf_cookie = some "abc";
  csrf_header = header;
}

post-IsChecked : (header : Option String) → IsChecked (post header) "abc"
unfolding string_eq
post-IsChecked header = record { mutating = refl; not_exempt = refl; cookie = refl; nonempty = cc }

abbrev wrong : String
wrong = "abd"
