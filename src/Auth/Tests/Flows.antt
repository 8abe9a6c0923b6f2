-- ===== src/Auth/Tests/Flows.antt =====
-- A reset from its request to its end, and a registration with the login after it.
use shared_todos.Common.{
  Bool, is_ascii, ==_refl, ◌+◌, ◌≡◌, refl, String, not, ◌&&◌, ◌==◌, some, nat_eq, string_eq,
  option_eq, ltb, true, if◌then◌else◌, arith, false,
}
use shared_todos.Http.{ok, err, http}
use shared_todos.Db.{
  ◌>>=◌, scalar_one_or_none, scalar_one, commit, apply_all, apply, tally, User, is_user, run,
}
use shared_todos.Db.Memory.{memory, memory-IsEngine}
use shared_todos.Db.Sample.{user}
use shared_todos.Auth.Sample.{plain, settings}
use shared_todos.Auth.RateLimiter.{get, check_login_rate_limit}
use shared_todos.Auth.Secrets.{Crypto}
use shared_todos.Auth.Sessions.{of_user, create_session}
use shared_todos.Auth.Login.{user_out, login}
use shared_todos.Auth.Register.{new_user, register}
use shared_todos.Auth.Register.Outcomes.Password.{register-then_login}
use shared_todos.Auth.Secrets.Matching.{IsCrypto}
use shared_todos.Auth.PasswordReset.{
  password_reset_request, password_reset_validate, password_reset_complete,
}
use shared_todos.Auth.Email.{send_password_reset_email}
use shared_todos.Auth.PasswordReset.Link.{request-then_complete}
use shared_todos.Auth.Tests.{asked, draw, quiet, signup, signup_draw}

request-then_complete_example :
    let (mail, s') =
      run (password_reset_request plain settings "someone@example.org" "link" 6 100) quiet in
    let (done, s'') =
      run
        (password_reset_complete plain
          (record { token = "link"; new_password = "a new password" })
          "s"
          200
          (λ db. db))
        s' in
    (mail ≡ ok (some (send_password_reset_email settings "someone@example.org" "link")))
    × (run (password_reset_validate plain "link" 300) s'
        ≡ ((if ltb 300 (100 + 3600) then ok true else err (http 400 "invalid")), s'))
    × (done ≡ ok tt)
    × (tally
          (λ (u : User). is_user 1 u && not (u.password_hash == some "a new password"))
          s''.db.users
        ≡ 0)
    × (tally (of_user 1) s''.db.sessions ≡ 0)
    × (run (password_reset_validate plain "link" 300) s'' ≡ (err (http 400 "invalid"), s''))
unfolding string_eq nat_eq
request-then_complete_example =
    request-then_complete memory-IsEngine plain settings "someone@example.org" "link" 6 100 quiet
      (user 1) "hash" refl refl refl refl "a new password" "s" 200 300 refl

-- a hash that keeps an ASCII text
abbrev ascii_hash : Crypto
ascii_hash = record plain { sha256 = λ text. if is_ascii text then text else "" }

kept_ascii :
    (b : Bool) (text : String) → is_ascii text ≡ b → is_ascii (if b then text else "") ≡ true
kept_ascii true text h = h
kept_ascii false text h = refl

ascii_hash-IsCrypto : IsCrypto ascii_hash
ascii_hash-IsCrypto = record {
  ascii = λ text. kept_ascii (is_ascii text) text refl;
  verifies = λ salt password. ground (arith, ==_refl password);
  refuses = λ salt password other differ. ground arith;
}

register-then_login_example :
    (run
      (login ascii_hash settings (asked "new@example.org" "a long password") draw)
      (run (register ascii_hash settings signup signup_draw (λ db. db)) quiet).1).0
    ≡ ok (record {
      user = user_out (new_user ascii_hash settings signup signup_draw);
      session = "t";
    })
unfolding string_eq nat_eq check_login_rate_limit get register run ◌>>=◌ scalar_one_or_none
    scalar_one commit apply_all apply create_session
register-then_login_example =
    register-then_login memory-IsEngine ascii_hash settings signup signup_draw quiet refl refl
      ascii_hash-IsCrypto draw "a long password" refl refl
