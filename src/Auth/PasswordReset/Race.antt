-- ===== src/Auth/PasswordReset/Race.antt =====
-- Two completions of one reset that overlap: both have found the token before either commits.
use shared_todos.Common.{ap, arith, ℕ, String, ◌≡◌, refl, [], ◌∷◌, nat_eq, string_eq, option_eq}
use shared_todos.Http.{Result, ok}
use shared_todos.Db.{Engine, IsEngine, tally, User, PasswordResetToken, Db, is_user, Session, run}
use shared_todos.Auth.Secrets.{Crypto, hash_token}
use shared_todos.Auth.Sessions.{of_user}
use shared_todos.Auth.PasswordReset.{CompleteBody, is_usable, password_reset_complete}
use shared_todos.Auth.PasswordReset.SingleUse.{
  has_other_password, reset, complete-reset, no_other_password, no_sessions, token_there,
  user_there, tally-reset_token, tally-reset_user,
}

-- what a completion that nobody disturbs makes of a database
pub completing : ⦃e : Engine⦄ → Crypto → CompleteBody → String → ℕ → Db e → Db e
completing c body salt now db =
    (run (password_reset_complete c body salt now (λ db. db))
      (record { db = db; pending = []; failed_logins = [] })).1.db

-- a session with nothing in it but the database
abbrev bare : ⦃e : Engine⦄ → Db e → Session e
bare db = record { db = db; pending = []; failed_logins = [] }

completing-reset :
    ⦃e : Engine⦄ (laws : IsEngine e) (c : Crypto) (body : CompleteBody) (salt : String) (now : ℕ)
    (db : Db e) (prt : PasswordResetToken) (user : User)
    → (found : e.select (is_usable (hash_token c body.token) now) db.reset_tokens ≡ prt ∷ [])
    → (known : e.select (is_user prt.user_id) db.users ≡ user ∷ [])
    → completing c body salt now db ≡ reset laws c body salt now (bare db) prt user db
unfolding completing
completing-reset ⦃e⦄ laws c body salt now db prt user found known =
    ap (λ (r : Result (Unit {0}) × Session e). r.1.db)
      (complete-reset laws c body salt now (bare db) prt user found known (λ db'. db')
        (token_there laws c body salt now (bare db) prt user found known)
        (user_there laws c body salt now (bare db) prt user found known))

-- A usable token, with which two requests complete a reset, each with its own password; the first
-- commits between the queries and the commit of the second. Each gets the answer that it succeeded,
-- the password of the user is that of the second alone, and no session of the user is left.
pub password_reset_complete-overlap :
    ⦃e : Engine⦄ (laws : IsEngine e) (c : Crypto) (body : CompleteBody)
    (password first_salt salt : String) (first now : ℕ) (s : Session e) (prt : PasswordResetToken)
    (user : User)
    → e.select (is_usable (hash_token c body.token) first) s.db.reset_tokens ≡ prt ∷ []
    → e.select (is_usable (hash_token c body.token) now) s.db.reset_tokens ≡ prt ∷ []
    → e.select (is_user prt.user_id) s.db.users ≡ user ∷ []
    → let other = record body { new_password = password } in
      let (answer, s') =
        run (password_reset_complete c body salt now (completing c other first_salt first)) s in
      ((run (password_reset_complete c other first_salt first (λ db. db)) s).0 ≡ ok tt)
      × (answer ≡ ok tt)
      × (tally (has_other_password laws c body salt now s prt user) s'.db.users ≡ 0)
      × (tally (of_user user.id) s'.db.sessions ≡ 0)
password_reset_complete-overlap ⦃e⦄ laws c body password first_salt salt first now s prt user
      found_first found known =
    let other = record body { new_password = password } in
    let t = bare s.db in
    let token = token_there laws c other first_salt first s prt user found_first known in
    let user_ = user_there laws c other first_salt first s prt user found_first known in
    let after = completing-reset laws c other first_salt first s.db prt user found_first known in
    rw
      (complete-reset laws c body salt now s prt user found known
        (completing c other first_salt first)
        (rw after (
          omega (
            arith,
            token,
            tally-reset_token laws c other first_salt first t prt user found_first known s.db,
          )))
        (rw after (
          omega (
            arith,
            user_,
            tally-reset_user laws c other first_salt first t prt user found_first known s.db,
          ))))
      (
        ap (λ (r : Result (Unit {0}) × Session e). r.0)
            (complete-reset laws c other first_salt first s prt user found_first known (λ db. db)
              token user_),
        refl,
        no_other_password laws c body salt now s prt user found known _,
        no_sessions laws c body salt now s prt user found known _,
      )
