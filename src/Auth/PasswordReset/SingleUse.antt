-- ===== src/Auth/PasswordReset/SingleUse.antt =====
-- What completing a reset leaves, and that its token is good for one time only.
use shared_todos.Common.{
  ℕ, ◌≤◌, String, ◌≡◌, refl, ◌∙◌, Bool, true, not, ◌&&◌, Option, some, [], ◌∷◌, ◌==◌, nat_eq,
  string_eq, option_eq, ==_refl, count_disjoint, if◌then◌else◌, arith,
}
use shared_todos.Http.{ok, err, http}
use shared_todos.Db.{
  Engine, IsEngine, tally, User, PasswordResetToken, Db, is_user, Session, ◌>>=◌, commit, run,
  moved_to, apply, apply_all, scalar_one_or_none, scalar_one,
}
use shared_todos.Db.Tally.{select-empty, within, tally-ext, tally_none, tally_mono}
use shared_todos.Db.Invariant.{tally-delete_all, tally-update_same, exists-of_tally}
use shared_todos.Auth.Secrets.{Crypto, hash_token, hash_password}
use shared_todos.Auth.Sessions.{of_user, invalidate_all_user_sessions}
use shared_todos.Auth.PasswordReset.{
  CompleteBody, has_reset_hash, is_usable, password_reset_validate, password_reset_complete,
}

module _ ⦃e : Engine⦄ (laws : IsEngine e) (c : Crypto) where
  pub password_reset_validate-refused :
      (token : String) (now : ℕ) (s : Session e)
      → tally (is_usable (hash_token c token) now) s.db.reset_tokens ≡ 0
      → run (password_reset_validate c token now) s ≡ (err (http 400 "invalid"), moved_to s s.db)
  unfolding password_reset_validate run ◌>>=◌ scalar_one_or_none
  password_reset_validate-refused token now s h =
      ground (arith, select-empty laws (is_usable (hash_token c token) now) s.db.reset_tokens h)

  -- A token that is unknown, expired or used: nothing changes.
  pub password_reset_complete-refused :
      (body : CompleteBody) (salt : String) (now : ℕ) (others : Db e → Db e) (s : Session e)
      → tally (is_usable (hash_token c body.token) now) s.db.reset_tokens ≡ 0
      → run (password_reset_complete c body salt now others) s
        ≡ (err (http 400 "invalid_or_used"), moved_to s s.db)
  unfolding password_reset_complete run ◌>>=◌ scalar_one_or_none
  password_reset_complete-refused body salt now others s h =
      ground
        (arith, select-empty laws (is_usable (hash_token c body.token) now) s.db.reset_tokens h)

  module _ (body : CompleteBody) (salt : String) (now : ℕ) (s : Session e)
      (prt : PasswordResetToken) (user : User) where
    abbrev hash : String
    hash = hash_token c body.token

    abbrev new_hash : Option String
    new_hash = some (hash_password c salt body.new_password)

    abbrev pub has_other_password : User → Bool
    has_other_password u = is_user user.id u && not (u.password_hash == new_hash)

    abbrev pub has_new_password : User → Bool
    has_new_password u = is_user user.id u && u.password_hash == new_hash

    abbrev pub is_prt : PasswordResetToken → Bool
    is_prt t = t.id == prt.id

    pub reset : Db e → Db e
    reset db = record db {
      users =
          e.update (is_user user.id) (λ u. record u { password_hash = new_hash; updated_at = now })
            db.users;
      reset_tokens = e.update is_prt (λ t. record t { used_at = some now }) db.reset_tokens;
      sessions = e.delete (of_user user.id) db.sessions;
    }

    module _ (found : e.select (is_usable hash now) s.db.reset_tokens ≡ prt ∷ [])
        (known : e.select (is_user prt.user_id) s.db.users ≡ user ∷ []) where
      -- the rows that were found are there
      pub token_there : 1 ≤ tally is_prt s.db.reset_tokens
      token_there = ground (
        arith,
        within laws (is_usable hash now) s.db.reset_tokens is_prt found,
        ==_refl prt.id,
        tally_mono (λ t. is_usable hash now t && is_prt t) is_prt s.db.reset_tokens
            (λ t h. ground arith),
      )

      pub user_there : 1 ≤ tally (is_user user.id) s.db.users
      user_there = ground (
        arith,
        within laws (is_user prt.user_id) s.db.users (is_user user.id) known,
        ==_refl user.id,
        tally_mono (λ u. is_user prt.user_id u && is_user user.id u) (is_user user.id) s.db.users
            (λ u h. ground arith),
      )

      pub complete-reset :
          (others : Db e → Db e)
          → 1 ≤ tally is_prt (others s.db).reset_tokens
          → 1 ≤ tally (is_user user.id) (others s.db).users
          → run (password_reset_complete c body salt now others) s
            ≡ (ok tt, moved_to s (reset (others s.db)))
      unfolding password_reset_complete invalidate_all_user_sessions run ◌>>=◌ scalar_one_or_none
          scalar_one commit apply_all apply reset
      complete-reset others token_still user_still = ground (
        arith,
        found,
        known,
        exists-of_tally laws is_prt (others s.db).reset_tokens,
        exists-of_tally laws (is_user user.id) (others s.db).users,
        token_still,
        user_still,
      )

      -- a completion keeps the rows
      pub tally-reset_token :
          (db : Db e) → tally is_prt (reset db).reset_tokens ≡ tally is_prt db.reset_tokens
      unfolding reset
      tally-reset_token db =
          tally-update_same laws is_prt is_prt (λ t. record t { used_at = some now })
            db.reset_tokens (λ t _. refl)

      pub tally-reset_user :
          (db : Db e) → tally (is_user user.id) (reset db).users ≡ tally (is_user user.id) db.users
      unfolding reset
      tally-reset_user db =
          tally-update_same laws (is_user user.id) (is_user user.id)
            (λ u. record u { password_hash = new_hash; updated_at = now }) db.users (λ u _. refl)

      pub new_password_set :
          (db : Db e) → tally has_new_password (reset db).users ≡ tally (is_user user.id) db.users
      unfolding reset
      new_password_set db =
          laws.tally-update has_new_password (is_user user.id) _ db.users
          ∙ tally-ext _ (is_user user.id) db.users (λ u. ground (arith, ==_refl new_hash))

      -- The row that was found is the only one with its hash.
      pub no_other :
          tally (has_reset_hash hash) s.db.reset_tokens ≤ 1
          → tally (λ t. has_reset_hash hash t && not (is_prt t)) s.db.reset_tokens ≡ 0
      no_other unique = ground (
        arith,
        within laws (is_usable hash now) s.db.reset_tokens is_prt found,
        ==_refl prt.id,
        count_disjoint (λ t. is_usable hash now t && is_prt t)
            (λ t. has_reset_hash hash t && not (is_prt t)) (has_reset_hash hash)
            (e.select (λ _. true) s.db.reset_tokens) (λ t h. ground arith) (λ t h. ground arith),
      )

      unusable :
          (db : Db e)
          → tally (λ t. has_reset_hash hash t && not (is_prt t)) db.reset_tokens ≡ 0
          → (later : ℕ) → tally (is_usable hash later) (reset db).reset_tokens ≡ 0
      unfolding reset
      unusable db alone later = omega (
        arith,
        alone,
        laws.tally-update (is_usable hash later) is_prt (λ t. record t { used_at = some now })
            db.reset_tokens,
        tally_mono
            (λ t. is_usable hash later (if is_prt t then record t { used_at = some now } else t))
            (λ t. has_reset_hash hash t && not (is_prt t)) db.reset_tokens (λ t h. ground arith),
      )

      pub no_other_password : (db : Db e) → tally has_other_password (reset db).users ≡ 0
      unfolding reset
      no_other_password db =
          laws.tally-update has_other_password (is_user user.id) _ db.users
          ∙ tally_none _ db.users (λ u. ground (arith, ==_refl new_hash))

      pub no_sessions : (db : Db e) → tally (of_user user.id) (reset db).sessions ≡ 0
      unfolding reset
      no_sessions db =
          tally-delete_all laws (of_user user.id) (of_user user.id) db.sessions (λ r h. h)

      pub password_reset_complete-once :
          (others : Db e → Db e)
          → 1 ≤ tally is_prt (others s.db).reset_tokens
          → tally (is_user user.id) (others s.db).users ≡ 1
          → tally (λ t. has_reset_hash hash t && not (is_prt t)) (others s.db).reset_tokens ≡ 0
          → let (answer, s') = run (password_reset_complete c body salt now others) s in
            (answer ≡ ok tt)
            × (tally has_new_password s'.db.users ≡ 1)
            × (tally has_other_password s'.db.users ≡ 0)
            × (tally (of_user user.id) s'.db.sessions ≡ 0)
            × ((later : ℕ)
                → run (password_reset_validate c body.token later) s'
                  ≡ (err (http 400 "invalid"), s'))
            × ((password salt' : String) (later : ℕ) (others' : Db e → Db e)
                → run
                    (password_reset_complete c
                      (record body { new_password = password })
                      salt'
                      later
                      others')
                    s'
                  ≡ (err (http 400 "invalid_or_used"), s'))
      password_reset_complete-once others token_still user_still alone =
          rw (complete-reset others token_still (omega (arith, user_still))) (
            refl,
            new_password_set (others s.db) ∙ user_still,
            no_other_password (others s.db),
            no_sessions (others s.db),
            λ later.
                password_reset_validate-refused body.token later (moved_to s (reset (others s.db)))
                  (unusable (others s.db) alone later),
            λ password salt' later others'.
                password_reset_complete-refused (record body { new_password = password }) salt'
                  later others' (moved_to s (reset (others s.db)))
                  (unusable (others s.db) alone later),
          )
