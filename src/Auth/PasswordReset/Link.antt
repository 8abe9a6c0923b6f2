-- ===== src/Auth/PasswordReset/Link.antt =====
-- From the request of a reset to its end: what the link in the mail is good for.
use shared_todos.Common.{
  sym, count, ℕ, ◌+◌, String, ◌≡◌, refl, ap, ◌∙◌, true, not, ◌&&◌, none, some, [], ◌∷◌, ◌==◌,
  nat_eq, string_eq, option_eq, ltb, and_left, ==_refl, Bool-cases, inl, inr, if◌then◌else◌, arith,
}
use shared_todos.Http.{ok, err, http}
use shared_todos.Db.{
  Engine, IsEngine, tally, User, PasswordResetToken, Db, is_user, has_email, clashes_reset_token,
  Session, ◌>>=◌, commit, run, moved_to, apply, apply_all, scalar_one_or_none,
}
use shared_todos.Db.Tally.{select-single, tally_mono, length-select}
use shared_todos.Db.Invariant.{not_exists-of_tally}
use shared_todos.Config.{Settings}
use shared_todos.Auth.Email.{send_password_reset_email}
use shared_todos.Auth.Secrets.{Crypto, hash_token, hash_password}
use shared_todos.Auth.Sessions.{of_user}
use shared_todos.Auth.PasswordReset.{
  CompleteBody, reset_ttl, has_reset_hash, is_usable, password_reset_request,
  password_reset_validate, password_reset_complete,
}
use shared_todos.Auth.PasswordReset.SingleUse.{
  password_reset_validate-refused, password_reset_complete-once, no_other, token_there,
}

module _ ⦃e : Engine⦄ (laws : IsEngine e) (c : Crypto) (settings : Settings) (email raw : String)
    (id now : ℕ) (s : Session e) (user : User) (hashed : String) where
  abbrev hash : String
  hash = hash_token c raw

  abbrev pub row : PasswordResetToken
  row = record {
    id = id;
    user_id = user.id;
    token_hash = hash;
    expires_at = now + reset_ttl;
    used_at = none;
    created_at = now;
  }

  requested : Db e
  requested = record s.db { reset_tokens = e.insert row s.db.reset_tokens }

  password_reset_validate-accepted :
      (token : String) (later : ℕ) (t : Session e) (prt : PasswordResetToken)
      → e.select (is_usable (hash_token c token) later) t.db.reset_tokens ≡ prt ∷ []
      → run (password_reset_validate c token later) t ≡ (ok true, moved_to t t.db)
  unfolding password_reset_validate run ◌>>=◌ scalar_one_or_none
  password_reset_validate-accepted token later t prt h = ground (arith, h)

  module _ (known : e.select (has_email email) s.db.users ≡ user ∷ [])
      (by_id : e.select (is_user user.id) s.db.users ≡ user ∷ [])
      (has_password : user.password_hash ≡ some hashed)
      (fresh : tally (clashes_reset_token row) s.db.reset_tokens ≡ 0) where
    request-requested :
        run (password_reset_request c settings email raw id now) s
        ≡ (ok (some (send_password_reset_email settings email raw)), moved_to s requested)
    unfolding password_reset_request run ◌>>=◌ scalar_one_or_none commit apply_all apply requested
    request-requested = ground (
      arith,
      known,
      by_id,
      has_password,
      not_exists-of_tally laws (clashes_reset_token row) s.db.reset_tokens fresh,
    )

    unused : tally (has_reset_hash hash) s.db.reset_tokens ≡ 0
    unused = omega (
      arith,
      fresh,
      tally_mono (has_reset_hash hash) (clashes_reset_token row) s.db.reset_tokens
          (λ t. ground arith),
    )

    sole : tally (has_reset_hash hash) requested.reset_tokens ≡ 1
    unfolding requested
    sole =
        ground (
          arith,
          laws.tally-insert (has_reset_hash hash) row s.db.reset_tokens,
          unused,
          ==_refl hash,
        )

    usable :
        (later : ℕ)
        → tally (is_usable hash later) requested.reset_tokens
          ≡ (if ltb later (now + reset_ttl) then 1 else 0)
    unfolding requested
    usable later = ground (
      arith,
      laws.tally-insert (is_usable hash later) row s.db.reset_tokens,
      unused,
      tally_mono (is_usable hash later) (has_reset_hash hash) s.db.reset_tokens
          (λ t. and_left (has_reset_hash hash t) _),
      ==_refl hash,
    )

    own :
        (later : ℕ)
        → ltb later (now + reset_ttl) ≡ true
        → tally (λ t. is_usable hash later t && (t.user_id == user.id)) requested.reset_tokens ≡ 1
    unfolding requested
    own later h = ground (
      arith,
      laws.tally-insert (λ t. is_usable hash later t && (t.user_id == user.id)) row
          s.db.reset_tokens,
      unused,
      tally_mono (λ t. is_usable hash later t && (t.user_id == user.id)) (has_reset_hash hash)
          s.db.reset_tokens (λ t h. ground arith),
      ==_refl hash,
    )

    validated :
        (later : ℕ)
        → run (password_reset_validate c raw later) (moved_to s requested) ≡ (
          (if ltb later (now + reset_ttl) then ok true else err (http 400 "invalid")),
          moved_to s requested,
        )
    validated later = elim (Bool-cases (ltb later (now + reset_ttl))) [
      | inl before ↦
          let (r, found, _, _) =
            select-single laws (is_usable hash later) requested.reset_tokens
              (usable later ∙ rw before) in
          password_reset_validate-accepted raw later (moved_to s requested) r found ∙ rw before
      | inr over ↦
          password_reset_validate-refused laws c raw later (moved_to s requested)
            (usable later ∙ rw over)
          ∙ rw over
    ]

    module _ (new_password salt : String) (at later : ℕ)
        (in_time : ltb at (now + reset_ttl) ≡ true) where
      abbrev body : CompleteBody
      body = record { token = raw; new_password = new_password }

      completed :
          let (done, t) =
            run (password_reset_complete c body salt at (λ db. db)) (moved_to s requested) in
          (done ≡ ok tt)
          × (tally
                (λ u.
                  is_user user.id u
                  && not (u.password_hash == some (hash_password c salt new_password)))
                t.db.users
              ≡ 0)
          × (tally (of_user user.id) t.db.sessions ≡ 0)
          × (run (password_reset_validate c raw later) t ≡ (err (http 400 "invalid"), t))
      unfolding requested
      completed =
          let (r, found, _, within) =
            select-single laws (is_usable hash at) requested.reset_tokens
              (usable at ∙ rw in_time) in
          let its : r.user_id ≡ user.id =
            ground (arith, within (λ t. t.user_id == user.id), own at in_time) in
          let (done, _, password, sessions, invalid, _) =
            password_reset_complete-once laws c body salt at (moved_to s requested) r user found
              (ap (λ i. e.select (is_user i) s.db.users) its ∙ by_id) (λ db. db)
              (token_there laws c body salt at (moved_to s requested) r user found
                (ap (λ i. e.select (is_user i) s.db.users) its ∙ by_id))
              (sym (length-select laws (is_user user.id) s.db.users) ∙ ap (count (λ _. true)) by_id)
              (no_other laws c body salt at (moved_to s requested) r user found
                (ap (λ i. e.select (is_user i) s.db.users) its ∙ by_id) (omega (arith, sole))) in
          (done, password, sessions, invalid later)

      -- A user with a password who asks for a reset, where what is drawn is unused: the mail has the
      -- link, which is valid for an hour and not after. Completed in that time, with any password, the
      -- user has that password and no session, and the link is invalid at any time.
      pub request-then_complete :
          let (mail, s') = run (password_reset_request c settings email raw id now) s in
          let (done, s'') = run (password_reset_complete c body salt at (λ db. db)) s' in
          (mail ≡ ok (some (send_password_reset_email settings email raw)))
          × (run (password_reset_validate c raw later) s'
              ≡ ((if ltb later (now + reset_ttl) then ok true else err (http 400 "invalid")), s'))
          × (done ≡ ok tt)
          × (tally
                (λ u.
                  is_user user.id u
                  && not (u.password_hash == some (hash_password c salt new_password)))
                s''.db.users
              ≡ 0)
          × (tally (of_user user.id) s''.db.sessions ≡ 0)
          × (run (password_reset_validate c raw later) s'' ≡ (err (http 400 "invalid"), s''))
      request-then_complete =
          let (done, password, sessions, invalid) = completed in
          rw request-requested (refl, validated later, done, password, sessions, invalid)
