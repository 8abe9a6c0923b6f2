-- ===== src/Auth/Register/Outcomes/Password.antt =====
-- The password of a registration is the one that signs in.
use shared_todos.Common.{
  ◌+◌, ◌*◌, String, ◌≡◌, refl, ap, ◌∙◌, Bool, true, false, ◌&&◌, [], ◌∷◌, ◌==◌, nat_eq, string_eq,
  option_eq, ==_refl, and_left, Bool-cases, inl, inr, subst, if◌then◌else◌, arith,
}
use shared_todos.Http.{Result, ok, err, http}
use shared_todos.Db.{
  Engine, IsEngine, tally, User, SessionRow, is_user, has_email, clashes_user, clashes_session,
  Session, ◌>>=◌, scalar_one_or_none, run, moved_to,
}
use shared_todos.Db.Tally.{select-single, tally_mono}
use shared_todos.Config.{Settings}
use shared_todos.Auth.RateLimiter.{check_login_rate_limit}
use shared_todos.Auth.Secrets.{Crypto, hash_token, verify_password, hash_password}
use shared_todos.Auth.Secrets.Matching.{IsCrypto, verify_password-hash_password}
use shared_todos.Auth.Sessions.Lifetime.{opened}
use shared_todos.Auth.Login.{LoginRequest, LoginDraw, Login, user_out, login}
use shared_todos.Auth.Login.Outcomes.{login-let_in}
use shared_todos.Auth.Register.{RegisterRequest, RegisterDraw, new_user, register}
use shared_todos.Auth.Register.Outcomes.{joined, first_session, after_register, register-joined}

module _ ⦃e : Engine⦄ (laws : IsEngine e) (c : Crypto) (settings : Settings)
    (body : RegisterRequest) (d : RegisterDraw) (s : Session e)
    (fresh : tally (clashes_user (new_user c settings body d)) s.db.users ≡ 0) where
  abbrev its : User
  its = new_user c settings body d

  -- all columns of the account
  abbrev is_its : User → Bool
  is_its u =
      u.id == its.id
      && (u.email == its.email
          && (u.display_name == its.display_name
              && (u.password_hash == its.password_hash
                  && (u.google_sub == its.google_sub
                      && (u.created_at == its.created_at && u.updated_at == its.updated_at)))))

  its-is_its : is_its its ≡ true
  its-is_its = ground (
    arith,
    ==_refl its.id,
    ==_refl its.email,
    ==_refl its.display_name,
    ==_refl its.password_hash,
    ==_refl its.google_sub,
    ==_refl its.created_at,
    ==_refl its.updated_at,
  )

  of_is_its : (u : User) → is_its u ≡ true → u ≡ its
  of_is_its u h = ground (arith, h)

  abbrev stored_users : e.Table User
  stored_users = e.insert its s.db.users

  -- a key of the account finds it, and nobody else
  selects_its :
      (key : User → Bool)
      → key its ≡ true
      → ((v : User) → key v ≡ true → clashes_user its v ≡ true)
      → e.select key stored_users ≡ its ∷ []
  selects_its key own clash =
      let none_ : tally key s.db.users ≡ 0 =
        omega (arith, fresh, tally_mono key (clashes_user its) s.db.users clash) in
      let one : tally key stored_users ≡ 1 =
        ground (arith, laws.tally-insert key its s.db.users, none_, own) in
      let both : tally (λ v. key v && is_its v) stored_users ≡ 1 = ground (
        arith,
        laws.tally-insert (λ v. key v && is_its v) its s.db.users,
        none_,
        tally_mono (λ v. key v && is_its v) key s.db.users (λ v. and_left (key v) _),
        own,
        its-is_its,
      ) in
      let (u, found, _, within) = select-single laws key stored_users one in
      found ∙ ap (λ v. v ∷ []) (of_is_its u (ground (arith, within is_its, both)))

  module _
      (unused : tally (clashes_session (first_session laws c settings body d s)) s.db.sessions ≡ 0)
      (documented : IsCrypto c) (draw : LoginDraw) (password : String)
      (open_ : check_login_rate_limit settings draw.ip draw.checked_at s.failed_logins
        ≡ ok tt) where
    abbrev after : Session e
    after =
        moved_to (joined laws c settings body d s)
          (after_register laws c settings body d s fresh unused)

    by_email : e.select (has_email body.email) after.db.users ≡ its ∷ []
    unfolding after_register opened
    by_email = selects_its (has_email body.email) (==_refl body.email) (λ v h. ground arith)

    by_id : e.select (is_user its.id) after.db.users ≡ its ∷ []
    unfolding after_register opened
    by_id = selects_its (is_user its.id) (==_refl its.id) (λ v h. ground arith)

    abbrev pub signing : LoginRequest
    signing = record { email = body.email; password = password }

    -- the row of the session that the login opens
    abbrev pub next_session : SessionRow
    next_session = record {
      id = draw.id;
      user_id = d.user_id;
      token_hash = hash_token c draw.raw_token;
      expires_at = draw.now + settings.session_ttl_days * 86400;
      created_at = draw.now;
    }

    checked :
        verify_password c password (hash_password c d.salt body.password)
        ≡ ok (password == body.password)
    checked = (verify_password-hash_password c documented d.salt body.password password "" "").0

    wrong :
        (password == body.password) ≡ false
        → (run (login c settings signing draw) after).0 ≡ err (http 401 "Invalid credentials")
    unfolding login run ◌>>=◌ scalar_one_or_none
    wrong other = ground (arith, open_, by_email, checked, other)

    left : (run (register c settings body d (λ db. db)) s).1 ≡ after
    left = rw (register-joined laws c settings body d s fresh unused)

    -- Under what argon2 documents: a user who has registered, under a new email and with ids and a token
    -- that are unused, and from an address that the limiter lets through, signs in with the password of
    -- the registration, and with no other.
    pub register-then_login :
        tally
            (clashes_session next_session)
            (run (register c settings body d (λ db. db)) s).1.db.sessions
          ≡ 0
        → (run (login c settings signing draw) (run (register c settings body d (λ db. db)) s).1).0
          ≡ (if password == body.password
              then ok (record { user = user_out its; session = draw.raw_token })
              else err (http 401 "Invalid credentials"))
    register-then_login new =
        let unclashed : tally (clashes_session next_session) after.db.sessions ≡ 0 =
          subst (λ (t : Session e). tally (clashes_session next_session) t.db.sessions ≡ 0) left
            new in
        rw left (elim (Bool-cases (password == body.password)) [
          | inl same ↦
              ap (λ (r : Result Login × Session e). r.0)
                (login-let_in laws c settings signing draw after its
                  (hash_password c d.salt body.password) open_ by_email by_id refl
                  (checked ∙ rw same) unclashed)
              ∙ rw same
          | inr other ↦ wrong other ∙ rw other
        ])
