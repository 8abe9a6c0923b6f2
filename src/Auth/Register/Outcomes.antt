-- ===== src/Auth/Register/Outcomes.antt =====
-- What registering does when the email is taken, and when it is new.
pub mod Password
use shared_todos.Common.{
  ℕ, ◌+◌, ◌*◌, ◌≡◌, refl, ◌∙◌, Bool, true, ◌&&◌, none, some, [], ◌∷◌, ◌==◌, nat_eq, string_eq,
  option_eq, ltb, and_left, ==_refl, eq_of_==, if◌then◌else◌, arith,
}
use shared_todos.Http.{ok, err, http}
use shared_todos.Db.{
  Engine, IsEngine, tally, User, SessionRow, Db, is_user, has_email, has_token_hash, clashes_user,
  clashes_session, Session, ◌>>=◌, commit, run, moved_to, apply, apply_all, scalar_one_or_none,
  scalar_one,
}
use shared_todos.Db.Tally.{select-empty, select-single, tally_mono, tally-ext}
use shared_todos.Db.Invariant.{not_exists-of_tally}
use shared_todos.Config.{Settings}
use shared_todos.Auth.Secrets.{Crypto, hash_token}
use shared_todos.Auth.Sessions.{is_live, create_session, require_auth}
use shared_todos.Auth.Sessions.Lifetime.{opened, opened-lifetime, require_auth-refused}
use shared_todos.Auth.Login.{user_out}
use shared_todos.Auth.Register.{RegisterRequest, RegisterDraw, new_user, register}

module _ ⦃e : Engine⦄ (c : Crypto) (settings : Settings) (body : RegisterRequest) (d : RegisterDraw)
    (s : Session e) where
  -- A taken email: nothing is written, and no user is in the answer.
  pub register-taken :
      (user : User)
      → e.select (has_email body.email) s.db.users ≡ user ∷ []
      → run (register c settings body d (λ db. db)) s ≡ (
        ok (record {
          user = none;
          message = "If this email is available, your account has been created.";
          session = d.raw_token;
        }),
        moved_to s s.db,
      )
  unfolding register run ◌>>=◌ scalar_one_or_none
  register-taken user h = ground (arith, h)

module _ ⦃e : Engine⦄ (laws : IsEngine e) (c : Crypto) (settings : Settings)
    (body : RegisterRequest) (d : RegisterDraw) (s : Session e) where
  abbrev account : User
  account = new_user c settings body d

  -- the session once the user is stored
  abbrev joined : Session e
  joined = moved_to s (record s.db { users = e.insert account s.db.users })

  -- the row of the first session
  abbrev pub first_session : SessionRow
  first_session = record {
    id = d.session_id;
    user_id = d.user_id;
    token_hash = hash_token c d.raw_token;
    expires_at = d.now + settings.session_ttl_days * 86400;
    created_at = d.now;
  }

  module _ (fresh : tally (clashes_user account) s.db.users ≡ 0)
      (unused : tally (clashes_session first_session) s.db.sessions ≡ 0) where
    no_email : tally (has_email body.email) s.db.users ≡ 0
    no_email = omega (
      arith,
      fresh,
      tally_mono (has_email body.email) (clashes_user account) s.db.users (λ u h. ground arith),
    )

    one_account :
        (q : User → Bool)
        → q account ≡ true
        → tally (λ u. is_user d.user_id u && q u) joined.db.users ≡ 1
    one_account q h = ground (
      arith,
      h,
      ==_refl d.user_id,
      fresh,
      laws.tally-insert (λ u. is_user d.user_id u && q u) account s.db.users,
      tally_mono (λ u. is_user d.user_id u && q u) (clashes_user account) s.db.users
          (λ u k. ground arith),
    )

    abbrev shows_account : User → Bool
    shows_account u = u.email == account.email && u.display_name == account.display_name

    -- the account as a query finds it
    stored :
        (u : User) × (e.select (is_user d.user_id) joined.db.users ≡ u ∷ [])
        × (user_out u ≡ user_out account)
    stored =
        let (u, found, own, within) = select-single laws (is_user d.user_id) joined.db.users (
          tally-ext (is_user d.user_id) (λ v. is_user d.user_id v && true) joined.db.users
            (λ v. ground arith)
          ∙ one_account (λ _. true) refl) in
        let shown : shows_account u ≡ true = ground (
          arith,
          within shows_account,
          one_account shows_account
              (ground (arith, ==_refl body.email, ==_refl account.display_name)),
        ) in
        (u, found, ground (arith, eq_of_== u.id d.user_id own, shown))

    after_register : Db e
    after_register =
        opened laws c d.user_id settings.session_ttl_days d.raw_token d.session_id d.now joined

    register-joined : run (register c settings body d (λ db. db)) s ≡ (
      ok (record {
        user = some (user_out account);
        message = "Account created successfully.";
        session = d.raw_token;
      }),
      moved_to joined after_register,
    )
    unfolding register create_session run ◌>>=◌ scalar_one_or_none scalar_one commit apply_all apply
        opened after_register
    register-joined =
        let (u, found, shown) = stored in
        ground (
          arith,
          select-empty laws (has_email body.email) s.db.users no_email,
          not_exists-of_tally laws (clashes_user account) s.db.users fresh,
          not_exists-of_tally laws (clashes_session first_session) s.db.sessions unused,
          found,
          shown,
        )

    -- A new email, where the drawn ids and the token are fresh too: the answer shows the user, whose
    -- row is stored, and the cookie's token stands for that row until it expires, and not after.
    pub register-new :
        (later : ℕ)
        → let (answer, s') = run (register c settings body d (λ db. db)) s in
          (answer
            ≡ ok (record {
              user = some (user_out account);
              message = "Account created successfully.";
              session = d.raw_token;
            }))
          × ((user : User) × (e.select (is_user d.user_id) s'.db.users ≡ user ∷ [])
              × (user_out user ≡ user_out account)
              × (run (require_auth c (some d.raw_token) later) s' ≡ (
                (if ltb later (d.now + settings.session_ttl_days * 86400)
                    then ok user
                    else err (http 401 "Not authenticated")),
                s',
              )))
    unfolding after_register opened
    register-new later =
        let (user, found, shown) = stored in
        rw register-joined (
          refl,
          (
            user,
            found,
            shown,
            opened-lifetime laws c d.user_id settings.session_ttl_days d.raw_token d.session_id
                d.now joined user found unused later,
          ),
        )

  -- Where the email is taken, and no session has the drawn token's hash: the answer names no user,
  -- nothing is stored, and the token of the cookie is refused at any time.
  pub register-decoy :
      (user : User)
      → e.select (has_email body.email) s.db.users ≡ user ∷ []
      → tally (has_token_hash (hash_token c d.raw_token)) s.db.sessions ≡ 0
      → (later : ℕ)
      → let (answer, s') = run (register c settings body d (λ db. db)) s in
        (answer
          ≡ ok (record {
            user = none;
            message = "If this email is available, your account has been created.";
            session = d.raw_token;
          }))
        × (s'.db ≡ s.db)
        × (run (require_auth c (some d.raw_token) later) s'
            ≡ (err (http 401 "Not authenticated"), s'))
  register-decoy user taken unused later = rw (register-taken c settings body d s user taken) (
    refl,
    refl,
    require_auth-refused laws c d.raw_token later (moved_to s s.db) (
        omega (
          arith,
          unused,
          tally_mono (is_live (hash_token c d.raw_token) later)
              (has_token_hash (hash_token c d.raw_token)) s.db.sessions
              (λ r. and_left (has_token_hash (hash_token c d.raw_token) r) _),
        )),
  )
