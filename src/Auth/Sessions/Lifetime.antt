-- ===== src/Auth/Sessions/Lifetime.antt =====
-- How long a session's token opens the door.
use shared_todos.Common.{
  ℕ, ◌+◌, ◌*◌, String, ◌≡◌, refl, ap, ◌∙◌, true, ◌&&◌, some, [], ◌∷◌, nat_eq, string_eq, ltb,
  and_left, ==_refl, Bool-cases, inl, inr, if◌then◌else◌, arith,
}
use shared_todos.Http.{ok, err, http}
use shared_todos.Db.{
  Engine, IsEngine, tally, User, SessionRow, Db, is_user, has_token_hash, clashes_session, Session,
  ◌>>=◌, commit, run, moved_to, apply, apply_all, scalar_one_or_none,
}
use shared_todos.Db.Tally.{select-empty, select-single, tally_mono}
use shared_todos.Db.Invariant.{not_exists-of_tally, tally-delete_all}
use shared_todos.Auth.Secrets.{Crypto, hash_token}
use shared_todos.Auth.Sessions.{
  is_live, of_user, create_session, get_session_user, invalidate_session, require_auth,
}

module _ ⦃e : Engine⦄ (laws : IsEngine e) (c : Crypto) where
  -- a token whose hash no live session has
  pub require_auth-refused :
      (token : String) (now : ℕ) (s : Session e)
      → tally (is_live (hash_token c token) now) s.db.sessions ≡ 0
      → run (require_auth c (some token) now) s
        ≡ (err (http 401 "Not authenticated"), moved_to s s.db)
  unfolding require_auth get_session_user run ◌>>=◌ scalar_one_or_none
  require_auth-refused token now s h =
      ground (arith, select-empty laws (is_live (hash_token c token) now) s.db.sessions h)

  pub require_auth-accepted :
      (token : String) (now : ℕ) (s : Session e) (row : SessionRow) (user : User)
      → e.select (is_live (hash_token c token) now) s.db.sessions ≡ row ∷ []
      → e.select (is_user row.user_id) s.db.users ≡ user ∷ []
      → run (require_auth c (some token) now) s ≡ (ok user, moved_to s s.db)
  unfolding require_auth get_session_user run ◌>>=◌ scalar_one_or_none
  require_auth-accepted token now s row user h k = ground (arith, h, k)

  module _ (user_id ttl_days : ℕ) (raw : String) (id now : ℕ) (s : Session e) where
    abbrev hash : String
    hash = hash_token c raw

    abbrev expires_at : ℕ
    expires_at = now + ttl_days * 86400

    abbrev row : SessionRow
    row = record {
      id = id;
      user_id = user_id;
      token_hash = hash;
      expires_at = expires_at;
      created_at = now;
    }

    unfoldable pub opened : Db e
    opened = record s.db { sessions = e.insert row s.db.sessions }

    module _ (user : User) (known : e.select (is_user user_id) s.db.users ≡ user ∷ [])
        (fresh : tally (clashes_session row) s.db.sessions ≡ 0) where
      pub create_session-opened :
          run (create_session c user_id ttl_days raw id now) s ≡ (ok raw, moved_to s opened)
      unfolding create_session run ◌>>=◌ commit apply_all apply opened
      create_session-opened =
          ground (arith, known, not_exists-of_tally laws (clashes_session row) s.db.sessions fresh)

      unused : tally (has_token_hash hash) s.db.sessions ≡ 0
      unused = omega (
        arith,
        fresh,
        tally_mono (has_token_hash hash) (clashes_session row) s.db.sessions (λ r. ground arith),
      )

      live-opened :
          (later : ℕ)
          → tally (is_live hash later) opened.sessions ≡ (if ltb later expires_at then 1 else 0)
      unfolding opened
      live-opened later = ground (
        arith,
        laws.tally-insert (is_live hash later) row s.db.sessions,
        unused,
        tally_mono (is_live hash later) (has_token_hash hash) s.db.sessions
            (λ r. and_left (has_token_hash hash r) _),
        ==_refl hash,
      )

      own-opened :
          (later : ℕ)
          → ltb later expires_at ≡ true
          → tally (λ r. is_live hash later r && of_user user_id r) opened.sessions ≡ 1
      unfolding opened
      own-opened later h = ground (
        arith,
        laws.tally-insert (λ r. is_live hash later r && of_user user_id r) row s.db.sessions,
        unused,
        tally_mono (λ r. is_live hash later r && of_user user_id r) (has_token_hash hash)
            s.db.sessions (λ r k. ground arith),
        ==_refl hash,
      )

      pub opened-accepts :
          (later : ℕ)
          → ltb later expires_at ≡ true
          → run (require_auth c (some raw) later) (moved_to s opened) ≡ (ok user, moved_to s opened)
      unfolding opened
      opened-accepts later h =
          let (r, found, _, within) =
            select-single laws (is_live hash later) opened.sessions (live-opened later ∙ rw h) in
          let own : r.user_id ≡ user_id =
            ground (arith, within (of_user user_id), own-opened later h) in
          require_auth-accepted raw later (moved_to s opened) r user found
            (ap (λ i. e.select (is_user i) s.db.users) own ∙ known)

      pub opened-lifetime :
          (later : ℕ)
          → run (require_auth c (some raw) later) (moved_to s opened) ≡ (
            (if ltb later expires_at then ok user else err (http 401 "Not authenticated")),
            moved_to s opened,
          )
      opened-lifetime later = elim (Bool-cases (ltb later expires_at)) [
        | inl before ↦ opened-accepts later before ∙ rw before
        | inr over ↦
            require_auth-refused raw later (moved_to s opened) (live-opened later ∙ rw over)
            ∙ rw over
      ]

      -- A session that is opened for a known user, with an unused id and token, lets the user in by its
      -- token until it expires, and nobody from then on.
      pub session-lifetime :
          (later : ℕ)
          → let s' = (run (create_session c user_id ttl_days raw id now) s).1 in
            run (require_auth c (some raw) later) s'
            ≡ ((if ltb later expires_at then ok user else err (http 401 "Not authenticated")), s')
      session-lifetime later = rw create_session-opened (opened-lifetime later)

  module _ (token : String) (s : Session e) where
    pub closed : Db e
    closed = record s.db { sessions = e.delete (has_token_hash (hash_token c token)) s.db.sessions }

    pub invalidate_session-closed : run (invalidate_session c token) s ≡ (ok tt, moved_to s closed)
    unfolding invalidate_session run ◌>>=◌ commit apply_all apply closed
    invalidate_session-closed = refl

    pub closed-refuses :
        (later : ℕ)
        → run (require_auth c (some token) later) (moved_to s closed)
          ≡ (err (http 401 "Not authenticated"), moved_to s closed)
    unfolding closed
    closed-refuses later = require_auth-refused token later (moved_to s closed) (
        tally-delete_all laws (is_live (hash_token c token) later)
          (has_token_hash (hash_token c token)) s.db.sessions
          (λ r. and_left (has_token_hash (hash_token c token) r) _))

    -- A token whose session is invalidated is refused at any time, whatever sessions there were.
    pub invalidate_session-refuses :
        (later : ℕ)
        → let (answer, s') = run (invalidate_session c token) s in
          (answer ≡ ok tt)
          × (run (require_auth c (some token) later) s' ≡ (err (http 401 "Not authenticated"), s'))
    invalidate_session-refuses later = rw invalidate_session-closed (refl, closed-refuses later)
