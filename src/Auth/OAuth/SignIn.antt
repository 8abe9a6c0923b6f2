-- ===== src/Auth/OAuth/SignIn.antt =====
-- A callback that Google vouches for: whom it signs in.
use shared_todos.Common.{
  ℕ, ◌+◌, ◌*◌, String, ◌≡◌, refl, sym, ap, ◌∙◌, ◌≢◌, Bool, true, not, ◌&&◌, Option, none, some, [],
  ◌∷◌, ◌==◌, nat_eq, string_eq, option_eq, ltb, ==_refl, str_append, count, count_split,
  if◌then◌else◌, arith,
}
use shared_todos.Http.{ok, err, http}
use shared_todos.Db.{
  Engine, IsEngine, tally, User, SessionRow, Db, is_user, clashes_session, Session, ◌>>=◌, commit,
  run, moved_to, apply, apply_all, scalar_one_or_none,
}
use shared_todos.Db.Tally.{length-select, within, tally-ext, tally_mono}
use shared_todos.Db.Invariant.{tally-update_same, not_exists-of_tally, exists-of_tally}
use shared_todos.Config.{Settings}
use shared_todos.Auth.Secrets.{Crypto, hash_token}
use shared_todos.Auth.Sessions.{create_session, require_auth}
use shared_todos.Auth.Sessions.Lifetime.{opened, opened-lifetime}
use shared_todos.Auth.OAuth.{
  Google, OAuthDraw, CallbackRequest, Redirect, is_account, name_of, find_user,
  oauth_google_callback,
}
use shared_todos.Auth.OAuth.Callback.{IsVouched, oauth_google_callback-find_user}

module _ ⦃e : Engine⦄ (laws : IsEngine e) (c : Crypto) (g : Google) (settings : Settings)
    (d : OAuthDraw e) (request : CallbackRequest) (code sub email : String) (s : Session e)
    (vouched : IsVouched g settings request code sub email) (user : User)
    (found : e.select (is_account sub email) s.db.users ≡ user ∷ [])
    (by_id : e.select (is_user user.id) s.db.users ≡ user ∷ []) where
  -- the row of the new session
  abbrev pub new_session : SessionRow
  new_session = record {
    id = d.session_id;
    user_id = user.id;
    token_hash = hash_token c d.raw_token;
    expires_at = d.now + settings.session_ttl_days * 86400;
    created_at = d.now;
  }

  abbrev pub dashboard : Redirect
  dashboard = record {
    location = str_append settings.frontend_url "/dashboard";
    session = some d.raw_token;
  }

  module _ (fresh : tally (clashes_session new_session) s.db.sessions ≡ 0) where
    signed_in : Db e
    signed_in = opened laws c user.id settings.session_ttl_days d.raw_token d.session_id d.now s

    callback-signed_in :
        user.google_sub ≢ none
        → run (oauth_google_callback c g settings d request) s
          ≡ (ok dashboard, moved_to s signed_in)
    unfolding find_user create_session run ◌>>=◌ scalar_one_or_none commit apply_all apply opened
        signed_in
    callback-signed_in linked =
        oauth_google_callback-find_user laws c g settings d request code sub email s vouched
          (name_of email vouched.claims) refl
        ∙ ground (
          arith,
          found,
          by_id,
          linked,
          not_exists-of_tally laws (clashes_session new_session) s.db.sessions fresh,
        )

    -- Where Google vouches for an id and an email (the state is bound to the browser, the exchange
    -- succeeds, the token checks, the email is verified), one user has the id or the email, that user
    -- has a Google account already, and the id and the token drawn for the session are unused: the
    -- callback goes to the dashboard and its new session stands for that user until it expires.
    pub callback-signs_in :
        user.google_sub ≢ none
        → (later : ℕ)
        → let (answer, s') = run (oauth_google_callback c g settings d request) s in
          (answer ≡ ok dashboard)
          × (run (require_auth c (some d.raw_token) later) s' ≡ (
            (if ltb later (d.now + settings.session_ttl_days * 86400)
                then ok user
                else err (http 401 "Not authenticated")),
            s',
          ))
    unfolding signed_in
    callback-signs_in linked later = rw (callback-signed_in linked) (
      refl,
      opened-lifetime laws c user.id settings.session_ttl_days d.raw_token d.session_id d.now s user
          by_id fresh later,
    )

    abbrev linked_to : User → User
    linked_to u = record u { google_sub = some sub; updated_at = d.now }

    linked_in : Db e
    linked_in = record s.db {
      users = e.update (is_user user.id) linked_to s.db.users;
      sessions = e.insert new_session s.db.sessions;
    }

    -- nobody else has the Google id
    no_rival :
        user.google_sub ≡ none
        → tally (λ v. not (v.id == user.id) && v.google_sub == some sub) s.db.users ≡ 0
    no_rival unlinked = ground (
      arith,
      within laws (is_account sub email) s.db.users (λ v. v.google_sub == some sub) found,
      unlinked,
      tally_mono (λ v. not (v.id == user.id) && v.google_sub == some sub)
          (λ v. is_account sub email v && v.google_sub == some sub) s.db.users
          (λ v h. ground arith),
    )

    callback-linked_in :
        user.google_sub ≡ none
        → d.others s.db ≡ s.db
        → run (oauth_google_callback c g settings d request) s
          ≡ (ok dashboard, moved_to s linked_in)
    unfolding find_user create_session run ◌>>=◌ scalar_one_or_none commit apply_all apply linked_in
    callback-linked_in unlinked quiet =
        oauth_google_callback-find_user laws c g settings d request code sub email s vouched
          (name_of email vouched.claims) refl
        ∙ ground (
          arith,
          found,
          unlinked,
          quiet,
          not_exists-of_tally laws (λ v. not (v.id == user.id) && v.google_sub == some sub)
              s.db.users (no_rival unlinked),
          not_exists-of_tally laws (clashes_session new_session) s.db.sessions fresh,
          exists-of_tally laws (is_user user.id) (e.update (is_user user.id) linked_to s.db.users)
              user_there,
        )
      where
        user_there : tally (is_user user.id) (e.update (is_user user.id) linked_to s.db.users) ≢ 0
        user_there h = ground (
          arith,
          h,
          tally-update_same laws (is_user user.id) (is_user user.id) linked_to s.db.users
              (λ r _. refl),
          sym (length-select laws (is_user user.id) s.db.users),
          by_id,
        )

    one_here : tally (is_user user.id) s.db.users ≡ 1
    one_here = sym (length-select laws (is_user user.id) s.db.users) ∙ ap (count (λ _. true)) by_id

    own_sub :
        user.google_sub ≡ none
        → tally (λ u. is_user user.id u && u.google_sub == some sub) linked_in.users ≡ 1
    unfolding linked_in
    own_sub unlinked =
        laws.tally-update (λ u. is_user user.id u && u.google_sub == some sub) (is_user user.id)
          linked_to s.db.users
        ∙ tally-ext _ (is_user user.id) s.db.users (λ u. ground (arith, ==_refl (some sub)))
        ∙ one_here

    one_with_sub :
        user.google_sub ≡ none → tally (λ u. u.google_sub == some sub) linked_in.users ≡ 1
    unfolding linked_in
    one_with_sub unlinked = omega (
      arith,
      one_here,
      no_rival unlinked,
      laws.tally-update (λ u. u.google_sub == some sub) (is_user user.id) linked_to s.db.users,
      count_split (is_user user.id) has_sub_after (e.select (λ _. true) s.db.users),
      tally-ext (λ u. is_user user.id u && has_sub_after u) (is_user user.id) s.db.users
          (λ u. ground (arith, ==_refl (some sub))),
      tally-ext (λ u. not (is_user user.id u) && has_sub_after u)
          (λ v. not (v.id == user.id) && v.google_sub == some sub) s.db.users (λ u. ground arith),
    )
      where
        has_sub_after : User → Bool
        has_sub_after u = (if is_user user.id u then linked_to u else u).google_sub == some sub

    same_passwords :
        (q : Option String → Bool)
        → tally (λ u. q u.password_hash) linked_in.users ≡ tally (λ u. q u.password_hash) s.db.users
    unfolding linked_in
    same_passwords q =
        tally-update_same laws (λ u. q u.password_hash) (is_user user.id) linked_to s.db.users
          (λ r _. refl)

    -- Where Google vouches for an email whose user, the only one with the Google id or the email, has
    -- no Google account yet, what is drawn for the session is unused, and nothing is committed in
    -- between: the callback goes to the dashboard, and the user, and nobody else, has this Google id
    -- from then on. Passwords stay as they were.
    pub callback-links :
        user.google_sub ≡ none
        → d.others s.db ≡ s.db
        → let (answer, s') = run (oauth_google_callback c g settings d request) s in
          (answer ≡ ok dashboard)
          × (tally (λ u. u.google_sub == some sub) s'.db.users ≡ 1)
          × (tally (λ u. is_user user.id u && u.google_sub == some sub) s'.db.users ≡ 1)
          × ((q : Option String → Bool)
              → tally (λ u. q u.password_hash) s'.db.users
                ≡ tally (λ u. q u.password_hash) s.db.users)
    unfolding linked_in
    callback-links unlinked quiet =
        rw (callback-linked_in unlinked quiet)
          (refl, one_with_sub unlinked, own_sub unlinked, same_passwords)
