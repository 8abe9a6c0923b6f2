-- ===== src/Auth/Sessions/Single.antt =====
-- In a sound database no operation on sessions ends in MultipleResultsFound.
use shared_todos.Common.{
  ℕ, String, ◌≤◌, refl, Bool, true, Option, none, some, List, [], ◌∷◌, ltb, count-append, arith,
}
use shared_todos.Db.{Engine, IsEngine, User, SessionRow, Db, is_user}
use shared_todos.Db.Single.{
  Single, Single-pure, Single-raise, Single-if, Single-bind, Single-found, Single-write-then,
  Single-commit, Single-commit-then, rows,
}
use shared_todos.Db.Invariant.Sound.{IsSound, apply-IsSound}
use shared_todos.Db.Invariant.Lookups.{rows_of_user, rows_of_session}
use shared_todos.Db.Keeps.{Keeps-bind, Keeps-query, Keeps-lift}
use shared_todos.Auth.Secrets.{Crypto, hash_token}
use shared_todos.Auth.Sessions.{
  join_users, create_session, get_session_user, invalidate_session, invalidate_all_user_sessions,
  or_401, require_auth,
}

module _ ⦃e : Engine⦄ (laws : IsEngine e) (c : Crypto) where
  pub Single-create_session :
      (user_id ttl_days : ℕ) (raw : String) (id now : ℕ)
      → Single IsSound (create_session c user_id ttl_days raw id now)
  unfolding create_session
  Single-create_session user_id ttl_days raw id now =
      Single-write-then _ _ (Single-commit-then IsSound (apply-IsSound laws) _ (Single-pure _))

  -- a session has at most one user
  rows-join_users :
      (db : Db e)
      → IsSound db
      → (ss : List SessionRow) → rows ss ≤ 1
      → rows (join_users c ss db) ≤ 1
  rows-join_users db h [] one = omega arith
  rows-join_users db h (s ∷ []) one = omega (
    arith,
    count-append (λ _. true) (e.select (is_user s.user_id) db.users) [],
    rows_of_user laws db h s.user_id,
  )
  rows-join_users db h (s ∷ t ∷ ss) one = omega (arith, one)

  Single-or_401 : (user : Option User) → Single IsSound (or_401 c user)
  unfolding or_401
  Single-or_401 none = Single-raise _ refl
  Single-or_401 (some user) = Single-pure user

  pub Single-require_auth :
      (session : Option String) (now : ℕ) → Single IsSound (require_auth c session now)
  unfolding require_auth get_session_user
  Single-require_auth none now = Single-raise _ refl
  Single-require_auth (some session) now =
      Single-bind _ _ (Keeps-bind _ _ (Keeps-query _) λ found. Keeps-lift _)
        (Single-found _ λ db h.
          rows-join_users db h _
            (rows_of_session laws db h (hash_token c session) (λ s. ltb now s.expires_at)))
        Single-or_401

  pub Single-invalidate_session : (token : String) → Single IsSound (invalidate_session c token)
  unfolding invalidate_session
  Single-invalidate_session token =
      Single-write-then _ _ (Single-commit IsSound (apply-IsSound laws))

  pub Single-invalidate_all_user_sessions :
      (user_id : ℕ) (do_commit : Bool)
      → Single IsSound (invalidate_all_user_sessions c user_id do_commit)
  unfolding invalidate_all_user_sessions
  Single-invalidate_all_user_sessions user_id do_commit =
      Single-write-then _ _
        (Single-if _ _ _ (Single-commit IsSound (apply-IsSound laws)) (Single-pure tt))
