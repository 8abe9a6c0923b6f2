-- ===== src/Routes/Decisions.antt =====
-- A whole request to a list, decided by the access map; and what a caller who is not the owner leaves.
pub mod Items
use shared_todos.Common.{
  ℕ, ◌≡◌, ◌≢◌, refl, ◌∙◌, Bool, true, false, Option, none, some, if◌then◌else◌, arith, Bool-cases,
  inl, inr,
}
use shared_todos.Http.{Result, ok, err, http}
use shared_todos.Db.{Engine, IsEngine, Session, moved_to, run, ◌>>=◌}
use shared_todos.Db.Invariant.{IsConsistent}
use shared_todos.Authz.Permissions.{Role, owner, editor, viewer}
use shared_todos.Authz.Permissions.Matrix.{action_name, permits}
use shared_todos.Authz.Dependencies.{require_list_permission}
use shared_todos.Authz.Dependencies.Access.{role_on, decided, require_list_permission-role_on}
use shared_todos.Routes.Decisions.Items.{rest, run-handle}
use shared_todos.Routes.{Call, Response, Draw, required_action, accepts, handle, serve}

module _ ⦃e : Engine⦄ (call : Call) (list_id user_id : ℕ) (d : Draw e) (s : Session e) where
  -- the answer for a caller of each role, and of none
  abbrev pub admitted : Option Role → Result Response × Session e
  admitted none = (err (http 404 "Not found"), moved_to s s.db)
  admitted (some role) =
      if permits role (required_action call)
      then (if accepts call
          then run (handle call (record { list_id = list_id; user_id = user_id; role = role }) d) s
          else (err (http 422 "Unprocessable Entity"), moved_to s s.db))
      else (err (http 404 "Not found"), moved_to s s.db)

  serve-admitted :
      (role : Option Role)
      → require_list_permission
          (action_name (required_action call))
          list_id
          user_id
          (moved_to s s.db)
        ≡ (decided list_id user_id role (required_action call), moved_to s s.db)
      → serve call list_id user_id d s ≡ admitted role
  unfolding serve ◌>>=◌
  serve-admitted none h = ground (arith, h)
  serve-admitted (some role) h = ground (arith, h)

module _ ⦃e : Engine⦄ (laws : IsEngine e) (call : Call) (list_id user_id : ℕ) (d : Draw e)
    (s : Session e) (h : IsConsistent s.db) where
  -- In a consistent database every request to a list goes by the access map: without a role it ends in
  -- a 404, and so it does with a role that may not do the action; then a body that its schema refuses
  -- ends in a 422, and none of these changes anything; any other request is its handler's.
  pub serve-role_on :
      serve call list_id user_id d s
      ≡ admitted call list_id user_id d s (role_on s.db list_id user_id)
  serve-role_on = serve-admitted call list_id user_id d s (role_on s.db list_id user_id) (
      require_list_permission-role_on laws (moved_to s s.db) list_id user_id h
        (required_action call))

  guarded :
      (role : Role) (may fits : Bool)
      → (may ≡ true → permits editor (required_action call) ≡ true)
      → rest
          (if may
            then (if fits
                then run
                    (handle call (record { list_id = list_id; user_id = user_id; role = role }) d)
                    s
                else (err (http 422 "Unprocessable Entity"), moved_to s s.db))
            else (err (http 404 "Not found"), moved_to s s.db)).1.db
        ≡ rest s.db
  guarded role true true k = run-handle call _ d s (k refl)
  guarded role true false k = refl
  guarded role false fits k = refl

  viewer_below :
      permits viewer (required_action call) ≡ true → permits editor (required_action call) ≡ true
  viewer_below k = ground (arith, k)

  -- A caller who is not the owner of the list changes nothing but items: users, lists, shares, sessions
  -- and reset tokens are as they were, whatever the call and however it ends.
  pub serve-not_owner :
      role_on s.db list_id user_id ≢ some owner
      → rest (serve call list_id user_id d s).1.db ≡ rest s.db
  serve-not_owner other = rw serve-role_on (by_role (role_on s.db list_id user_id) other)
    where
      by_role :
          (role : Option Role)
          → role ≢ some owner
          → rest (admitted call list_id user_id d s role).1.db ≡ rest s.db
      by_role none n = refl
      by_role (some owner) n = absurd (n refl)
      by_role (some editor) n =
          guarded editor (permits editor (required_action call)) (accepts call) (λ k. k)
      by_role (some viewer) n =
          guarded viewer (permits viewer (required_action call)) (accepts call) viewer_below
