-- ===== src/Routes/Access.antt =====
-- Who can do what through the routes of a list.
use shared_todos.Common.{ℕ, ◌≡◌, true, false, if◌then◌else◌, arith}
use shared_todos.Http.{err, http}
use shared_todos.Db.{Engine, IsEngine, Session, moved_to, run, ◌>>=◌}
use shared_todos.Authz.Permissions.{Role}
use shared_todos.Authz.Permissions.Matrix.{action_name, permits}
use shared_todos.Authz.Dependencies.Standing.{
  IsStranger, Holds, require_list_permission-stranger, require_list_permission-role,
}
use shared_todos.Routes.{Call, Draw, required_action, accepts, handle, serve}

module _ ⦃e : Engine⦄ (laws : IsEngine e) (call : Call) (list_id user_id : ℕ) (d : Draw e)
    (s : Session e) where
  -- To a stranger every route of a list answers 404, and nothing changes. A list that is not there
  -- makes everybody a stranger, so the answer does not tell whether it is.
  pub serve-stranger :
      IsStranger s.db list_id user_id
      → serve call list_id user_id d s ≡ (err (http 404 "Not found"), moved_to s s.db)
  unfolding serve ◌>>=◌
  serve-stranger h = ground (
    arith,
    require_list_permission-stranger laws (action_name (required_action call)) list_id user_id
        (moved_to s s.db) h,
  )

  -- A caller whose role may not do the action of a call has the same 404, and nothing changes.
  pub serve-refused :
      (role : Role)
      → Holds s.db list_id user_id role
      → permits role (required_action call) ≡ false
      → serve call list_id user_id d s ≡ (err (http 404 "Not found"), moved_to s s.db)
  unfolding serve ◌>>=◌
  serve-refused role h no_right = ground (
    arith,
    require_list_permission-role laws role (required_action call) list_id user_id (moved_to s s.db)
        h,
  )

  pub serve-permitted :
      (role : Role)
      → Holds s.db list_id user_id role
      → permits role (required_action call) ≡ true
      → serve call list_id user_id d s ≡ (
          if accepts call
          then run (handle call (record { list_id = list_id; user_id = user_id; role = role }) d) s
          else (err (http 422 "Unprocessable Entity"), moved_to s s.db))
  unfolding serve ◌>>=◌
  serve-permitted role h right = ground (
    arith,
    require_list_permission-role laws role (required_action call) list_id user_id (moved_to s s.db)
        h,
  )
