-- ===== src/Authz/Dependencies.antt =====
-- app/authz/dependencies.py: a caller's role on a list, or a 404.
pub mod Standing
pub mod Access
use shared_todos.Common.{
  ◌≡◌, arith, ℕ, String, Bool, ◌&&◌, Option, none, some, map, ◌==◌, nat_eq, is_some, if◌then◌else◌,
}
use shared_todos.Http.{http}
use shared_todos.Db.{
  Engine, ListRow, Share, is_share, Session, Tx, ◌>>=◌, pure, raise, lift, query,
  scalar_one_or_none,
}
use shared_todos.Authz.Permissions.{Role, role_name, effective_role, can_perform}

pub record ListPermission : Type 0 where
  pub list_id : ℕ
  pub user_id : ℕ
  pub role : Role

-- `List.id == list_id, List.owner_id == user.id`
abbrev pub is_owned : ℕ → ℕ → ListRow → Bool
is_owned list_id user_id l = l.id == list_id && l.owner_id == user_id

module _ ⦃e : Engine⦄ where
  -- `role is None or not can_perform(role, required_action)`
  check_role : Option Role → String → Tx e Role
  check_role none action = raise (http 404 "Not found")
  check_role (some role) action = do
    allowed ← lift (can_perform (role_name role) action)
    if allowed then pure role else raise (http 404 "Not found")

  unfoldable pub require_list_permission : String → ℕ → ℕ → Tx e ListPermission
  unfolding check_role
  require_list_permission action list_id user_id = do
    owned ← query (λ db. map (λ (l : ListRow). l.id) (e.select (is_owned list_id user_id) db.lists))
    owner ← lift (scalar_one_or_none owned)
    shared ←
        query (λ db. map (λ (s : Share). s.role) (e.select (is_share list_id user_id) db.shares))
    share_role ← lift (scalar_one_or_none shared)
    effective ← lift (effective_role (is_some owner) share_role)
    role ← check_role effective action
    pure (record { list_id = list_id; user_id = user_id; role = role })

  -- The check only reads.
  pub session-require_list_permission :
      (action : String) (list_id user_id : ℕ) (s : Session e)
      → (require_list_permission action list_id user_id s).1 ≡ s
  unfolding require_list_permission ◌>>=◌
  session-require_list_permission action list_id user_id s = ground arith
