-- ===== src/Authz/Permissions/Matrix.antt =====
-- The matrix of permissions.py against ranks: a role may do what its rank reaches.
use shared_todos.Common.{ℕ, String, ◌≡◌, refl, Bool, string_eq, leb}
use shared_todos.Http.{ok}
use shared_todos.Authz.Permissions.{Role, owner, editor, viewer, role_name, can_perform}

pub data Action : Type 0 where
  read_list list_items create_item update_item delete_item : Action
  rename_list share_list change_collaborator_role revoke_share delete_list : Action

abbrev pub action_name : Action → String
action_name read_list = "read_list"
action_name list_items = "list_items"
action_name create_item = "create_item"
action_name update_item = "update_item"
action_name delete_item = "delete_item"
action_name rename_list = "rename_list"
action_name share_list = "share_list"
action_name change_collaborator_role = "change_collaborator_role"
action_name revoke_share = "revoke_share"
action_name delete_list = "delete_list"

-- viewer < editor < owner
abbrev pub rank : Role → ℕ
rank viewer = 1
rank editor = 2
rank owner = 3

-- Reading asks for a viewer, changing items for an editor, all else for the owner.
abbrev pub rank_needed : Action → ℕ
rank_needed read_list = 1
rank_needed list_items = 1
rank_needed create_item = 2
rank_needed update_item = 2
rank_needed delete_item = 2
rank_needed _ = 3

abbrev pub permits : Role → Action → Bool
permits role action = leb (rank_needed action) (rank role)

-- A role may do an action exactly when its rank reaches the rank that the action needs.
pub can_perform-permits :
    (role : Role) (action : Action)
    → can_perform (role_name role) (action_name action) ≡ ok (permits role action)
unfolding can_perform string_eq
can_perform-permits owner read_list = refl
can_perform-permits owner _ = refl
can_perform-permits editor read_list = refl
can_perform-permits editor _ = refl
can_perform-permits viewer read_list = refl
can_perform-permits viewer _ = refl
