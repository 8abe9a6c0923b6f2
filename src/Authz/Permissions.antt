-- ===== src/Authz/Permissions.antt =====
-- app/authz/permissions.py: the matrix of roles and actions.
pub mod Matrix
use shared_todos.Common.{
  String, Bool, true, false, Option, none, some, List, [], ◌∷◌, ◌++◌, ◌==◌, contains, string_eq,
  if◌then◌else◌,
}
use shared_todos.Http.{Result, ok, err, value_error, ◌>>◌, require}

-- `Literal["owner", "editor", "viewer"]`
pub data Role : Type 0 where
  owner editor viewer : Role

abbrev pub role_name : Role → String
role_name owner = "owner"
role_name editor = "editor"
role_name viewer = "viewer"

abbrev pub owner_actions : List String
owner_actions =
    "read_list" ∷ "list_items" ∷ "create_item" ∷ "update_item" ∷ "delete_item" ∷ "rename_list"
    ∷ "share_list" ∷ "change_collaborator_role" ∷ "revoke_share" ∷ "delete_list" ∷ []

abbrev pub editor_actions : List String
editor_actions = "read_list" ∷ "list_items" ∷ "create_item" ∷ "update_item" ∷ "delete_item" ∷ []

abbrev pub viewer_actions : List String
viewer_actions = "read_list" ∷ "list_items" ∷ []

-- `_ALLOWED.get(role, frozenset())`
unfoldable pub allowed : String → List String
allowed role =
    if role == "owner"
    then owner_actions
    else if role == "editor"
    then editor_actions
    else if role == "viewer"
    then viewer_actions
    else []

unfoldable pub all_actions : List String
all_actions = owner_actions ++ editor_actions ++ viewer_actions

unfoldable pub effective_role : Bool → Option String → Result (Option Role)
effective_role true share_role = ok (some owner)
effective_role false (some role) =
    if role == "editor"
    then ok (some editor)
    else if role == "viewer"
    then ok (some viewer)
    else err (value_error "unknown share_role")
effective_role false none = ok none

unfoldable pub can_perform : String → String → Result Bool
unfolding allowed all_actions
can_perform role action = do
  require (contains all_actions action) (value_error "unknown action")
  ok (contains (allowed role) action)
