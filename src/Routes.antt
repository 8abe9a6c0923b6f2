-- ===== src/Routes.antt =====
-- The routes under /api/v1/lists: each call names a list, passes `require_list_permission` for the
-- action of its route, and then has its body validated and handled. The caller is authenticated.
pub mod Access
pub mod Decisions
pub mod Consistency
pub mod Keeps
pub mod Single
pub mod Overflow
pub mod Removal
pub mod Sharing
mod Tests
use shared_todos.Common.{ℕ, String, Bool, true, false, not, List, map}
use shared_todos.Http.{Result, http}
use shared_todos.Db.{
  Engine, ListRow, Item, Share, Db, Session, Tx, ◌>>=◌, ◌>>◌, pure, raise_if, run,
}
use shared_todos.Authz.Dependencies.{ListPermission, require_list_permission}
use shared_todos.Authz.Permissions.Matrix.{
  Action, action_name, read_list, list_items, create_item, update_item, delete_item, rename_list,
  share_list, change_collaborator_role, revoke_share, delete_list,
}
use shared_todos.Lists
use shared_todos.Lists.{ListOut, list_out_of, ListCreate, ListCreate_accepts}
use shared_todos.Items
use shared_todos.Items.{
  ItemOut, item_out_of, ItemCreate, ItemUpdate, ItemCreate_accepts, ItemUpdate_accepts,
}
use shared_todos.Shares
use shared_todos.Shares.{ShareOut, share_out_of, ShareCreate, role_accepts}

-- a request for one list
pub data Call : Type 0 where
  get_list_call : Call
  rename_list_call : ListCreate → Call
  delete_list_call : Call
  create_item_call : ItemCreate → Call
  list_items_call : Call
  update_item_call : ℕ → ItemUpdate → Call
  delete_item_call : ℕ → Call
  create_share_call : ShareCreate → Call
  list_shares_call : Call
  change_role_call : ℕ → String → Call
  revoke_share_call : ℕ → Call

-- `response_model` of the routes
pub data Response : Type 0 where
  list_out : ListOut → Response
  item_out : ItemOut → Response
  items_out : List ItemOut → Response
  share_out : ShareOut → Response
  shares_out : List ShareOut → Response
  no_content : Response

-- the argument of `require_list_permission` in the call's route
abbrev pub required_action : Call → Action
required_action get_list_call = read_list
required_action (rename_list_call body) = rename_list
required_action delete_list_call = delete_list
required_action (create_item_call body) = create_item
required_action list_items_call = list_items
required_action (update_item_call item_id body) = update_item
required_action (delete_item_call item_id) = delete_item
required_action (create_share_call body) = share_list
required_action list_shares_call = share_list
required_action (change_role_call target role) = change_collaborator_role
required_action (revoke_share_call target) = revoke_share

-- validation of the body by its schema
abbrev pub accepts : Call → Bool
accepts (rename_list_call body) = ListCreate_accepts body
accepts (create_item_call body) = ItemCreate_accepts body
accepts (update_item_call item_id body) = ItemUpdate_accepts body
accepts (create_share_call body) = role_accepts body.role
accepts (change_role_call target role) = role_accepts role
accepts _ = true

-- What a request draws from outside: a new UUID, the time, and what others commit meanwhile.
pub record Draw (e : Engine) : Type 0 where
  pub id : ℕ
  pub now : ℕ
  pub others : Db e → Db e

module _ ⦃e : Engine⦄ where
  unfoldable pub handle : Call → ListPermission → Draw e → Tx e Response
  handle get_list_call perm d = do l ← Lists.get_list perm; pure (list_out (list_out_of l))
  handle (rename_list_call body) perm d = do
    l ← Lists.rename_list body perm d.now
    pure (list_out (list_out_of l))
  handle delete_list_call perm d = do Lists.delete_list perm; pure no_content
  handle (create_item_call body) perm d = do
    i ← Items.create_item body perm d.id d.now
    pure (item_out (item_out_of i))
  handle list_items_call perm d = do
    is ← Items.list_items perm
    pure (items_out (map item_out_of is))
  handle (update_item_call item_id body) perm d = do
    i ← Items.update_item item_id body perm d.now
    pure (item_out (item_out_of i))
  handle (delete_item_call item_id) perm d = do Items.delete_item item_id perm; pure no_content
  handle (create_share_call body) perm d = do
    s ← Shares.create_share body perm d.now d.others
    pure (share_out (share_out_of s))
  handle list_shares_call perm d = do
    ss ← Shares.list_shares perm
    pure (shares_out (map share_out_of ss))
  handle (change_role_call target role) perm d = do
    s ← Shares.change_role target role perm
    pure (share_out (share_out_of s))
  handle (revoke_share_call target) perm d = do Shares.revoke_share target perm; pure no_content

  pub request : Call → ℕ → ℕ → Draw e → Tx e Response
  request call list_id user_id d = do
    perm ← require_list_permission (action_name (required_action call)) list_id user_id
    raise_if (not (accepts call)) (http 422 "Unprocessable Entity")
    handle call perm d

  -- one request, in a session of its own
  unfoldable pub serve : Call → ℕ → ℕ → Draw e → Session e → Result Response × Session e
  unfolding request run
  serve call list_id user_id d = run (request call list_id user_id d)
