-- ===== src/Routes/Single.antt =====
-- In a sound database no request to a list ends in MultipleResultsFound.
use shared_todos.Common.{ℕ, String, ◌≡◌, refl, false, Option, none, some, nat_eq, arith}
use shared_todos.Db.{Engine, IsEngine, Db, query, lift, or_404, ◌>>=◌, scalar_one_or_none, has_id}
use shared_todos.Db.Single.{
  Single, Single-pure, Single-query, Single-bind, Single-answer, Single-find, Single-refresh,
  Single-write-then, Single-raise_if-then, Single-commit, Single-commit-then, Single-meanwhile-then,
  Single-or_404, ambiguous,
}
use shared_todos.Db.Keeps.{Keeps-or_404, keeps_rules}
use shared_todos.Db.Invariant.Sound.{IsSound, apply-IsSound}
use shared_todos.Db.Invariant.Lookups.{rows_of_list, rows_of_item, rows_of_share, rows_of_user}
use shared_todos.Authz.Dependencies.{ListPermission, require_list_permission}
use shared_todos.Authz.Permissions.{Role}
use shared_todos.Authz.Permissions.Matrix.{Action, action_name}
use shared_todos.Authz.Dependencies.Access.{decided, role_on, require_list_permission-role_on}
use shared_todos.Shares.Single.{Single-commit_or_refuse}
use shared_todos.Routes.Keeps.{Keeps-commit_or_refuse, Keeps-require_list_permission}
use shared_todos.Lists
use shared_todos.Lists.{ListCreate}
use shared_todos.Items
use shared_todos.Items.{ItemCreate, ItemUpdate}
use shared_todos.Shares
use shared_todos.Shares.{ShareCreate}
use shared_todos.Routes.{
  Call, get_list_call, rename_list_call, delete_list_call, create_item_call, list_items_call,
  update_item_call, delete_item_call, create_share_call, list_shares_call, change_role_call,
  revoke_share_call, required_action, Draw, handle, request, serve,
}

module _ ⦃e : Engine⦄ where
  ambiguous-decided :
      (list_id user_id : ℕ) (role : Option Role) (action : Action)
      → ambiguous (decided list_id user_id role action) ≡ false
  ambiguous-decided list_id user_id none action = refl
  ambiguous-decided list_id user_id (some role) action = ground arith

module _ ⦃e : Engine⦄ (laws : IsEngine e) where
  pub Single-create_list :
      (body : ListCreate) (user_id id now : ℕ)
      → Single IsSound (Lists.create_list body user_id id now)
  unfolding Lists.create_list
  Single-create_list body user_id id now = Single-write-then _ _ (
      Single-commit-then IsSound (apply-IsSound laws) _
        (Single-refresh _ λ db h. rows_of_list laws db h id))

  -- the row of a list, or a 404
  Single-list_or_404 :
      (list_id : ℕ)
      → Single IsSound (
          query (λ db. e.select (has_id list_id) db.lists) >>= λ found.
          lift (scalar_one_or_none found) >>= or_404)
  Single-list_or_404 list_id =
      Single-find _ _ (λ db h. rows_of_list laws db h list_id) λ o. Single-or_404 o

  Single-rename_list :
      (body : ListCreate) (perm : ListPermission) (now : ℕ)
      → Single IsSound (Lists.rename_list body perm now)
  unfolding Lists.rename_list
  Single-rename_list body perm now =
      Single-bind _ _ (search keeps_rules) (Single-list_or_404 perm.list_id) λ lst.
        Single-write-then _ _ (
          Single-commit-then IsSound (apply-IsSound laws) _
            (Single-refresh _ λ db h. rows_of_list laws db h lst.id))

  Single-delete_list : (perm : ListPermission) → Single IsSound (Lists.delete_list perm)
  unfolding Lists.delete_list
  Single-delete_list perm =
      Single-bind _ _ (search keeps_rules) (Single-list_or_404 perm.list_id)
        λ lst. Single-write-then _ _ (Single-commit IsSound (apply-IsSound laws))

  Single-get_list : (perm : ListPermission) → Single IsSound (Lists.get_list perm)
  unfolding Lists.get_list
  Single-get_list perm = Single-list_or_404 perm.list_id

  Single-create_item :
      (body : ItemCreate) (perm : ListPermission) (id now : ℕ)
      → Single IsSound (Items.create_item body perm id now)
  unfolding Items.create_item
  Single-create_item body perm id now = Single-write-then _ _ (
      Single-commit-then IsSound (apply-IsSound laws) _
        (Single-refresh _ λ db h. rows_of_item laws db h id))

  Single-update_item :
      (item_id : ℕ) (body : ItemUpdate) (perm : ListPermission) (now : ℕ)
      → Single IsSound (Items.update_item item_id body perm now)
  unfolding Items.update_item
  Single-update_item item_id body perm now =
      Single-bind _ _ (search keeps_rules)
        (Single-find _ _ (λ db h. rows_of_item laws db h item_id)
          λ o.
            Single-bind _ _ (Keeps-or_404 o) (Single-or_404 o)
              λ it. Single-raise_if-then _ _ _ refl (Single-pure it))
        λ item. Single-write-then _ _ (
          Single-commit-then IsSound (apply-IsSound laws) _
            (Single-refresh _ λ db h. rows_of_item laws db h item.id))

  -- the row of an item of the list, or a 404
  Single-delete_item :
      (item_id : ℕ) (perm : ListPermission) → Single IsSound (Items.delete_item item_id perm)
  unfolding Items.delete_item
  Single-delete_item item_id perm =
      Single-bind _ _ (search keeps_rules)
        (Single-find _ _ (λ db h. rows_of_item laws db h item_id)
          λ o.
            Single-bind _ _ (Keeps-or_404 o) (Single-or_404 o)
              λ it. Single-raise_if-then _ _ _ refl (Single-pure it))
        λ item. Single-write-then _ _ (Single-commit IsSound (apply-IsSound laws))

  Single-list_items : (perm : ListPermission) → Single IsSound (Items.list_items perm)
  unfolding Items.list_items
  Single-list_items perm = Single-query _

  Single-create_share :
      (body : ShareCreate) (perm : ListPermission) (now : ℕ) (others : Db e → Db e)
      → ((db : Db e) → IsSound db → IsSound (others db))
      → Single IsSound (Shares.create_share body perm now others)
  unfolding Shares.create_share
  Single-create_share body perm now others k = Single-raise_if-then _ _ _ refl (
      Single-find _ _ (λ db h. rows_of_user laws db h body.user_id)
        λ target. Single-raise_if-then _ _ _ refl (
          Single-find _ _ (λ db h. rows_of_share laws db h perm.list_id body.user_id)
            λ existing. Single-raise_if-then _ _ _ refl (
              Single-write-then _ _ (
                Single-meanwhile-then _ _ k (
                  Single-bind _ _ (Keeps-commit_or_refuse IsSound (apply-IsSound laws))
                    (Single-commit_or_refuse IsSound (apply-IsSound laws))
                    λ _.
                      Single-refresh _
                        λ db h. rows_of_share laws db h perm.list_id body.user_id)))))

  Single-list_shares : (perm : ListPermission) → Single IsSound (Shares.list_shares perm)
  unfolding Shares.list_shares
  Single-list_shares perm = Single-query _

  Single-change_role :
      (target : ℕ) (role : String) (perm : ListPermission)
      → Single IsSound (Shares.change_role target role perm)
  unfolding Shares.change_role
  Single-change_role target role perm =
      Single-bind _ _ (search keeps_rules)
        (Single-find _ _ (λ db h. rows_of_share laws db h perm.list_id target) λ o. Single-or_404 o)
        λ share. Single-write-then _ _ (
          Single-commit-then IsSound (apply-IsSound laws) _
            (Single-refresh _ λ db h. rows_of_share laws db h perm.list_id target))

  Single-revoke_share :
      (target : ℕ) (perm : ListPermission) → Single IsSound (Shares.revoke_share target perm)
  unfolding Shares.revoke_share
  Single-revoke_share target perm =
      Single-bind _ _ (search keeps_rules)
        (Single-find _ _ (λ db h. rows_of_share laws db h perm.list_id target) λ o. Single-or_404 o)
        λ share. Single-write-then _ _ (Single-commit IsSound (apply-IsSound laws))

  Single-require_list_permission :
      (action : Action) (list_id user_id : ℕ)
      → Single IsSound (require_list_permission (action_name action) list_id user_id)
  Single-require_list_permission action list_id user_id = record {
    at = λ s h.
        rw (require_list_permission-role_on laws s list_id user_id h.consistent action)
          (ambiguous-decided list_id user_id (role_on s.db list_id user_id) action);
  }

  module _ (perm : ListPermission) (d : Draw e)
      (k : (db : Db e) → IsSound db → IsSound (d.others db)) where
    Single-handle : (call : Call) → Single IsSound (handle call perm d)
    unfolding handle
    Single-handle get_list_call = Single-answer _ _ (Single-get_list perm)
    Single-handle (rename_list_call body) = Single-answer _ _ (Single-rename_list body perm d.now)
    Single-handle delete_list_call = Single-answer _ _ (Single-delete_list perm)
    Single-handle (create_item_call body) =
        Single-answer _ _ (Single-create_item body perm d.id d.now)
    Single-handle list_items_call = Single-answer _ _ (Single-list_items perm)
    Single-handle (update_item_call item_id body) =
        Single-answer _ _ (Single-update_item item_id body perm d.now)
    Single-handle (delete_item_call item_id) = Single-answer _ _ (Single-delete_item item_id perm)
    Single-handle (create_share_call body) =
        Single-answer _ _ (Single-create_share body perm d.now d.others k)
    Single-handle list_shares_call = Single-answer _ _ (Single-list_shares perm)
    Single-handle (change_role_call target role) =
        Single-answer _ _ (Single-change_role target role perm)
    Single-handle (revoke_share_call target) = Single-answer _ _ (Single-revoke_share target perm)

  pub Single-request :
      (call : Call) (list_id user_id : ℕ) (d : Draw e)
      → ((db : Db e) → IsSound db → IsSound (d.others db))
      → Single IsSound (request call list_id user_id d)
  unfolding serve
  Single-request call list_id user_id d k =
      Single-bind _ _ (Keeps-require_list_permission IsSound (apply-IsSound laws) _ list_id user_id)
        (Single-require_list_permission (required_action call) list_id user_id)
        λ perm. Single-raise_if-then _ _ _ refl (Single-handle perm d k call)
