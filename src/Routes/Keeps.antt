-- ===== src/Routes/Keeps.antt =====
-- What every accepted write keeps, every request to a list keeps.
use shared_todos.Common.{ℕ, String}
use shared_todos.Db.{Engine, Db}
use shared_todos.Db.Keeps.{
  Keeps, Keeps-run, Keeps-query, Keeps-lift, Keeps-raise_if-then, Keeps-meanwhile-then, Keeps-bind,
  Keeps-write-then, keeps_rules, Keeps-commit, Keeps-commit-then, IsStable,
}
use shared_todos.Authz.Dependencies.{
  ListPermission, require_list_permission, session-require_list_permission,
}
use shared_todos.Lists
use shared_todos.Lists.{ListCreate}
use shared_todos.Items
use shared_todos.Items.{ItemCreate, ItemUpdate}
use shared_todos.Shares
use shared_todos.Shares.{ShareCreate}
use shared_todos.Routes.{Call, get_list_call, Draw, handle, request, serve}

module _ ⦃e : Engine⦄ (P : Db e → Type 0) (stable : IsStable P) where
  pub Keeps-create_list :
      (body : ListCreate) (user_id id now : ℕ) → Keeps P (Lists.create_list body user_id id now)
  unfolding Lists.create_list
  Keeps-create_list body user_id id now =
      Keeps-write-then _ _ (Keeps-commit-then P stable _ (search keeps_rules))

  Keeps-rename_list :
      (body : ListCreate) (perm : ListPermission) (now : ℕ)
      → Keeps P (Lists.rename_list body perm now)
  unfolding Lists.rename_list
  Keeps-rename_list body perm now =
      Keeps-bind _ _ (search keeps_rules)
        λ lst. Keeps-write-then _ _ (Keeps-commit-then P stable _ (search keeps_rules))

  Keeps-delete_list : (perm : ListPermission) → Keeps P (Lists.delete_list perm)
  unfolding Lists.delete_list
  Keeps-delete_list perm =
      Keeps-bind _ _ (search keeps_rules) λ lst. Keeps-write-then _ _ (Keeps-commit P stable)

  Keeps-get_list : (perm : ListPermission) → Keeps P (Lists.get_list perm)
  unfolding Lists.get_list
  Keeps-get_list perm = search keeps_rules

  Keeps-create_item :
      (body : ItemCreate) (perm : ListPermission) (id now : ℕ)
      → Keeps P (Items.create_item body perm id now)
  unfolding Items.create_item
  Keeps-create_item body perm id now =
      Keeps-write-then _ _ (Keeps-commit-then P stable _ (search keeps_rules))

  Keeps-update_item :
      (item_id : ℕ) (body : ItemUpdate) (perm : ListPermission) (now : ℕ)
      → Keeps P (Items.update_item item_id body perm now)
  unfolding Items.update_item
  Keeps-update_item item_id body perm now =
      Keeps-bind _ _ (search keeps_rules)
        λ item. Keeps-write-then _ _ (Keeps-commit-then P stable _ (search keeps_rules))

  Keeps-delete_item :
      (item_id : ℕ) (perm : ListPermission) → Keeps P (Items.delete_item item_id perm)
  unfolding Items.delete_item
  Keeps-delete_item item_id perm =
      Keeps-bind _ _ (search keeps_rules) λ item. Keeps-write-then _ _ (Keeps-commit P stable)

  Keeps-list_items : (perm : ListPermission) → Keeps P (Items.list_items perm)
  unfolding Items.list_items
  Keeps-list_items perm = search keeps_rules

  pub Keeps-commit_or_refuse : Keeps P Shares.commit_or_refuse
  Keeps-commit_or_refuse = record {
    at = λ s h. rw (Shares.db-commit_or_refuse s) ((Keeps-commit P stable).at s h);
  }

  Keeps-create_share :
      (body : ShareCreate) (perm : ListPermission) (now : ℕ) (others : Db e → Db e)
      → ((db : Db e) → P db → P (others db))
      → Keeps P (Shares.create_share body perm now others)
  unfolding Shares.create_share
  Keeps-create_share body perm now others h = Keeps-raise_if-then _ _ _ (
      Keeps-bind _ _ (Keeps-query _) λ users. Keeps-bind _ _ (Keeps-lift _) λ target.
        Keeps-raise_if-then _ _ _ (
          Keeps-bind _ _ (Keeps-query _) λ shares. Keeps-bind _ _ (Keeps-lift _) λ existing.
            Keeps-raise_if-then _ _ _ (
              Keeps-write-then _ _ (
                Keeps-meanwhile-then _ _ h
                  (Keeps-bind _ _ Keeps-commit_or_refuse λ _. search keeps_rules)))))

  Keeps-list_shares : (perm : ListPermission) → Keeps P (Shares.list_shares perm)
  unfolding Shares.list_shares
  Keeps-list_shares perm = search keeps_rules

  Keeps-change_role :
      (target : ℕ) (role : String) (perm : ListPermission)
      → Keeps P (Shares.change_role target role perm)
  unfolding Shares.change_role
  Keeps-change_role target role perm =
      Keeps-bind _ _ (search keeps_rules)
        λ s. Keeps-write-then _ _ (Keeps-commit-then P stable _ (search keeps_rules))

  Keeps-revoke_share :
      (target : ℕ) (perm : ListPermission) → Keeps P (Shares.revoke_share target perm)
  unfolding Shares.revoke_share
  Keeps-revoke_share target perm =
      Keeps-bind _ _ (search keeps_rules) λ s. Keeps-write-then _ _ (Keeps-commit P stable)

  ruleset handlers_keep = (
    keeps_rules, Keeps-rename_list, Keeps-delete_list, Keeps-get_list, Keeps-create_item,
    Keeps-update_item, Keeps-delete_item, Keeps-list_items, Keeps-create_share, Keeps-list_shares,
    Keeps-change_role, Keeps-revoke_share,
  )

  pub Keeps-handle :
      (call : Call) (perm : ListPermission) (d : Draw e)
      → ((db : Db e) → P db → P (d.others db))
      → Keeps P (handle call perm d)
  unfolding handle
  Keeps-handle get_list_call perm d h = search handlers_keep
  Keeps-handle _ perm d h = search handlers_keep

  pub Keeps-require_list_permission :
      (action : String) (list_id user_id : ℕ)
      → Keeps P (require_list_permission action list_id user_id)
  Keeps-require_list_permission action list_id user_id = record {
    at = λ s h. rw (session-require_list_permission action list_id user_id s) h;
  }

  pub Keeps-request :
      (call : Call) (list_id user_id : ℕ) (d : Draw e)
      → ((db : Db e) → P db → P (d.others db))
      → Keeps P (request call list_id user_id d)
  unfolding serve
  Keeps-request call list_id user_id d k =
      Keeps-bind _ _ (Keeps-require_list_permission _ list_id user_id)
        λ perm. Keeps-raise_if-then _ _ _ (Keeps-handle call perm d k)

  pub Keeps-serve :
      (call : Call) (list_id user_id : ℕ) (d : Draw e)
      → ((db : Db e) → P db → P (d.others db))
      → Keeps P (serve call list_id user_id d)
  unfolding serve
  Keeps-serve call list_id user_id d k =
      Keeps-run (request call list_id user_id d) (Keeps-request call list_id user_id d k)
