-- ===== src/Db/Migrations/AddListsItemsShares.antt =====
-- alembic/versions/4df1779548df_add_lists_items_shares.py
use shared_todos.Common.{List, [], ◌∷◌}
use shared_todos.Db.Ddl.{
  uuid, varchar, text, boolean, integer, timestamp, primary_key, check, Op, create_table,
  drop_table,
}
use shared_todos.Db.Metadata.{required, defaulted}
use shared_todos.Db.Migrations.{cascade, created_at, updated_at}

abbrev pub upgrade : List Op
upgrade =
    create_table "lists"
      (("id", required uuid)
        ∷ ("owner_id", required uuid)
        ∷ ("name", required (varchar 256))
        ∷ created_at
        ∷ updated_at
        ∷ [])
      (("pk_lists", primary_key ("id" ∷ [])) ∷ [])
      (cascade "fk_lists_owner_id_users" "owner_id" "users" ∷ [])
    ∷ create_table "items"
        (("id", required uuid)
          ∷ ("list_id", required uuid)
          ∷ ("content", required text)
          ∷ ("completed", defaulted boolean "false")
          ∷ ("order", required integer)
          ∷ created_at
          ∷ updated_at
          ∷ [])
        (("pk_items", primary_key ("id" ∷ [])) ∷ [])
        (cascade "fk_items_list_id_lists" "list_id" "lists" ∷ [])
    ∷ create_table "shares"
        (("list_id", required uuid)
          ∷ ("user_id", required uuid)
          ∷ ("role", required (varchar 16))
          ∷ ("granted_at", defaulted timestamp "now()")
          ∷ [])
        (("ck_shares_role_valid", check "role IN ('editor', 'viewer')")
          ∷ ("pk_shares", primary_key ("list_id" ∷ "user_id" ∷ []))
          ∷ [])
        (cascade "fk_shares_list_id_lists" "list_id" "lists"
          ∷ cascade "fk_shares_user_id_users" "user_id" "users"
          ∷ [])
    ∷ []

abbrev pub downgrade : List Op
downgrade = drop_table "shares" ∷ drop_table "items" ∷ drop_table "lists" ∷ []
