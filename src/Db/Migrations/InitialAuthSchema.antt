-- ===== src/Db/Migrations/InitialAuthSchema.antt =====
-- alembic/versions/e741951e9b5f_initial_auth_schema.py
use shared_todos.Common.{true, List, [], ◌∷◌}
use shared_todos.Db.Ddl.{
  uuid, varchar, text, timestamp, primary_key, unique, Op, create_table, drop_table, create_index,
  drop_index,
}
use shared_todos.Db.Metadata.{required, optional}
use shared_todos.Db.Migrations.{cascade, created_at, updated_at}

abbrev pub upgrade : List Op
upgrade =
    create_table "users"
      (("id", required uuid)
        ∷ ("email", required (varchar 254))
        ∷ ("display_name", required (varchar 128))
        ∷ ("password_hash", optional text)
        ∷ ("google_sub", optional (varchar 256))
        ∷ created_at
        ∷ updated_at
        ∷ [])
      (("pk_users", primary_key ("id" ∷ []))
        ∷ ("uq_users_google_sub", unique ("google_sub" ∷ []))
        ∷ [])
      []
    ∷ create_index "ix_users_email" "users" ("email" ∷ []) true
    ∷ create_table "password_reset_tokens"
        (("id", required uuid)
          ∷ ("user_id", required uuid)
          ∷ ("token_hash", required (varchar 64))
          ∷ ("expires_at", required timestamp)
          ∷ ("used_at", optional timestamp)
          ∷ created_at
          ∷ [])
        (("pk_password_reset_tokens", primary_key ("id" ∷ [])) ∷ [])
        (cascade "fk_password_reset_tokens_user_id_users" "user_id" "users" ∷ [])
    ∷ create_index "ix_password_reset_tokens_token_hash" "password_reset_tokens" ("token_hash" ∷ [])
        true
    ∷ create_table "sessions"
        (("id", required uuid)
          ∷ ("user_id", required uuid)
          ∷ ("token", required (varchar 128))
          ∷ ("expires_at", required timestamp)
          ∷ created_at
          ∷ [])
        (("pk_sessions", primary_key ("id" ∷ [])) ∷ [])
        (cascade "fk_sessions_user_id_users" "user_id" "users" ∷ [])
    ∷ create_index "ix_sessions_token" "sessions" ("token" ∷ []) true
    ∷ []

abbrev pub downgrade : List Op
downgrade =
    drop_index "ix_sessions_token" "sessions"
    ∷ drop_table "sessions"
    ∷ drop_index "ix_password_reset_tokens_token_hash" "password_reset_tokens"
    ∷ drop_table "password_reset_tokens"
    ∷ drop_index "ix_users_email" "users"
    ∷ drop_table "users"
    ∷ []
