-- ===== src/Db/Migrations/RenameSessionsToken.antt =====
-- alembic/versions/aaad963c469e_rename_sessions_token_to_token_hash.py
use shared_todos.Common.{true, List, [], ◌∷◌}
use shared_todos.Db.Ddl.{
  varchar, Op, create_index, drop_index, add_column, drop_column, delete_from,
}
use shared_todos.Db.Metadata.{required}

abbrev pub upgrade : List Op
upgrade =
    delete_from "sessions"
    ∷ add_column "sessions" "token_hash" (required (varchar 64))
    ∷ drop_index "ix_sessions_token" "sessions"
    ∷ create_index "ix_sessions_token_hash" "sessions" ("token_hash" ∷ []) true
    ∷ drop_column "sessions" "token"
    ∷ []

abbrev pub downgrade : List Op
downgrade =
    delete_from "sessions"
    ∷ add_column "sessions" "token" (required (varchar 128))
    ∷ drop_index "ix_sessions_token_hash" "sessions"
    ∷ create_index "ix_sessions_token" "sessions" ("token" ∷ []) true
    ∷ drop_column "sessions" "token_hash"
    ∷ []
