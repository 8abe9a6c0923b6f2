-- ===== src/Db/Migrations/States.antt =====
-- The states of the schema that the revisions lead to, next to what else the database has.
use shared_todos.Common.{String, ◌≡◌, Bool, true, false, not, ◌&&◌, [], ◌∷◌, ◌++◌, ◌==◌, string_eq}
use shared_todos.Db.Ddl.{
  uuid, varchar, timestamp, primary_key, unique, Table, Index, Catalog, find, every, names, taken,
  refers,
}
use shared_todos.Db.Metadata.{
  metadata_tables, metadata_indexes, sessions_table, users_table, password_reset_tokens_table,
  required, defaulted,
}

-- nothing of the name, no table that refers to a table of it, and no index on one
abbrev pub is_free : String → Catalog → Bool
is_free name c =
    not (taken name c)
    && not (names name c.depended)
    && every (λ t. not (refers name t)) c.tables
    && every (λ (i : Index). not (i.table == name)) c.indexes

-- The database has nothing under the names of ours.
pub record IsFree (c : Catalog) : Type 0 where
  pub users : is_free "users" c ≡ true
  pub lists : is_free "lists" c ≡ true
  pub items : is_free "items" c ≡ true
  pub shares : is_free "shares" c ≡ true
  pub sessions : is_free "sessions" c ≡ true
  pub reset_tokens : is_free "password_reset_tokens" c ≡ true
  pub ix_users : taken "ix_users_email" c ≡ false
  pub ix_reset_tokens : taken "ix_password_reset_tokens_token_hash" c ≡ false
  pub ix_token : taken "ix_sessions_token" c ≡ false
  pub ix_token_hash : taken "ix_sessions_token_hash" c ≡ false
  pub pk_users : taken "pk_users" c ≡ false
  pub uq_users : taken "uq_users_google_sub" c ≡ false
  pub pk_lists : taken "pk_lists" c ≡ false
  pub pk_items : taken "pk_items" c ≡ false
  pub pk_shares : taken "pk_shares" c ≡ false
  pub pk_sessions : taken "pk_sessions" c ≡ false
  pub pk_reset_tokens : taken "pk_password_reset_tokens" c ≡ false

-- no table has rows
abbrev pub no_rows : String → Bool
no_rows name = false

-- the database with the tables of the models
abbrev pub at_head : (String → Bool) → Catalog → Catalog
at_head filled c = record c {
  tables = metadata_tables filled ++ c.tables;
  indexes = metadata_indexes ++ c.indexes;
}

-- the tables of the first revision
abbrev pub sessions_first : (String → Bool) → Table
sessions_first filled = record (sessions_table filled) {
  columns = λ name. find name (
      ("id", required uuid)
      ∷ ("user_id", required uuid)
      ∷ ("token", required (varchar 128))
      ∷ ("expires_at", required timestamp)
      ∷ ("created_at", defaulted timestamp "now()")
      ∷ []);
}

abbrev pub users_first : (String → Bool) → Table
users_first filled = record (users_table filled) {
  constraints =
      ("pk_users", primary_key ("id" ∷ []))
      ∷ ("uq_users_google_sub", unique ("google_sub" ∷ []))
      ∷ [];
}

abbrev pub first : (String → Bool) → Catalog → Catalog
first filled c = record c {
  tables =
      ("sessions", sessions_first filled)
      ∷ ("password_reset_tokens", password_reset_tokens_table filled)
      ∷ ("users", users_first filled)
      ∷ c.tables;
  indexes =
      (
        "ix_sessions_token",
        record { table = "sessions"; columns = "token" ∷ []; unique_index = true },
      )
      ∷ (
        "ix_password_reset_tokens_token_hash",
        record {
          table = "password_reset_tokens";
          columns = "token_hash" ∷ [];
          unique_index = true;
        },
      )
      ∷ ("ix_users_email", record { table = "users"; columns = "email" ∷ []; unique_index = true })
      ∷ c.indexes;
}
