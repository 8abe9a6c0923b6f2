-- ===== src/Db/Migrations/Downgrade.antt =====
-- What the downgrades leave of a database that is at the head.
use shared_todos.Common.{
  String, ◌≡◌, refl, ap, ◌∙◌, Bool, true, false, not, ◌&&◌, none, some, [], ◌∷◌, ◌++◌, ◌==◌,
  string_eq, arith, if◌then◌else◌,
}
use shared_todos.Db.Ddl.{
  varchar, primary_key, unique, Table, Index, Catalog, find, remove, alter, every, names, effect,
  effects,
}
use shared_todos.Db.Ddl.Runs.{
  effects-append, remove-unknown, every_mono, Server, IsServer, run_all, run_all-documented,
}
use shared_todos.Db.Metadata.{
  metadata_indexes, sessions_table, users_table, password_reset_tokens_table, required,
}
use shared_todos.Db.Migrations.InitialAuthSchema
use shared_todos.Db.Migrations.RenameSessionsToken
use shared_todos.Db.Migrations.AddUserCheckConstraint
use shared_todos.Db.Migrations.AddListsItemsShares
use shared_todos.Db.Migrations.History.{history, downgrade_all}
use shared_todos.Db.Migrations.States.{IsFree, at_head}

module _ (filled : String → Bool) (c : Catalog) (f : IsFree c) where
  abbrev without_lists : Catalog
  without_lists = record c {
    tables =
        ("sessions", sessions_table filled)
        ∷ ("password_reset_tokens", password_reset_tokens_table filled)
        ∷ ("users", users_table filled)
        ∷ c.tables;
    indexes = metadata_indexes ++ c.indexes;
  }

  lists-dropped : effects AddListsItemsShares.downgrade (at_head filled c) ≡ some without_lists
  unfolding effects effect string_eq find every remove
  lists-dropped = ground (
    arith,
    f.lists,
    f.items,
    f.shares,
    remove-unknown "lists" c.tables,
    remove-unknown "items" c.tables,
    remove-unknown "shares" c.tables,
  )

  abbrev users_unchecked : Table
  users_unchecked = record (users_table filled) {
    constraints =
        ("pk_users", primary_key ("id" ∷ []))
        ∷ ("uq_users_google_sub", unique ("google_sub" ∷ []))
        ∷ [];
  }

  abbrev unchecked : Catalog
  unchecked = record c {
    tables =
        ("sessions", sessions_table filled)
        ∷ ("password_reset_tokens", password_reset_tokens_table filled)
        ∷ ("users", users_unchecked)
        ∷ c.tables;
    indexes = metadata_indexes ++ c.indexes;
  }

  check-dropped : effects AddUserCheckConstraint.downgrade without_lists ≡ some unchecked
  unfolding effects effect string_eq find alter remove
  check-dropped = refl

  -- the sessions, whose rows are gone, with the plain token again
  abbrev sessions_back : Table
  sessions_back = record (sessions_table filled) {
    columns = λ name.
        if "token_hash" == name
        then none
        else if "token" == name
        then some (required (varchar 128))
        else (sessions_table filled).columns name;
    filled = false;
  }

  abbrev renamed_back : Catalog
  renamed_back = record c {
    tables =
        ("sessions", sessions_back)
        ∷ ("password_reset_tokens", password_reset_tokens_table filled)
        ∷ ("users", users_unchecked)
        ∷ c.tables;
    indexes =
        (
          "ix_sessions_token",
          record { table = "sessions"; columns = "token" ∷ []; unique_index = true },
        )
        ∷ (
          "ix_password_reset_tokens_token_hash",
          record {
            table = "password_reset_tokens";
            columns = "token_hash" ∷ [];
            unique_index = true;
          },
        )
        ∷ (
          "ix_users_email",
          record { table = "users"; columns = "email" ∷ []; unique_index = true },
        )
        ∷ c.indexes;
  }

  rename-undone : effects RenameSessionsToken.downgrade unchecked ≡ some renamed_back
  unfolding effects effect string_eq find every remove alter
  rename-undone = ground (
    arith,
    f.sessions,
    f.ix_token,
    f.ix_token_hash,
    remove-unknown "ix_sessions_token_hash" c.indexes,
    remove-unknown "sessions" c.tables,
    every_mono (λ (i : Index). not (i.table == "sessions"))
        (λ i. not (i.table == "sessions" && names "token_hash" i.columns)) c.indexes
        (λ i h. ground arith),
  )

  all-dropped : effects InitialAuthSchema.downgrade renamed_back ≡ some c
  unfolding effects effect string_eq find every remove
  all-dropped = ground (
    arith,
    f.users,
    f.sessions,
    f.reset_tokens,
    f.ix_users,
    f.ix_reset_tokens,
    f.ix_token,
    remove-unknown "users" c.tables,
    remove-unknown "sessions" c.tables,
    remove-unknown "password_reset_tokens" c.tables,
    remove-unknown "ix_users_email" c.indexes,
    remove-unknown "ix_sessions_token" c.indexes,
    remove-unknown "ix_password_reset_tokens_token_hash" c.indexes,
  )

  effects-downgrade_all : effects (downgrade_all history) (at_head filled c) ≡ some c
  effects-downgrade_all =
      let second = RenameSessionsToken.downgrade ++ InitialAuthSchema.downgrade in
      let third = AddUserCheckConstraint.downgrade ++ second in
      effects-append AddListsItemsShares.downgrade third (at_head filled c) lists-dropped
      ∙ effects-append AddUserCheckConstraint.downgrade second without_lists check-dropped
      ∙ effects-append RenameSessionsToken.downgrade InitialAuthSchema.downgrade unchecked
          rename-undone
      ∙ all-dropped

-- On a server that carries out the operations of the downgrades as documented, at the head, whichever
-- of our tables have rows, where nothing else had our names or depends on them: every downgrade
-- succeeds, and after the last the database is what it was before the first upgrade.
pub downgrade_all-restores :
    (server : Server) (s : server.State) (filled : String → Bool) (c : Catalog)
    → IsServer server (downgrade_all history)
    → IsFree c
    → server.view s ≡ at_head filled c
    → (s' : server.State) × (run_all server (downgrade_all history) s ≡ some s')
      × (server.view s' ≡ c)
downgrade_all-restores server s filled c laws free before =
    run_all-documented server (downgrade_all history) laws s
      (ap (effects (downgrade_all history)) before ∙ effects-downgrade_all filled c free)
