-- ===== src/Db/Migrations/Upgrade.antt =====
-- What the upgrades make of a database that has none of the tables.
use std.Path.{fun_ext}
use shared_todos.Common.{
  String, ◌≡◌, refl, ap, ◌∙◌, Bool, not, ◌&&◌, Option, none, some, [], ◌∷◌, ◌++◌, ◌==◌, string_eq,
  arith, if◌then◌else◌, Bool-cases, inl, inr, subst, eq_of_==,
}
use shared_todos.Db.Ddl.{
  varchar, Column, Index, Catalog, find, remove, alter, every, names, effect, effects,
}
use shared_todos.Db.Ddl.Runs.{
  effects-append, remove-unknown, every_mono, Server, IsServer, run_all, run_all-documented,
}
use shared_todos.Db.Metadata.{
  metadata_indexes, sessions_table, users_table, password_reset_tokens_table, required, lists_table,
  items_table, shares_table,
}
use shared_todos.Db.Migrations.InitialAuthSchema
use shared_todos.Db.Migrations.RenameSessionsToken
use shared_todos.Db.Migrations.AddUserCheckConstraint
use shared_todos.Db.Migrations.AddListsItemsShares
use shared_todos.Db.Migrations.History.{history, upgrade_all}
use shared_todos.Db.Migrations.States.{IsFree, no_rows, at_head, sessions_first, users_first, first}

initial-first :
    (c : Catalog) → IsFree c → effects InitialAuthSchema.upgrade c ≡ some (first no_rows c)
unfolding effects effect string_eq find every
initial-first c f = ground (
  arith, f.users, f.sessions, f.reset_tokens, f.ix_users, f.ix_reset_tokens, f.ix_token, f.pk_users,
  f.uq_users, f.pk_reset_tokens, f.pk_sessions,
)

-- the columns of the sessions once the token is token_renamed, as the operations leave them
abbrev renamed_columns : String → Option Column
renamed_columns name =
    if "token" == name
    then none
    else if "token_hash" == name
    then some (required (varchar 64))
    else (sessions_first no_rows).columns name

at_token : renamed_columns "token" ≡ (sessions_table no_rows).columns "token"
unfolding find string_eq
at_token = refl

at_token_hash : renamed_columns "token_hash" ≡ (sessions_table no_rows).columns "token_hash"
unfolding find string_eq
at_token_hash = refl

renamed_columns-sessions_table :
    (name : String) → renamed_columns name ≡ (sessions_table no_rows).columns name
unfolding find
renamed_columns-sessions_table name = elim (Bool-cases ("token" == name)) [
  | inl same ↦
      subst (λ n. renamed_columns n ≡ (sessions_table no_rows).columns n)
        (eq_of_== "token" name same) at_token
  | inr other ↦ elim (Bool-cases ("token_hash" == name)) [
    | inl same ↦
        subst (λ n. renamed_columns n ≡ (sessions_table no_rows).columns n)
          (eq_of_== "token_hash" name same) at_token_hash
    | inr another ↦ ground (arith, other, another)
  ]
]

-- the sessions have no rows then
abbrev pub token_renamed : (String → Option Column) → (String → Bool) → Catalog → Catalog
token_renamed columns filled c = record c {
  tables =
      ("sessions", record (sessions_table no_rows) { columns = columns })
      ∷ ("password_reset_tokens", password_reset_tokens_table filled)
      ∷ ("users", users_first filled)
      ∷ c.tables;
  indexes = metadata_indexes ++ c.indexes;
}

rename-token_renamed :
    (filled : String → Bool) (c : Catalog)
    → IsFree c
    → effects RenameSessionsToken.upgrade (first filled c)
      ≡ some (token_renamed renamed_columns filled c)
unfolding effects effect string_eq find every remove alter
rename-token_renamed filled c f = ground (
  arith,
  f.sessions,
  f.ix_token,
  f.ix_token_hash,
  remove-unknown "ix_sessions_token" c.indexes,
  remove-unknown "sessions" c.tables,
  every_mono (λ (i : Index). not (i.table == "sessions"))
      (λ i. not (i.table == "sessions" && names "token" i.columns)) c.indexes (λ i h. ground arith),
)

-- On a server that carries out the operations of the second revision as documented, with any rows in
-- the tables of the first, and nothing else under our names: it succeeds, the sessions then have the
-- columns and the index of the model, and no rows, and nothing else is changed.
pub rename-signs_out :
    (server : Server) (s : server.State) (filled : String → Bool) (c : Catalog)
    → IsServer server RenameSessionsToken.upgrade
    → IsFree c
    → server.view s ≡ first filled c
    → (s' : server.State) × (run_all server RenameSessionsToken.upgrade s ≡ some s')
      × (server.view s' ≡ token_renamed (sessions_table no_rows).columns filled c)
rename-signs_out server s filled c laws free before =
    run_all-documented server RenameSessionsToken.upgrade laws s (
      ap (effects RenameSessionsToken.upgrade) before
      ∙ rename-token_renamed filled c free
      ∙ ap (λ columns. some (token_renamed columns filled c))
          (fun_ext renamed_columns-sessions_table))

abbrev checked : Catalog → Catalog
checked c = record c {
  tables =
      ("sessions", record (sessions_table no_rows) { columns = renamed_columns })
      ∷ ("password_reset_tokens", password_reset_tokens_table no_rows)
      ∷ ("users", users_table no_rows)
      ∷ c.tables;
  indexes = metadata_indexes ++ c.indexes;
}

check-checked :
    (c : Catalog)
    → effects AddUserCheckConstraint.upgrade (token_renamed renamed_columns no_rows c)
      ≡ some (checked c)
unfolding effects effect string_eq find alter
check-checked c = refl

-- the tables of the models over given columns of the sessions
abbrev with_sessions : (String → Option Column) → Catalog → Catalog
with_sessions columns c = record c {
  tables =
      ("shares", shares_table no_rows)
      ∷ ("items", items_table no_rows)
      ∷ ("lists", lists_table no_rows)
      ∷ ("sessions", record (sessions_table no_rows) { columns = columns })
      ∷ ("password_reset_tokens", password_reset_tokens_table no_rows)
      ∷ ("users", users_table no_rows)
      ∷ c.tables;
  indexes = metadata_indexes ++ c.indexes;
}

lists-with_sessions :
    (c : Catalog)
    → IsFree c
    → effects AddListsItemsShares.upgrade (checked c) ≡ some (with_sessions renamed_columns c)
unfolding effects effect string_eq find every
lists-with_sessions c f =
    ground (arith, f.lists, f.items, f.shares, f.pk_lists, f.pk_items, f.pk_shares)

with_sessions-at_head : (c : Catalog) → with_sessions renamed_columns c ≡ at_head no_rows c
with_sessions-at_head c =
    ap (λ columns. with_sessions columns c) (fun_ext renamed_columns-sessions_table)

-- From a database that has nothing under our names, the upgrades make that database with the tables
-- and the indexes of the models, all of them no_rows, and nothing else.
effects-upgrade_all :
    (c : Catalog) → IsFree c → effects (upgrade_all history) c ≡ some (at_head no_rows c)
unfolding effects
effects-upgrade_all c f =
    let fourth = AddListsItemsShares.upgrade ++ [] in
    let third = AddUserCheckConstraint.upgrade ++ fourth in
    let second = RenameSessionsToken.upgrade ++ third in
    effects-append InitialAuthSchema.upgrade second c (initial-first c f)
    ∙ effects-append RenameSessionsToken.upgrade third (first no_rows c)
        (rename-token_renamed no_rows c f)
    ∙ effects-append AddUserCheckConstraint.upgrade fourth (token_renamed renamed_columns no_rows c)
        (check-checked c)
    ∙ effects-append AddListsItemsShares.upgrade [] (checked c) (lists-with_sessions c f)
    ∙ ap some (with_sessions-at_head c)

-- On a server that carries out the operations of the upgrades as documented, and a database that has
-- nothing under our names, of tables, keys or indexes: every migration succeeds, and after the last
-- the database has, next to what it had, the tables, columns, keys, constraints and indexes of the
-- models, and no more.
pub upgrade_all-at_head :
    (server : Server) (s : server.State)
    → IsServer server (upgrade_all history)
    → IsFree (server.view s)
    → (s' : server.State) × (run_all server (upgrade_all history) s ≡ some s')
      × (server.view s' ≡ at_head no_rows (server.view s))
upgrade_all-at_head server s laws free =
    run_all-documented server (upgrade_all history) laws s
      (effects-upgrade_all (server.view s) free)
