-- ===== src/Db/Migrations/Tests.antt =====
-- The revisions on a small database, which has a table of another program.
use shared_todos.Common.{
  String, ◌≡◌, refl, Bool, true, Option, none, some, List, [], ◌∷◌, ◌==◌, string_eq, option_eq,
  ◌&&◌, if◌then◌else◌,
}
use shared_todos.Db.Ddl.{Op, integer, Catalog, Table, find, every, effect}
use shared_todos.Db.Ddl.Runs.{Server, IsServer, run_all}
use shared_todos.Db.Metadata.{required, sessions_table}
use shared_todos.Db.Migrations.{Revision}
use shared_todos.Db.Migrations.RenameSessionsToken
use shared_todos.Db.Migrations.History.{history, upgrade_all, downgrade_all}
use shared_todos.Db.Migrations.States.{IsFree, no_rows, at_head, first}
use shared_todos.Db.Migrations.Upgrade.{upgrade_all-at_head, rename-signs_out, token_renamed}
use shared_todos.Db.Migrations.Downgrade.{downgrade_all-restores}

-- each revision names the one before it
abbrev linked : Option String → List Revision → Bool
linked down [] = true
linked down (r ∷ rs) = r.down_revision == down && linked (some r.revision) rs

history-linked : linked none history ≡ true
unfolding string_eq option_eq
history-linked = refl

abbrev catalogs : Server
catalogs = record { State = Catalog; view = λ c. c; execute = effect }

catalogs-IsServer : (ops : List Op) → IsServer catalogs ops
catalogs-IsServer ops = record { documented = λ op s {c} one h. (c, h, refl) }

abbrev other : Table
other = record {
  columns = λ name. if name == "n" then some (required integer) else none;
  constraints = [];
  foreign_keys = [];
  filled = true;
}

abbrev database : Catalog
database = record {
  tables = ("others", other) ∷ [];
  indexes = [];
  others = "others_id_seq" ∷ [];
  depended = [];
}

database-IsFree : IsFree database
unfolding find every string_eq
database-IsFree = record {
  users = refl;
  lists = refl;
  items = refl;
  shares = refl;
  sessions = refl;
  reset_tokens = refl;
  ix_users = refl;
  ix_reset_tokens = refl;
  ix_token = refl;
  ix_token_hash = refl;
  pk_users = refl;
  uq_users = refl;
  pk_lists = refl;
  pk_items = refl;
  pk_shares = refl;
  pk_sessions = refl;
  pk_reset_tokens = refl;
}

abbrev in_use : String → Bool
in_use name = true

upgrade_all-at_head_example :
    (s' : Catalog) × (run_all catalogs (upgrade_all history) database ≡ some s')
    × (s' ≡ at_head no_rows database)
upgrade_all-at_head_example =
    upgrade_all-at_head catalogs database (catalogs-IsServer _) database-IsFree

downgrade_all-restores_example :
    (s' : Catalog) × (run_all catalogs (downgrade_all history) (at_head in_use database) ≡ some s')
    × (s' ≡ database)
downgrade_all-restores_example =
    downgrade_all-restores catalogs (at_head in_use database) in_use database (catalogs-IsServer _)
      database-IsFree refl

rename-signs_out_example :
    (s' : Catalog) × (run_all catalogs RenameSessionsToken.upgrade (first in_use database)
      ≡ some s')
    × (s' ≡ token_renamed (sessions_table no_rows).columns in_use database)
rename-signs_out_example =
    rename-signs_out catalogs (first in_use database) in_use database (catalogs-IsServer _)
      database-IsFree refl
