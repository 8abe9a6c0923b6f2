-- ===== src/Db/Migrations/History.antt =====
-- The chain of the revisions, which alembic goes through up to the head and down to the base.
use shared_todos.Common.{none, some, List, [], ◌∷◌, ◌++◌}
use shared_todos.Db.Ddl.{Op}
use shared_todos.Db.Migrations.{Revision}
use shared_todos.Db.Migrations.InitialAuthSchema
use shared_todos.Db.Migrations.RenameSessionsToken
use shared_todos.Db.Migrations.AddUserCheckConstraint
use shared_todos.Db.Migrations.AddListsItemsShares

-- The revisions, each after the one that it revises.
abbrev pub history : List Revision
history =
    record {
      revision = "e741951e9b5f";
      down_revision = none;
      upgrade = InitialAuthSchema.upgrade;
      downgrade = InitialAuthSchema.downgrade;
    }
    ∷ record {
      revision = "aaad963c469e";
      down_revision = some "e741951e9b5f";
      upgrade = RenameSessionsToken.upgrade;
      downgrade = RenameSessionsToken.downgrade;
    }
    ∷ record {
      revision = "380d8a29fa13";
      down_revision = some "aaad963c469e";
      upgrade = AddUserCheckConstraint.upgrade;
      downgrade = AddUserCheckConstraint.downgrade;
    }
    ∷ record {
      revision = "4df1779548df";
      down_revision = some "380d8a29fa13";
      upgrade = AddListsItemsShares.upgrade;
      downgrade = AddListsItemsShares.downgrade;
    }
    ∷ []

-- `alembic upgrade head` on a database without a revision, and `alembic downgrade base` at the head
abbrev pub upgrade_all : List Revision → List Op
upgrade_all [] = []
upgrade_all (r ∷ rs) = r.upgrade ++ upgrade_all rs

abbrev pub downgrade_all : List Revision → List Op
downgrade_all [] = []
downgrade_all (r ∷ rs) = downgrade_all rs ++ r.downgrade
