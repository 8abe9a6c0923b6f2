-- ===== src/Db/Migrations.antt =====
-- alembic/versions: the revisions of the schema.
pub mod InitialAuthSchema
pub mod RenameSessionsToken
pub mod AddUserCheckConstraint
pub mod AddListsItemsShares
pub mod History
pub mod States
pub mod Upgrade
pub mod Downgrade
pub mod Env
mod Tests
use shared_todos.Common.{String, true, false, Option, none, some, List, [], ◌∷◌, ◌++◌}
use shared_todos.Db.Ddl.{
  uuid, varchar, text, boolean, integer, timestamp, Column, primary_key, unique, check, ForeignKey,
  Op, create_table, drop_table, create_index, drop_index, add_column, drop_column,
  create_check_constraint, drop_constraint, delete_from,
}
use shared_todos.Db.Metadata.{defaulted}

pub record Revision : Type 0 where
  pub revision : String
  pub down_revision : Option String
  pub upgrade : List Op
  pub downgrade : List Op

abbrev cascade : String → String → String → String × ForeignKey
cascade name column referred = (
  name,
  record { column = column; referred = referred; referred_column = "id"; ondelete = "CASCADE" },
)

abbrev created_at : String × Column
created_at = ("created_at", defaulted timestamp "now()")

abbrev updated_at : String × Column
updated_at = ("updated_at", defaulted timestamp "now()")
