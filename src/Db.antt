-- ===== src/Db.antt =====
-- The database: app/db, app/models and the schema of alembic/versions.
mod Server
mod Models
mod Schema
mod Transaction
pub mod Tally
pub mod Invariant
pub mod Keeps
pub mod Single
pub mod Memory
pub mod Sample
pub mod Ddl
pub mod Metadata
pub mod Migrations
pub use Server.*
pub use Models.*
unfoldable pub use Schema.*
unfoldable pub use Transaction.*
