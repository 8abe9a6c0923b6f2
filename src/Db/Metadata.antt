-- ===== src/Db/Metadata.antt =====
-- `Base.metadata`: the tables that the classes of app/models declare, under the names that the
-- convention of app/db/base.py gives to their constraints.
use shared_todos.Common.{String, Bool, true, false, Option, none, some, List, [], ◌∷◌, str_append}
use shared_todos.Db.Ddl.{
  ColumnType, uuid, varchar, text, boolean, integer, timestamp, Column, primary_key, unique, check,
  ForeignKey, Index, Table, find,
}

-- `_naming_convention`
abbrev pub ix_name : String → String → String
ix_name table column = str_append "ix_" (str_append table (str_append "_" column))

abbrev pub uq_name : String → String → String
uq_name table column = str_append "uq_" (str_append table (str_append "_" column))

abbrev pub ck_name : String → String → String
ck_name table constraint = str_append "ck_" (str_append table (str_append "_" constraint))

abbrev pub fk_name : String → String → String → String
fk_name table column referred =
    str_append "fk_"
      (str_append table (str_append "_" (str_append column (str_append "_" referred))))

abbrev pub pk_name : String → String
pk_name table = str_append "pk_" table

abbrev pub required : ColumnType → Column
required kind = record { kind = kind; nullable = false; server_default = none }

abbrev pub optional : ColumnType → Column
optional kind = record { kind = kind; nullable = true; server_default = none }

abbrev pub defaulted : ColumnType → String → Column
defaulted kind value = record { kind = kind; nullable = false; server_default = some value }

abbrev columns_of : List (String × Column) → String → Option Column
columns_of columns name = find name columns

-- `sa.ForeignKey("….id", ondelete="CASCADE")`
abbrev key_to : String → String → String → String × ForeignKey
key_to table column referred = (
  fk_name table column referred,
  record { column = column; referred = referred; referred_column = "id"; ondelete = "CASCADE" },
)

-- an index for a column that is both unique and indexed
abbrev indexed : String → String → String × Index
indexed table column =
    (ix_name table column, record { table = table; columns = column ∷ []; unique_index = true })

module _ (filled : String → Bool) where
  abbrev pub users_table : Table
  users_table = record {
    columns = columns_of (
        ("id", required uuid)
        ∷ ("email", required (varchar 254))
        ∷ ("display_name", required (varchar 128))
        ∷ ("password_hash", optional text)
        ∷ ("google_sub", optional (varchar 256))
        ∷ ("created_at", defaulted timestamp "now()")
        ∷ ("updated_at", defaulted timestamp "now()")
        ∷ []);
    constraints =
        (
          ck_name "users" "ck_users_has_auth_method",
          check "password_hash IS NOT NULL OR google_sub IS NOT NULL",
        )
        ∷ (pk_name "users", primary_key ("id" ∷ []))
        ∷ (uq_name "users" "google_sub", unique ("google_sub" ∷ []))
        ∷ [];
    foreign_keys = [];
    filled = filled "users";
  }

  abbrev pub lists_table : Table
  lists_table = record {
    columns = columns_of (
        ("id", required uuid)
        ∷ ("owner_id", required uuid)
        ∷ ("name", required (varchar 256))
        ∷ ("created_at", defaulted timestamp "now()")
        ∷ ("updated_at", defaulted timestamp "now()")
        ∷ []);
    constraints = (pk_name "lists", primary_key ("id" ∷ [])) ∷ [];
    foreign_keys = key_to "lists" "owner_id" "users" ∷ [];
    filled = filled "lists";
  }

  abbrev pub items_table : Table
  items_table = record {
    columns = columns_of (
        ("id", required uuid)
        ∷ ("list_id", required uuid)
        ∷ ("content", required text)
        ∷ ("completed", defaulted boolean "false")
        ∷ ("order", required integer)
        ∷ ("created_at", defaulted timestamp "now()")
        ∷ ("updated_at", defaulted timestamp "now()")
        ∷ []);
    constraints = (pk_name "items", primary_key ("id" ∷ [])) ∷ [];
    foreign_keys = key_to "items" "list_id" "lists" ∷ [];
    filled = filled "items";
  }

  abbrev pub shares_table : Table
  shares_table = record {
    columns = columns_of (
        ("list_id", required uuid)
        ∷ ("user_id", required uuid)
        ∷ ("role", required (varchar 16))
        ∷ ("granted_at", defaulted timestamp "now()")
        ∷ []);
    constraints =
        (ck_name "shares" "role_valid", check "role IN ('editor', 'viewer')")
        ∷ (pk_name "shares", primary_key ("list_id" ∷ "user_id" ∷ []))
        ∷ [];
    foreign_keys = key_to "shares" "list_id" "lists" ∷ key_to "shares" "user_id" "users" ∷ [];
    filled = filled "shares";
  }

  abbrev pub sessions_table : Table
  sessions_table = record {
    columns = columns_of (
        ("id", required uuid)
        ∷ ("user_id", required uuid)
        ∷ ("token_hash", required (varchar 64))
        ∷ ("expires_at", required timestamp)
        ∷ ("created_at", defaulted timestamp "now()")
        ∷ []);
    constraints = (pk_name "sessions", primary_key ("id" ∷ [])) ∷ [];
    foreign_keys = key_to "sessions" "user_id" "users" ∷ [];
    filled = filled "sessions";
  }

  abbrev pub password_reset_tokens_table : Table
  password_reset_tokens_table = record {
    columns = columns_of (
        ("id", required uuid)
        ∷ ("user_id", required uuid)
        ∷ ("token_hash", required (varchar 64))
        ∷ ("expires_at", required timestamp)
        ∷ ("used_at", optional timestamp)
        ∷ ("created_at", defaulted timestamp "now()")
        ∷ []);
    constraints = (pk_name "password_reset_tokens", primary_key ("id" ∷ [])) ∷ [];
    foreign_keys = key_to "password_reset_tokens" "user_id" "users" ∷ [];
    filled = filled "password_reset_tokens";
  }

  -- the tables, those first that refer to others
  abbrev pub metadata_tables : List (String × Table)
  metadata_tables =
      ("shares", shares_table)
      ∷ ("items", items_table)
      ∷ ("lists", lists_table)
      ∷ ("sessions", sessions_table)
      ∷ ("password_reset_tokens", password_reset_tokens_table)
      ∷ ("users", users_table)
      ∷ []

abbrev pub metadata_indexes : List (String × Index)
metadata_indexes =
    indexed "sessions" "token_hash"
    ∷ indexed "password_reset_tokens" "token_hash"
    ∷ indexed "users" "email"
    ∷ []
