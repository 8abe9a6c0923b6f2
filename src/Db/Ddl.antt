-- ===== src/Db/Ddl.antt =====
-- The schema of a database and the operations on it that the migrations use: `sa.Column`,
-- `sa.ForeignKeyConstraint`, … and alembic's `op.create_table`, `op.drop_table`, ….
pub mod Runs
use shared_todos.Common.{
  ℕ, ◌≡◌, refl, String, Bool, true, false, not, ◌&&◌, ◌||◌, Option, none, some, List, [], ◌∷◌, ◌++◌,
  ◌==◌, string_eq, if◌then◌else◌, is_some, arith,
}

pub data ColumnType : Type 0 where
  uuid : ColumnType
  varchar : ℕ → ColumnType
  text : ColumnType
  boolean : ColumnType
  integer : ColumnType
  -- `sa.DateTime(timezone=True)`
  timestamp : ColumnType

pub record Column : Type 0 where
  pub kind : ColumnType
  pub nullable : Bool
  pub server_default : Option String

pub data Constraint : Type 0 where
  primary_key : List String → Constraint
  unique : List String → Constraint
  check : String → Constraint

pub record ForeignKey : Type 0 where
  pub column : String
  pub referred : String
  pub referred_column : String
  pub ondelete : String

pub record Index : Type 0 where
  pub table : String
  pub columns : List String
  pub unique_index : Bool

-- The order of the columns is forgotten. Of the rows it is only kept whether there are any.
pub record Table : Type 0 where
  pub columns : String → Option Column
  pub constraints : List (String × Constraint)
  pub foreign_keys : List (String × ForeignKey)
  pub filled : Bool

-- The tables, the indexes that are no constraint's, the names of the other relations and types
-- (views, sequences, domains), and the names of the tables that something else depends on: a view, a
-- trigger, a rule, a table that inherits, a column of the row's type. alembic's own table of versions
-- is left out.
pub record Catalog : Type 0 where
  pub tables : List (String × Table)
  pub indexes : List (String × Index)
  pub others : List String
  pub depended : List String

pub data Op : Type 0 where
  create_table :
      String → List (String × Column) → List (String × Constraint) → List (String × ForeignKey) → Op
  drop_table : String → Op
  create_index : String → String → List String → Bool → Op
  drop_index : String → String → Op
  add_column : String → String → Column → Op
  drop_column : String → String → Op
  create_check_constraint : String → String → String → Op
  drop_constraint : String → String → Op
  -- `op.execute("DELETE FROM …")`
  delete_from : String → Op

module _ {A : Type 0} where
  unfoldable pub find : String → List (String × A) → Option A
  find name [] = none
  find name ((other, a) ∷ rest) = if other == name then some a else find name rest

  abbrev pub known : String → List (String × A) → Bool
  known name entries = is_some (find name entries)

  unfoldable pub remove : String → List (String × A) → List (String × A)
  remove name [] = []
  remove name ((other, a) ∷ rest) =
      let others = remove name rest in if other == name then others else (other, a) ∷ others

  unfoldable pub alter : String → (A → A) → List (String × A) → List (String × A)
  alter name f [] = []
  alter name f ((other, a) ∷ rest) =
      let others = alter name f rest in
      if other == name then (other, f a) ∷ rest else (other, a) ∷ others

  unfoldable pub every : (A → Bool) → List (String × A) → Bool
  every p [] = true
  every p ((name, a) ∷ rest) = p a && every p rest

abbrev pub names : String → List String → Bool
names name [] = false
names name (other ∷ rest) = other == name || names name rest

-- the names of the constraints that have an index of that name
abbrev pub is_key : Constraint → Bool
is_key (check condition) = false
is_key _ = true

abbrev pub has_key : String → Table → Bool
has_key name t = elim (find name t.constraints) [ none ↦ false | some k ↦ is_key k ]

-- Does the name stand for a relation or a type?
abbrev pub taken : String → Catalog → Bool
taken name c =
    known name c.tables
    || known name c.indexes
    || not (every (λ t. not (has_key name t)) c.tables)
    || names name c.others

abbrev pub untaken : List (String × Constraint) → Catalog → Bool
untaken [] c = true
untaken ((name, k) ∷ rest) c = (not (is_key k) || not (taken name c)) && untaken rest c

-- the columns that the conditions of the models read
abbrev pub check_columns : String → Option (List String)
check_columns condition =
    if condition == "password_hash IS NOT NULL OR google_sub IS NOT NULL"
    then some ("password_hash" ∷ "google_sub" ∷ [])
    else if condition == "role IN ('editor', 'viewer')"
    then some ("role" ∷ [])
    else none

-- could the constraint be about the column?
abbrev pub mentions : String → Constraint → Bool
mentions column (primary_key columns) = names column columns
mentions column (unique columns) = names column columns
mentions column (check condition) = true

abbrev pub refers : String → Table → Bool
refers name t = not (every (λ fk. not (fk.referred == name)) t.foreign_keys)

abbrev pub has_columns : List String → Table → Bool
has_columns [] t = true
has_columns (column ∷ columns) t = is_some (t.columns column) && has_columns columns t

abbrev pub can_check : String → Table → Bool
can_check condition t = elim (check_columns condition) [
  | none ↦ false
  | some columns ↦ has_columns columns t
]

abbrev pub can_constrain : Table → Constraint → Bool
can_constrain t (primary_key columns) = has_columns columns t
can_constrain t (unique columns) = has_columns columns t
can_constrain t (check condition) = can_check condition t

abbrev pub of_uuid : ColumnType → Bool
of_uuid uuid = true
of_uuid _ = false

abbrev pub is_uuid : Option Column → Bool
is_uuid none = false
is_uuid (some column) = of_uuid column.kind

abbrev pub is_primary : String → Constraint → Bool
is_primary column (primary_key (name ∷ [])) = name == column
is_primary column _ = false

-- can a foreign key refer to the column?
abbrev pub is_referable : String → Table → Bool
is_referable column t =
    is_uuid (t.columns column) && not (every (λ k. not (is_primary column k)) t.constraints)

abbrev pub is_check : Constraint → Bool
is_check (check condition) = true
is_check _ = false

abbrev pub with_column : String → Option Column → Table → Table
with_column name column t = record t { columns = λ n. if n == name then column else t.columns n }

abbrev pub when : Bool → Catalog → Option Catalog
when true c = some c
when false c = none

-- Does a table pass the test?
abbrev pub table_is : String → (Table → Bool) → Catalog → Bool
table_is name p c = elim (find name c.tables) [ none ↦ false | some t ↦ p t ]

abbrev pub on_table : Catalog → String → (Table → Table) → Catalog
on_table c name f = record c { tables = alter name f c.tables }

abbrev pub is_referred : String → Catalog → Bool
is_referred name c = not (every (λ t. not (refers name t)) (remove name c.tables))

abbrev pub new_table :
    List (String × Column) → List (String × Constraint) → List (String × ForeignKey) → Table
new_table columns constraints keys = record {
  columns = λ n. find n columns;
  constraints = constraints;
  foreign_keys = keys;
  filled = false;
}

-- What an operation of the revisions makes of a catalog where PostgreSQL carries it out. Of the other
-- cases nothing is said: a name that is taken, a key or a condition on a column that is not there, a
-- foreign key to a column that is no primary key, an index that goes with its table, something that
-- depends on a table or refers to it, a NOT NULL column for rows that are there, a check of such rows.
unfoldable pub effect : Op → Catalog → Option Catalog
effect (create_table name columns constraints keys) c =
    let t = new_table columns constraints keys in
    when
      (not (taken name c)
        && untaken constraints c
        && every (can_constrain t) constraints
        && every (λ fk. is_uuid (t.columns fk.column)) keys
        && every (λ fk. table_is fk.referred (is_referable fk.referred_column) c) keys)
      (record c { tables = (name, t) ∷ c.tables })
effect (drop_table name) c =
    when
      (known name c.tables
        && not (is_referred name c)
        && not (names name c.depended)
        && every (λ (i : Index). not (i.table == name)) c.indexes)
      (record c { tables = remove name c.tables })
effect (create_index name table columns is_unique) c =
    when
      (table_is table (λ t. has_columns columns t && (not is_unique || not t.filled)) c
        && not (taken name c))
      (record c {
        indexes =
            (name, record { table = table; columns = columns; unique_index = is_unique })
            ∷ c.indexes;
      })
effect (drop_index name table) c =
    when
      (elim (find name c.indexes) [ none ↦ false | some i ↦ i.table == table ]
        && not (is_referred table c))
      (record c { indexes = remove name c.indexes })
effect (add_column table name column) c =
    when
      (table_is table
          (λ t.
            not (is_some (t.columns name))
            && (column.nullable || is_some column.server_default || not t.filled))
          c
        && not (names table c.depended))
      (on_table c table (with_column name (some column)))
effect (drop_column table name) c =
    when
      (table_is table
          (λ t.
            is_some (t.columns name)
            && every (λ k. not (mentions name k)) t.constraints
            && every (λ fk. not (fk.column == name)) t.foreign_keys)
          c
        && every (λ (i : Index). not (i.table == table && names name i.columns)) c.indexes
        && not (is_referred table c)
        && not (names table c.depended))
      (on_table c table (with_column name none))
effect (create_check_constraint name table condition) c =
    when
      (table_is table
        (λ t.
          not (known name t.constraints)
          && not (known name t.foreign_keys)
          && can_check condition t
          && not t.filled)
        c)
      (on_table c table λ t. record t { constraints = (name, check condition) ∷ t.constraints })
effect (drop_constraint name table) c =
    when
      (table_is table (λ t. elim (find name t.constraints) [ none ↦ false | some k ↦ is_check k ])
        c)
      (on_table c table λ t. record t { constraints = remove name t.constraints })
effect (delete_from table) c =
    when (known table c.tables && not (is_referred table c) && not (names table c.depended))
      (on_table c table λ t. record t { filled = false })

-- one operation after another, as long as they succeed
abbrev pub carry : {A B : Type 0} → (A → Option B) → Option A → Option B
carry f none = none
carry f (some a) = f a

unfoldable pub effects : List Op → Catalog → Option Catalog
effects [] c = some c
effects (op ∷ ops) c = carry (effects ops) (effect op c)
