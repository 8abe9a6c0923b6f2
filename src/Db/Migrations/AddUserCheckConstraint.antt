-- ===== src/Db/Migrations/AddUserCheckConstraint.antt =====
-- alembic/versions/380d8a29fa13_add_user_check_constraint_has_auth_.py: a name without `op.f` passes
-- through the convention for a check.
use shared_todos.Common.{List, [], ◌∷◌}
use shared_todos.Db.Ddl.{Op, create_check_constraint, drop_constraint}
use shared_todos.Db.Metadata.{ck_name}

abbrev pub upgrade : List Op
upgrade =
    create_check_constraint (ck_name "users" "ck_users_has_auth_method") "users"
      "password_hash IS NOT NULL OR google_sub IS NOT NULL"
    ∷ []

abbrev pub downgrade : List Op
downgrade = drop_constraint (ck_name "users" "ck_users_has_auth_method") "users" ∷ []
