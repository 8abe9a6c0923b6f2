-- ===== src/Db/Models.antt =====
-- The rows of the six tables: app/models. A UUID and a point in time are numbers.
use shared_todos.Common.{ℕ, String, Bool, Option}
use shared_todos.Common.Int.{ℤ}

pub record User : Type 0 where
  pub id : ℕ
  pub email : String
  pub display_name : String
  pub password_hash : Option String
  pub google_sub : Option String
  pub created_at : ℕ
  pub updated_at : ℕ

-- the class `List`
pub record ListRow : Type 0 where
  pub id : ℕ
  pub owner_id : ℕ
  pub name : String
  pub created_at : ℕ
  pub updated_at : ℕ

pub record Item : Type 0 where
  pub id : ℕ
  pub list_id : ℕ
  pub content : String
  pub completed : Bool
  pub order : ℤ
  pub created_at : ℕ
  pub updated_at : ℕ

pub record Share : Type 0 where
  pub list_id : ℕ
  pub user_id : ℕ
  pub role : String
  pub granted_at : ℕ

-- the class `Session`
pub record SessionRow : Type 0 where
  pub id : ℕ
  pub user_id : ℕ
  pub token_hash : String
  pub expires_at : ℕ
  pub created_at : ℕ

pub record PasswordResetToken : Type 0 where
  pub id : ℕ
  pub user_id : ℕ
  pub token_hash : String
  pub expires_at : ℕ
  pub used_at : Option ℕ
  pub created_at : ℕ
