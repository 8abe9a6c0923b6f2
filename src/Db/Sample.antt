-- ===== src/Db/Sample.antt =====
-- A small database in memory for the examples.
use shared_todos.Common.{ℕ, false, none, some, [], ◌∷◌, nat_eq, string_eq, refl, arith}
use shared_todos.Common.Int.{pos}
use shared_todos.Db.Models.{User, ListRow, Item, Share}
use shared_todos.Db.Schema.{Db}
use shared_todos.Db.Transaction.{Session}
use shared_todos.Db.Memory.{memory}
use shared_todos.Db.Invariant.{IsConsistent}

abbrev pub user : ℕ → User
user id = record {
  id = id;
  email = "someone@example.org";
  display_name = "someone";
  password_hash = some "hash";
  google_sub = none;
  created_at = 0;
  updated_at = 0;
}

abbrev pub groceries : ListRow
groceries = record { id = 10; owner_id = 1; name = "groceries"; created_at = 0; updated_at = 0 }

abbrev pub milk : Item
milk = record {
  id = 20;
  list_id = 10;
  content = "milk";
  completed = false;
  order = pos 0;
  created_at = 0;
  updated_at = 0;
}

abbrev pub share_with : ℕ → Share
share_with user_id = record { list_id = 10; user_id = user_id; role = "viewer"; granted_at = 0 }

-- User 1 owns list 10 and shares it with user 2 as a viewer; user 3 is a stranger.
abbrev pub sample : Db memory
sample = record {
  users = user 1 ∷ user 2 ∷ user 3 ∷ [];
  lists = groceries ∷ [];
  items = milk ∷ [];
  shares = share_with 2 ∷ [];
  sessions = [];
  reset_tokens = [];
}

abbrev pub start : Session memory
start = record { db = sample; pending = []; failed_logins = [] }

pub sample-IsConsistent : IsConsistent sample
unfolding string_eq
sample-IsConsistent = record {
  list_ids = λ i. ground arith;
  item_ids = λ i. ground arith;
  share_keys = λ l u. ground arith;
  roles = refl;
  lists_of_items = λ i gone. ground arith;
  lists_of_shares = λ i gone. ground arith;
}
