-- ===== src/Db/Schema.antt =====
-- The six tables together, and what a flush of the ORM's pending changes does to them: each write
-- meets the constraints that app/models declares, and a deletion takes its ON DELETE CASCADE along.
use shared_todos.Common.{
  ℕ, String, Bool, not, ◌&&◌, ◌||◌, some, List, [], ◌∷◌, ◌==◌, nat_eq, string_eq, option_eq,
  if◌then◌else◌, is_some, is_empty, storable,
}
use shared_todos.Common.Int.{ℤ, fits_int32}
use shared_todos.Http.{
  Result, ok, unique_violation, foreign_key_violation, check_violation, data_error, stale_data,
  ◌>>=◌, ◌>>◌, require,
}
use shared_todos.Db.Server.{Engine}
use shared_todos.Db.Models.{User, ListRow, Item, Share, SessionRow, PasswordResetToken}

pub record Db (e : Engine) : Type 0 where
  pub users : e.Table User
  pub lists : e.Table ListRow
  pub items : e.Table Item
  pub shares : e.Table Share
  pub sessions : e.Table SessionRow
  pub reset_tokens : e.Table PasswordResetToken

-- the conditions by which rows are looked up
abbrev pub has_id : ℕ → ListRow → Bool
has_id i l = l.id == i

abbrev pub on_list : ℕ → Item → Bool
on_list i it = it.list_id == i

abbrev pub shares_list : ℕ → Share → Bool
shares_list i s = s.list_id == i

abbrev pub is_share : ℕ → ℕ → Share → Bool
is_share list_id user_id s = s.list_id == list_id && s.user_id == user_id

abbrev pub is_user : ℕ → User → Bool
is_user i u = u.id == i

abbrev pub has_email : String → User → Bool
has_email email u = u.email == email

abbrev pub is_item : ℕ → Item → Bool
is_item i it = it.id == i

abbrev pub has_token_hash : String → SessionRow → Bool
has_token_hash hash s = s.token_hash == hash

-- the CHECK constraints
abbrev pub has_auth_method : User → Bool
has_auth_method u = is_some u.password_hash || is_some u.google_sub

abbrev pub role_valid : String → Bool
role_valid role = role == "editor" || role == "viewer"

-- What a session has pending: added objects, changed attributes, deletions.
pub data Write : Type 0 where
  add_user : User → Write
  add_list : ListRow → Write
  add_item : Item → Write
  add_share : Share → Write
  add_session : SessionRow → Write
  add_reset_token : PasswordResetToken → Write
  set_name : ℕ → String → ℕ → Write
  set_item : ℕ → String → Bool → ℤ → ℕ → Write
  set_role : ℕ → ℕ → String → Write
  set_password_hash : ℕ → String → ℕ → Write
  set_google_sub : ℕ → String → ℕ → Write
  set_used_at : ℕ → ℕ → Write
  remove_list : ℕ → Write
  remove_item : ℕ → Write
  remove_share : ℕ → ℕ → Write
  remove_session_hash : String → Write
  remove_user_sessions : ℕ → Write

-- the UNIQUE constraints and the primary keys of users, sessions and reset tokens
abbrev pub clashes_user : User → User → Bool
clashes_user u v =
    v.id == u.id || v.email == u.email || is_some u.google_sub && v.google_sub == u.google_sub

abbrev pub clashes_session : SessionRow → SessionRow → Bool
clashes_session s v = v.id == s.id || v.token_hash == s.token_hash

abbrev pub clashes_reset_token : PasswordResetToken → PasswordResetToken → Bool
clashes_reset_token t v = v.id == t.id || v.token_hash == t.token_hash

-- The ORM sends an UPDATE only for an attribute whose value has changed, and `onupdate` stamps that.
abbrev pub renamed : String → ℕ → ListRow → ListRow
renamed name now l = if l.name == name then l else record l { name = name; updated_at = now }

-- the columns that an item's UPDATE sets
abbrev pub rewritten : String → Bool → ℤ → ℕ → Item → Item
rewritten content completed order now it = record it {
  content = content;
  completed = completed;
  order = order;
  updated_at = now;
}

module _ ⦃e : Engine⦄ where
  -- does a row of the table pass the test?
  abbrev pub exists : {Row : Type 0} → (Row → Bool) → e.Table Row → Bool
  exists p t = not (is_empty (e.select p t))

  -- An UPDATE of a row that is gone is an error of the ORM.
  unfoldable pub apply : Write → Db e → Result (Db e)
  apply (add_user u) db = do
    require (has_auth_method u) check_violation
    require (not (exists (clashes_user u) db.users)) unique_violation
    ok (record db { users = e.insert u db.users })
  apply (add_list l) db = do
    require (storable l.name) data_error
    require (not (exists (has_id l.id) db.lists)) unique_violation
    require (exists (is_user l.owner_id) db.users) foreign_key_violation
    ok (record db { lists = e.insert l db.lists })
  apply (add_item it) db = do
    require (storable it.content && fits_int32 it.order) data_error
    require (not (exists (is_item it.id) db.items)) unique_violation
    require (exists (has_id it.list_id) db.lists) foreign_key_violation
    ok (record db { items = e.insert it db.items })
  apply (add_share s) db = do
    require (role_valid s.role) check_violation
    require (not (exists (is_share s.list_id s.user_id) db.shares)) unique_violation
    require (exists (has_id s.list_id) db.lists && exists (is_user s.user_id) db.users)
        foreign_key_violation
    ok (record db { shares = e.insert s db.shares })
  apply (add_session s) db = do
    require (not (exists (clashes_session s) db.sessions)) unique_violation
    require (exists (is_user s.user_id) db.users) foreign_key_violation
    ok (record db { sessions = e.insert s db.sessions })
  apply (add_reset_token t) db = do
    require (not (exists (clashes_reset_token t) db.reset_tokens)) unique_violation
    require (exists (is_user t.user_id) db.users) foreign_key_violation
    ok (record db { reset_tokens = e.insert t db.reset_tokens })
  apply (set_name i name now) db = do
    require (storable name) data_error
    require (exists (has_id i) db.lists) stale_data
    ok (record db { lists = e.update (has_id i) (renamed name now) db.lists })
  apply (set_item i content completed order now) db = do
    require (storable content && fits_int32 order) data_error
    require (exists (is_item i) db.items) stale_data
    ok (record db { items = e.update (is_item i) (rewritten content completed order now) db.items })
  apply (set_role l u role) db = do
    require (exists (is_share l u) db.shares) stale_data
    require (role_valid role) check_violation
    ok (record db { shares = e.update (is_share l u) (λ s. record s { role = role }) db.shares })
  apply (set_password_hash i hash now) db = do
    require (exists (is_user i) db.users) stale_data
    ok (record db {
      users =
          e.update (is_user i) (λ u. record u { password_hash = some hash; updated_at = now })
            db.users;
    })
  apply (set_google_sub i sub now) db = do
    require (exists (is_user i) db.users) stale_data
    require (not (exists (λ v. not (v.id == i) && v.google_sub == some sub) db.users))
        unique_violation
    ok (record db {
      users =
          e.update (is_user i) (λ u. record u { google_sub = some sub; updated_at = now }) db.users;
    })
  apply (set_used_at i now) db = do
    require (exists (λ t. t.id == i) db.reset_tokens) stale_data
    ok (record db {
      reset_tokens =
          e.update (λ t. t.id == i) (λ t. record t { used_at = some now }) db.reset_tokens;
    })
  apply (remove_list i) db = ok (record db {
    lists = e.delete (has_id i) db.lists;
    items = e.delete (on_list i) db.items;
    shares = e.delete (shares_list i) db.shares;
  })
  apply (remove_item i) db = ok (record db { items = e.delete (is_item i) db.items })
  apply (remove_share l u) db = ok (record db { shares = e.delete (is_share l u) db.shares })
  apply (remove_session_hash hash) db =
      ok (record db { sessions = e.delete (has_token_hash hash) db.sessions })
  apply (remove_user_sessions i) db =
      ok (record db { sessions = e.delete (λ s. s.user_id == i) db.sessions })

  -- The writes of one transaction, in order: all of them, or an error.
  unfoldable pub apply_all : List Write → Db e → Result (Db e)
  apply_all [] db = ok db
  apply_all (w ∷ ws) db = do db' ← apply w db; apply_all ws db'
