-- ===== src/Lists.antt =====
-- app/lists: the router of lists and its schemas. A handler takes the row's new id and the time of
-- its transaction as arguments.
pub mod Effects
pub mod Listing
mod Tests
use shared_todos.Common.{
  ℕ, String, Bool, ◌&&◌, none, some, List, [], ◌∷◌, ◌++◌, ◌==◌, contains, nat_eq, leb, str_length,
  if◌then◌else◌,
}
use shared_todos.Db.{
  Engine, ListRow, Share, Db, has_id, add_list, set_name, remove_list, Tx, ◌>>=◌, ◌>>◌, pure,
  or_404, lift, query, write, commit, scalar_one_or_none, scalar_one,
}
use shared_todos.Authz.Dependencies.{ListPermission}

-- `ListCreate` and `ListUpdate`
pub record ListCreate : Type 0 where
  pub name : String

-- `Field(min_length=1, max_length=256)`
unfoldable pub ListCreate_accepts : ListCreate → Bool
ListCreate_accepts body = leb 1 (str_length body.name) && leb (str_length body.name) 256

pub record ListOut : Type 0 where
  pub id : ℕ
  pub owner_id : ℕ
  pub name : String
  pub created_at : ℕ
  pub updated_at : ℕ

-- `from_attributes`
abbrev pub list_out_of : ListRow → ListOut
list_out_of l = record {
  id = l.id;
  owner_id = l.owner_id;
  name = l.name;
  created_at = l.created_at;
  updated_at = l.updated_at;
}

-- `Share.user_id == user.id`
abbrev pub shared_with : ℕ → Share → Bool
shared_with user_id s = s.user_id == user_id

abbrev pub owned_by : ℕ → ListRow → Bool
owned_by user_id l = l.owner_id == user_id

-- the loop of `list_lists`
unfoldable pub unseen : List ℕ → List ListRow → List ListRow
unseen seen [] = []
unseen seen (lst ∷ rest) =
    let skip = unseen seen rest in
    let take = lst ∷ unseen (lst.id ∷ seen) rest in if contains seen lst.id then skip else take

module _ ⦃e : Engine⦄ where
  -- `db.get(List, list_id)`, and the 404 where there is no such row
  get_or_404 : ℕ → Tx e ListRow
  get_or_404 list_id = do
    found ← query (λ db. e.select (has_id list_id) db.lists)
    lst ← lift (scalar_one_or_none found)
    or_404 lst

  -- `db.refresh(lst)`
  refresh : ℕ → Tx e ListRow
  refresh list_id = do
    found ← query (λ db. e.select (has_id list_id) db.lists)
    lift (scalar_one found)

  unfoldable pub create_list : ListCreate → ℕ → ℕ → ℕ → Tx e ListRow
  unfolding refresh
  create_list body user_id id now = do
    write (
        add_list (record {
          id = id;
          owner_id = user_id;
          name = body.name;
          created_at = now;
          updated_at = now;
        }))
    commit
    refresh id

  -- `select(List).join(Share, Share.list_id == List.id).where(Share.user_id == user.id)`: a row of
  -- lists for each such share.
  abbrev pub join_shares : ℕ → List Share → Db e → List ListRow
  join_shares user_id [] db = []
  join_shares user_id (s ∷ ss) db =
      e.select (has_id s.list_id) db.lists ++ join_shares user_id ss db

  unfoldable pub list_lists : ℕ → Tx e (List ListRow)
  unfolding unseen
  list_lists user_id = do
    owned_lists ← query (λ db. e.select (owned_by user_id) db.lists)
    shared_lists ← query (λ db. join_shares user_id (e.select (shared_with user_id) db.shares) db)
    pure (unseen [] (owned_lists ++ shared_lists))

  unfoldable pub get_list : ListPermission → Tx e ListRow
  unfolding get_or_404
  get_list perm = get_or_404 perm.list_id

  unfoldable pub rename_list : ListCreate → ListPermission → ℕ → Tx e ListRow
  unfolding get_or_404 refresh
  rename_list body perm now = do
    lst ← get_or_404 perm.list_id
    write (set_name lst.id body.name now)
    commit
    refresh lst.id

  unfoldable pub delete_list : ListPermission → Tx e (Unit {0})
  unfolding get_or_404
  delete_list perm = do lst ← get_or_404 perm.list_id; write (remove_list lst.id); commit
