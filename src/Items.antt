-- ===== src/Items.antt =====
-- app/items: the router of items and its schemas.
pub mod Effects
mod Tests
use shared_todos.Common.{
  ℕ, String, Bool, true, false, not, ◌&&◌, Option, none, some, List, get_or, ◌==◌, nat_eq,
  string_eq, bool_eq, leb, str_length, if◌then◌else◌,
}
use shared_todos.Common.Int.{ℤ, leb_ℤ, int_eq}
use shared_todos.Http.{http}
use shared_todos.Db.{
  Engine, Item, is_item, on_list, add_item, set_item, remove_item, Tx, ◌>>=◌, ◌>>◌, pure, or_404,
  raise_if, lift, query, write, commit, scalar_one_or_none, scalar_one,
}
use shared_todos.Authz.Dependencies.{ListPermission}

pub record ItemCreate : Type 0 where
  pub content : String
  pub order : ℤ

pub record ItemUpdate : Type 0 where
  pub content : Option String
  pub completed : Option Bool
  pub order : Option ℤ

pub record ItemOut : Type 0 where
  pub id : ℕ
  pub list_id : ℕ
  pub content : String
  pub completed : Bool
  pub order : ℤ
  pub created_at : ℕ
  pub updated_at : ℕ

-- `from_attributes`
abbrev pub item_out_of : Item → ItemOut
item_out_of it = record {
  id = it.id;
  list_id = it.list_id;
  content = it.content;
  completed = it.completed;
  order = it.order;
  created_at = it.created_at;
  updated_at = it.updated_at;
}

-- `Field(min_length=1, max_length=4096)`
abbrev content_fits : String → Bool
content_fits content = leb 1 (str_length content) && leb (str_length content) 4096

unfoldable pub ItemCreate_accepts : ItemCreate → Bool
ItemCreate_accepts body = content_fits body.content

unfoldable pub ItemUpdate_accepts : ItemUpdate → Bool
ItemUpdate_accepts body = elim body.content [ none ↦ true | some content ↦ content_fits content ]

-- `.order_by(Item.order)`
abbrev pub order_le : Item → Item → Bool
order_le a b = leb_ℤ a.order b.order

-- the three assignments of `update_item`; an UPDATE, and with it the new stamp, only if one of
-- them changes a value
unfoldable pub edited : ItemUpdate → ℕ → Item → Item
edited body now item =
    if content == item.content && completed == item.completed && order == item.order
    then item
    else record item { content = content; completed = completed; order = order; updated_at = now }
  where
    content : String
    content = get_or item.content body.content

    completed : Bool
    completed = get_or item.completed body.completed

    order : ℤ
    order = get_or item.order body.order

module _ ⦃e : Engine⦄ where
  -- `db.get(Item, item_id)` and the 404 for an item that is missing or of another list
  item_or_404 : ℕ → ListPermission → Tx e Item
  item_or_404 item_id perm = do
    found ← query (λ db. e.select (is_item item_id) db.items)
    item ← lift (scalar_one_or_none found)
    it ← or_404 item
    raise_if (not (it.list_id == perm.list_id)) (http 404 "Not found")
    pure it

  refresh : ℕ → Tx e Item
  refresh item_id = do
    found ← query (λ db. e.select (is_item item_id) db.items)
    lift (scalar_one found)

  unfoldable pub create_item : ItemCreate → ListPermission → ℕ → ℕ → Tx e Item
  unfolding refresh
  create_item body perm id now = do
    write (
        add_item (record {
          id = id;
          list_id = perm.list_id;
          content = body.content;
          completed = false;
          order = body.order;
          created_at = now;
          updated_at = now;
        }))
    commit
    refresh id

  unfoldable pub list_items : ListPermission → Tx e (List Item)
  list_items perm = query (λ db. e.select_ordered order_le (on_list perm.list_id) db.items)

  unfoldable pub update_item : ℕ → ItemUpdate → ListPermission → ℕ → Tx e Item
  unfolding item_or_404 refresh edited
  update_item item_id body perm now = do
    item ← item_or_404 item_id perm
    let new = edited body now item
    write (set_item item.id new.content new.completed new.order new.updated_at)
    commit
    refresh item.id

  unfoldable pub delete_item : ℕ → ListPermission → Tx e (Unit {0})
  unfolding item_or_404
  delete_item item_id perm = do item ← item_or_404 item_id perm; write (remove_item item.id); commit
