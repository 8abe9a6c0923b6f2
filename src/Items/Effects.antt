-- ===== src/Items/Effects.antt =====
-- What the routes of app/items do, on every branch.
use shared_todos.Common.{
  storable, ℕ, ◌≤◌, ◌≡◌, refl, sym, ap, ◌∙◌, ◌≢◌, Bool, true, false, ◌&&◌, not, List, [], ◌∷◌, ◌==◌,
  nat_eq, string_eq, bool_eq, and_left, ==_refl, count, Sorted, get_or, arith,
}
use shared_todos.Common.Int.{leb_ℤ-total, leb_ℤ-trans, fits_int32, int_eq}
use shared_todos.Http.{ok, err, http, data_error}
use shared_todos.Db.{
  Engine, IsEngine, tally, Item, Db, has_id, on_list, is_item, rewritten, Session, ◌>>=◌, commit,
  run, moved_to, scalar_one_or_none, scalar_one, apply, apply_all,
}
use shared_todos.Db.Tally.{length-select, select-empty, select-single, tally-ext, tally_mono}
use shared_todos.Db.Invariant.{
  tally-update_same, tally-delete_all, tally-delete_none, exists-of_tally, not_exists-of_tally,
}
use shared_todos.Authz.Dependencies.{ListPermission}
use shared_todos.Items.{
  ItemCreate, ItemUpdate, order_le, edited, create_item, list_items, update_item, delete_item,
}

module _ ⦃e : Engine⦄ (laws : IsEngine e) (perm : ListPermission) (s : Session e) where
  -- The items of a list come in their order, and each item of the list as often as it is stored.
  pub list_items-Sorted :
      (items : List Item) × (run (list_items perm) s ≡ (ok items, moved_to s s.db))
      × Sorted order_le items
      × ((q : Item → Bool)
          → count q items ≡ tally (λ it. on_list perm.list_id it && q it) s.db.items)
  unfolding list_items run ◌>>=◌
  list_items-Sorted = (
    e.select_ordered order_le (on_list perm.list_id) s.db.items,
    refl,
    laws.select_ordered-Sorted order_le (on_list perm.list_id) s.db.items
        (λ a b. leb_ℤ-total a.order b.order) (λ a b c. leb_ℤ-trans a.order b.order c.order),
    λ q. laws.count-select_ordered q order_le (on_list perm.list_id) s.db.items,
  )

  -- an item of that id, of the list that the caller has permission for
  abbrev own_item : ℕ → Item → Bool
  own_item item_id it = is_item item_id it && on_list perm.list_id it

  module _ (item_id : ℕ) (unique : tally (is_item item_id) s.db.items ≤ 1)
      (foreign : tally (own_item item_id) s.db.items ≡ 0) where
    -- Where the ids of items are unique: an item of another list, or none, is out of reach, for a
    -- change and for a deletion. Both answer 404, and nothing changes.
    pub foreign_item :
        (body : ItemUpdate) (now : ℕ)
        → (run (update_item item_id body perm now) s
            ≡ (err (http 404 "Not found"), moved_to s s.db))
          × (run (delete_item item_id perm) s ≡ (err (http 404 "Not found"), moved_to s s.db))
    unfolding update_item delete_item run ◌>>=◌ scalar_one_or_none
    foreign_item body now = elim (nat_eq.dec (tally (is_item item_id) s.db.items) 0) [
      | yes none_ ↦ ground (arith, select-empty laws (is_item item_id) s.db.items none_)
      | no there ↦
          let (it, found, passes, within) =
            select-single laws (is_item item_id) s.db.items (omega arith) in
          ground (arith, found, within (on_list perm.list_id), foreign)
    ]

module _ ⦃e : Engine⦄ (laws : IsEngine e) (perm : ListPermission) (s : Session e)
    (body : ItemCreate) (id now : ℕ) where
  abbrev new_item : Item
  new_item = record {
    id = id;
    list_id = perm.list_id;
    content = body.content;
    completed = false;
    order = body.order;
    created_at = now;
    updated_at = now;
  }

  -- An order beyond 32 bits passes the schema, and is refused by the column: the request ends in a
  -- server error.
  pub create_item-overflow :
      fits_int32 body.order ≡ false
      → run (create_item body perm id now) s ≡ (err data_error, moved_to s s.db)
  unfolding create_item run ◌>>=◌ commit apply_all apply
  create_item-overflow wide = ground (arith, wide)

  unfoldable pub with_item : Db e
  with_item = record s.db { items = e.insert new_item s.db.items }

  abbrev pub as_asked : Item → Bool
  as_asked it =
      is_item id it
      && (on_list perm.list_id it
          && (it.content == body.content && (it.order == body.order && not it.completed)))

  module _ (fits : (storable body.content && fits_int32 body.order) ≡ true)
      (fresh : tally (is_item id) s.db.items ≡ 0)
      (list_there : tally (has_id perm.list_id) s.db.lists ≢ 0) where
    one-with_item : tally (is_item id) with_item.items ≡ 1
    unfolding with_item
    one-with_item = ground (arith, laws.tally-insert (is_item id) new_item s.db.items, fresh)

    asked-with_item : tally as_asked with_item.items ≡ 1
    unfolding with_item
    asked-with_item = ground (
      arith,
      laws.tally-insert as_asked new_item s.db.items,
      tally_mono as_asked (is_item id) s.db.items (λ it. and_left (is_item id it) _),
      fresh,
      ==_refl body.content,
      ==_refl body.order,
    )

    -- A new item whose order and text fit their columns, under a new id and on a list that is there, is stored
    -- once, on the list of the permission, not completed, with the content and
    -- the order of the body, and the answer shows it.
    pub create_item-created :
        (it : Item) × (run (create_item body perm id now) s ≡ (ok it, moved_to s with_item))
        × (as_asked it ≡ true)
        × (tally as_asked with_item.items ≡ 1)
    unfolding create_item run ◌>>=◌ scalar_one commit apply_all apply with_item
    create_item-created =
        let (it, found, passes, within) =
          select-single laws (is_item id) with_item.items one-with_item in
        (
          it,
          ground (
            arith,
            found,
            fits,
            not_exists-of_tally laws (is_item id) s.db.items fresh,
            exists-of_tally laws (has_id perm.list_id) s.db.lists list_there,
          ),
          ground (
            arith,
            passes,
            within as_asked,
            asked-with_item,
            tally-ext as_asked (λ x. is_item id x && as_asked x) with_item.items,
          ),
          asked-with_item,
        )

module _ ⦃e : Engine⦄ (laws : IsEngine e) (perm : ListPermission) (s : Session e) (item_id : ℕ)
    (it : Item) (found : e.select (is_item item_id) s.db.items ≡ it ∷ [])
    (same_id : it.id ≡ item_id) (same_list : it.list_id ≡ perm.list_id) where
  unfoldable pub without_item : Db e
  without_item = record s.db { items = e.delete (is_item item_id) s.db.items }

  -- The item that has an id, and is on the list of the permission, is deleted, and no other item.
  pub delete_item-found :
      (run (delete_item item_id perm) s ≡ (ok tt, moved_to s without_item))
      × (tally (is_item item_id) without_item.items ≡ 0)
      × ((q : Item → Bool)
          → ((x : Item) → q x ≡ true → is_item item_id x ≡ false)
          → tally q without_item.items ≡ tally q s.db.items)
  unfolding delete_item run ◌>>=◌ scalar_one_or_none commit apply_all apply without_item
  delete_item-found = (
    ground (arith, found, same_id, same_list),
    tally-delete_all laws (is_item item_id) (is_item item_id) s.db.items (λ r h. h),
    λ q other. tally-delete_none laws q (is_item item_id) s.db.items other,
  )

  module _ (body : ItemUpdate) (now : ℕ) where
    abbrev new : Item
    new = edited body now it

    unfoldable pub updated : Db e
    updated = record s.db {
      items =
          e.update (is_item item_id) (rewritten new.content new.completed new.order new.updated_at)
            s.db.items;
    }

    -- what a PATCH asks for: the given fields as given, the others as they were
    abbrev pub patched : Item → Bool
    patched x =
        is_item item_id x
        && (x.content == get_or it.content body.content
            && (x.completed == get_or it.completed body.completed
                && x.order == get_or it.order body.order))

    edited-fields :
        (new.content ≡ get_or it.content body.content)
        × (new.completed ≡ get_or it.completed body.completed)
        × (new.order ≡ get_or it.order body.order)
    unfolding edited
    edited-fields = ground arith

    one-updated : tally (is_item item_id) updated.items ≡ tally (is_item item_id) s.db.items
    unfolding updated
    one-updated =
        tally-update_same laws (is_item item_id) (is_item item_id) _ s.db.items (λ x _. refl)

    patched-updated : tally patched updated.items ≡ tally (is_item item_id) s.db.items
    unfolding updated
    patched-updated =
        laws.tally-update patched (is_item item_id) _ s.db.items
        ∙ tally-ext _ (is_item item_id) s.db.items (λ x. ground (arith, edited-fields))

    one_here : tally (is_item item_id) s.db.items ≡ 1
    one_here = sym (length-select laws (is_item item_id) s.db.items) ∙ ap (count (λ _. true)) found

    -- A PATCH that fits the columns (the order has 32 bits, the text has no NUL) changes the given
    -- fields of its item to what was given, leaves the others, and leaves every other item; the
    -- answer shows the item as it is then.
    pub update_item-found :
        (storable (get_or it.content body.content) && fits_int32 (get_or it.order body.order))
          ≡ true
        → (x : Item) × (run (update_item item_id body perm now) s ≡ (ok x, moved_to s updated))
          × (patched x ≡ true)
          × ((q : Item → Bool)
              → ((y : Item) → is_item item_id y ≡ true → q y ≡ false)
              → tally (λ y. not (is_item item_id y) && q y) updated.items ≡ tally q s.db.items)
    unfolding update_item run ◌>>=◌ scalar_one_or_none scalar_one commit apply_all apply updated
    update_item-found fits =
        let (x, found', passes, within) =
          select-single laws (is_item item_id) updated.items (one-updated ∙ one_here) in
        (
          x,
          ground (arith, found, same_id, same_list, found', fits, edited-fields),
          ground (
            arith,
            passes,
            within patched,
            patched-updated,
            one_here,
            tally-ext patched (λ y. is_item item_id y && patched y) updated.items,
          ),
          λ q other.
              laws.tally-update _ (is_item item_id) _ s.db.items
              ∙ tally-ext _ q s.db.items (λ y. ground (arith, other y)),
        )
