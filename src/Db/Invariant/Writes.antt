-- ===== src/Db/Invariant/Writes.antt =====
-- The invariant under each write that the database accepts.
use shared_todos.Common.{
  ℕ, String, ◌≤◌, ◌≡◌, sym, ◌∙◌, Bool, true, ◌==◌, nat_eq, string_eq, ◌≢◌, arith,
}
use shared_todos.Common.Int.{ℤ}
use shared_todos.Http.{Ensures}
use shared_todos.Db.Server.{Engine, IsEngine, tally}
use shared_todos.Db.Models.{ListRow, Item, Share}
use shared_todos.Db.Schema.{
  Db, Write, has_id, on_list, shares_list, is_share, is_item, role_valid, apply, renamed, rewritten,
  add_list, add_item, add_share, set_name, set_item, set_role, remove_list, remove_item,
  remove_share,
}
use shared_todos.Db.Invariant.{
  IsConsistent, bad_role, tally-of_not_exists, tally-of_exists, tally-update_same, tally-update_le,
  tally-delete_le, tally-delete_all, tally-delete_none,
}

module _ ⦃e : Engine⦄ (laws : IsEngine e) where
  add_list-IsConsistent :
      (l : ListRow) (db : Db e)
      → IsConsistent db
      → tally (has_id l.id) db.lists ≡ 0
      → IsConsistent (record db { lists = e.insert l db.lists })
  add_list-IsConsistent l db h fresh = record {
    list_ids = λ i. ground (arith, laws.tally-insert (has_id i) l db.lists, h.list_ids i);
    item_ids = h.item_ids;
    share_keys = h.share_keys;
    roles = h.roles;
    lists_of_items =
        λ i gone. h.lists_of_items i (omega (arith, laws.tally-insert (has_id i) l db.lists));
    lists_of_shares =
        λ i gone. h.lists_of_shares i (omega (arith, laws.tally-insert (has_id i) l db.lists));
  }

  set_name-IsConsistent :
      (i : ℕ) (name : String) (now : ℕ) (db : Db e)
      → IsConsistent db
      → IsConsistent (record db { lists = e.update (has_id i) (renamed name now) db.lists })
  set_name-IsConsistent i name now db h = record {
    list_ids = λ j. omega (arith, same j, h.list_ids j);
    item_ids = h.item_ids;
    share_keys = h.share_keys;
    roles = h.roles;
    lists_of_items = λ j gone. h.lists_of_items j (sym (same j) ∙ gone);
    lists_of_shares = λ j gone. h.lists_of_shares j (sym (same j) ∙ gone);
  }
    where
      same :
          (j : ℕ)
          → tally (has_id j) (e.update (has_id i) (renamed name now) db.lists)
            ≡ tally (has_id j) db.lists
      same j =
          tally-update_same laws (has_id j) (has_id i) (renamed name now) db.lists
            (λ r _. ground arith)

  -- ON DELETE CASCADE: what refers to the lists that are left
  cascade :
      {Row : Type 0} (key : Row → ℕ) (t : e.Table Row) (i j : ℕ) (lists : e.Table ListRow)
      → (tally (has_id j) lists ≡ 0 → tally (λ r. key r == j) t ≡ 0)
      → tally (has_id j) (e.delete (has_id i) lists) ≡ 0
      → tally (λ r. key r == j) (e.delete (λ r. key r == i) t) ≡ 0
  cascade key t i j lists held gone = elim (nat_eq.dec i j) [
    | yes same ↦ tally-delete_all laws _ _ t (λ r. rw same (λ h. h))
    | no differ ↦ omega (
      arith,
      held (
          sym (tally-delete_none laws (has_id j) (has_id i) lists (λ l. ground (arith, differ)))
          ∙ gone),
      tally-delete_le laws (λ r. key r == j) (λ r. key r == i) t,
    )
  ]

  remove_list-IsConsistent :
      (i : ℕ) (db : Db e)
      → IsConsistent db
      → IsConsistent (record db {
        lists = e.delete (has_id i) db.lists;
        items = e.delete (on_list i) db.items;
        shares = e.delete (shares_list i) db.shares;
      })
  remove_list-IsConsistent i db h = record {
    list_ids =
        λ j. omega (arith, tally-delete_le laws (has_id j) (has_id i) db.lists, h.list_ids j);
    item_ids =
        λ j. omega (arith, tally-delete_le laws (is_item j) (on_list i) db.items, h.item_ids j);
    share_keys = λ l u.
        omega
          (arith, tally-delete_le laws (is_share l u) (shares_list i) db.shares, h.share_keys l u);
    roles = omega (arith, tally-delete_le laws bad_role (shares_list i) db.shares, h.roles);
    lists_of_items = λ j. cascade (λ it. it.list_id) db.items i j db.lists (h.lists_of_items j);
    lists_of_shares = λ j. cascade (λ s. s.list_id) db.shares i j db.lists (h.lists_of_shares j);
  }

  add_item-IsConsistent :
      (it : Item) (db : Db e)
      → IsConsistent db
      → tally (is_item it.id) db.items ≡ 0
      → tally (has_id it.list_id) db.lists ≢ 0
      → IsConsistent (record db { items = e.insert it db.items })
  add_item-IsConsistent it db h fresh known = record {
    list_ids = h.list_ids;
    item_ids = λ i. ground (arith, laws.tally-insert (is_item i) it db.items, h.item_ids i);
    share_keys = h.share_keys;
    roles = h.roles;
    lists_of_items = λ i gone.
        ground (arith, laws.tally-insert (on_list i) it db.items, h.lists_of_items i gone, known);
    lists_of_shares = h.lists_of_shares;
  }

  add_share-IsConsistent :
      (s : Share) (db : Db e)
      → IsConsistent db
      → role_valid s.role ≡ true
      → tally (is_share s.list_id s.user_id) db.shares ≡ 0
      → tally (has_id s.list_id) db.lists ≢ 0
      → IsConsistent (record db { shares = e.insert s db.shares })
  add_share-IsConsistent s db h valid fresh known = record {
    list_ids = h.list_ids;
    item_ids = h.item_ids;
    share_keys =
        λ l u. ground (arith, laws.tally-insert (is_share l u) s db.shares, h.share_keys l u);
    roles = ground (arith, laws.tally-insert bad_role s db.shares, h.roles);
    lists_of_items = h.lists_of_items;
    lists_of_shares = λ i gone.
        ground
          (arith, laws.tally-insert (shares_list i) s db.shares, h.lists_of_shares i gone, known);
  }

  remove_share-IsConsistent :
      (l u : ℕ) (db : Db e)
      → IsConsistent db
      → IsConsistent (record db { shares = e.delete (is_share l u) db.shares })
  remove_share-IsConsistent l u db h = record {
    list_ids = h.list_ids;
    item_ids = h.item_ids;
    share_keys = λ i j. omega (arith, less (is_share i j), h.share_keys i j);
    roles = omega (arith, less bad_role, h.roles);
    lists_of_items = h.lists_of_items;
    lists_of_shares = λ i gone. omega (arith, less (shares_list i), h.lists_of_shares i gone);
  }
    where
      less : (q : Share → Bool) → tally q (e.delete (is_share l u) db.shares) ≤ tally q db.shares
      less q = tally-delete_le laws q (is_share l u) db.shares

  set_role-IsConsistent :
      (l u : ℕ) (role : String) (db : Db e)
      → IsConsistent db
      → role_valid role ≡ true
      → IsConsistent
          (record db { shares = e.update (is_share l u) (λ s. record s { role = role }) db.shares })
  set_role-IsConsistent l u role db h valid = record {
    list_ids = h.list_ids;
    item_ids = h.item_ids;
    share_keys = λ i j. omega (arith, less (is_share i j) (λ r k. k), h.share_keys i j);
    roles = omega (arith, less bad_role (λ r k. ground (arith, valid)), h.roles);
    lists_of_items = h.lists_of_items;
    lists_of_shares =
        λ i gone. omega (arith, less (shares_list i) (λ r k. k), h.lists_of_shares i gone);
  }
    where
      less :
          (q : Share → Bool)
          → ((s : Share) → q (record s { role = role }) ≡ true → q s ≡ true)
          → tally q (e.update (is_share l u) (λ s. record s { role = role }) db.shares)
            ≤ tally q db.shares
      less q keeps = tally-update_le laws q (is_share l u) _ db.shares (λ r _. keeps r)

  remove_item-IsConsistent :
      (i : ℕ) (db : Db e)
      → IsConsistent db
      → IsConsistent (record db { items = e.delete (is_item i) db.items })
  remove_item-IsConsistent i db h = record {
    list_ids = h.list_ids;
    item_ids =
        λ j. omega (arith, tally-delete_le laws (is_item j) (is_item i) db.items, h.item_ids j);
    share_keys = h.share_keys;
    roles = h.roles;
    lists_of_items = λ l gone.
        omega
          (arith, tally-delete_le laws (on_list l) (is_item i) db.items, h.lists_of_items l gone);
    lists_of_shares = h.lists_of_shares;
  }

  set_item-IsConsistent :
      (i : ℕ) (content : String) (completed : Bool) (order : ℤ) (now : ℕ) (db : Db e)
      → IsConsistent db
      → IsConsistent (record db {
        items = e.update (is_item i) (rewritten content completed order now) db.items;
      })
  set_item-IsConsistent i content completed order now db h = record {
    list_ids = h.list_ids;
    item_ids = λ j. omega (arith, less (is_item j) (λ r k. k), h.item_ids j);
    share_keys = h.share_keys;
    roles = h.roles;
    lists_of_items = λ l gone. omega (arith, less (on_list l) (λ r k. k), h.lists_of_items l gone);
    lists_of_shares = h.lists_of_shares;
  }
    where
      less :
          (q : Item → Bool)
          → ((it : Item) → q (rewritten content completed order now it) ≡ true → q it ≡ true)
          → tally q (e.update (is_item i) (rewritten content completed order now) db.items)
            ≤ tally q db.items
      less q keeps = tally-update_le laws q (is_item i) _ db.items (λ r _. keeps r)

  -- Every write that the database accepts keeps the invariant.
  pub apply-IsConsistent :
      (w : Write) (db : Db e) → IsConsistent db → Ensures IsConsistent (apply w db)
  unfolding apply
  apply-IsConsistent (add_list l) db h =
      ground (arith, add_list-IsConsistent l db h, tally-of_not_exists laws (has_id l.id) db.lists)
  apply-IsConsistent (add_item it) db h = ground (
    arith,
    add_item-IsConsistent it db h,
    tally-of_not_exists laws (is_item it.id) db.items,
    tally-of_exists laws (has_id it.list_id) db.lists,
  )
  apply-IsConsistent (add_share s) db h = ground (
    arith,
    add_share-IsConsistent s db h,
    tally-of_not_exists laws (is_share s.list_id s.user_id) db.shares,
    tally-of_exists laws (has_id s.list_id) db.lists,
  )
  apply-IsConsistent (set_name i name now) db h =
      ground (arith, set_name-IsConsistent i name now db h)
  apply-IsConsistent (set_item i content completed order now) db h =
      ground (arith, set_item-IsConsistent i content completed order now db h)
  apply-IsConsistent (set_role l u role) db h = ground (arith, set_role-IsConsistent l u role db h)
  apply-IsConsistent (remove_list i) db h = remove_list-IsConsistent i db h
  apply-IsConsistent (remove_item i) db h = remove_item-IsConsistent i db h
  apply-IsConsistent (remove_share l u) db h = remove_share-IsConsistent l u db h
  apply-IsConsistent _ db h = grind arith
