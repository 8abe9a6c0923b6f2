-- ===== src/Db/Invariant.antt =====
-- What the schema promises of the tables of lists, items and shares: keys are unique, roles are the
-- two of the CHECK constraint, and an item or a share is of a list that is there.
pub mod Writes
pub mod Accounts
pub mod Sound
pub mod Lookups
use shared_todos.Common.{
  ℕ, String, ◌≤◌, ◌≡◌, sym, ◌∙◌, Bool, true, false, not, ◌==◌, nat_eq, string_eq, count-is_empty,
  count-not-is_empty, is_empty-of_count, ◌≢◌, arith,
}
use shared_todos.Common.Int.{ℤ}
use shared_todos.Http.{Ensures}
use shared_todos.Db.Server.{Engine, IsEngine, tally}
use shared_todos.Db.Models.{ListRow, Item, Share}
use shared_todos.Db.Schema.{
  Db, Write, has_id, on_list, shares_list, is_share, is_item, role_valid, exists, apply, renamed,
  rewritten, add_list, add_item, add_share, set_name, set_item, set_role, remove_list, remove_item,
  remove_share,
}
use shared_todos.Db.Tally.{tally-ext, tally_none, tally_mono, length-select, select-empty}

abbrev pub bad_role : Share → Bool
bad_role s = not (role_valid s.role)

module _ ⦃e : Engine⦄ where
  pub record IsConsistent (db : Db e) : Type 0 where
    pub list_ids : (i : ℕ) → tally (has_id i) db.lists ≤ 1
    pub item_ids : (i : ℕ) → tally (is_item i) db.items ≤ 1
    pub share_keys : (l u : ℕ) → tally (is_share l u) db.shares ≤ 1
    pub roles : tally bad_role db.shares ≡ 0
    pub lists_of_items : (i : ℕ) → tally (has_id i) db.lists ≡ 0 → tally (on_list i) db.items ≡ 0
    pub lists_of_shares :
        (i : ℕ) → tally (has_id i) db.lists ≡ 0 → tally (shares_list i) db.shares ≡ 0

module _ ⦃e : Engine⦄ (laws : IsEngine e) where
  -- what `exists` tells of a count, and a count of `exists`
  pub tally-of_not_exists :
      {Row : Type 0} (p : Row → Bool) (t : e.Table Row) → not (exists p t) ≡ true → tally p t ≡ 0
  tally-of_not_exists p t h =
      sym (length-select laws p t) ∙ count-is_empty (e.select p t) (ground (arith, h))

  pub tally-of_exists :
      {Row : Type 0} (p : Row → Bool) (t : e.Table Row) → exists p t ≡ true → tally p t ≢ 0
  tally-of_exists p t h none_ = count-not-is_empty (e.select p t) h (length-select laws p t ∙ none_)

  pub exists-of_tally :
      {Row : Type 0} (p : Row → Bool) (t : e.Table Row) → tally p t ≢ 0 → exists p t ≡ true
  exists-of_tally p t h =
      is_empty-of_count (e.select p t) (λ z. h (sym (length-select laws p t) ∙ z))

  pub not_exists-of_tally :
      {Row : Type 0} (p : Row → Bool) (t : e.Table Row) → tally p t ≡ 0 → exists p t ≡ false
  not_exists-of_tally p t h = rw (select-empty laws p t h)

  -- an update that leaves a test's answer alone leaves its count alone
  pub tally-update_same :
      {Row : Type 0} (q p : Row → Bool) (f : Row → Row) (t : e.Table Row)
      → ((r : Row) → p r ≡ true → q (f r) ≡ q r)
      → tally q (e.update p f t) ≡ tally q t
  tally-update_same q p f t same =
      laws.tally-update q p f t ∙ tally-ext _ q t (λ r. ground (arith, same r))

  pub tally-update_le :
      {Row : Type 0} (q p : Row → Bool) (f : Row → Row) (t : e.Table Row)
      → ((r : Row) → p r ≡ true → q (f r) ≡ true → q r ≡ true)
      → tally q (e.update p f t) ≤ tally q t
  tally-update_le q p f t same =
      rw (laws.tally-update q p f t) (tally_mono _ q t (λ r. ground (arith, same r)))

  pub tally-delete_le :
      {Row : Type 0} (q p : Row → Bool) (t : e.Table Row) → tally q (e.delete p t) ≤ tally q t
  tally-delete_le q p t = rw (laws.tally-delete q p t) (tally_mono _ q t (λ r. ground arith))

  pub tally-delete_all :
      {Row : Type 0} (q p : Row → Bool) (t : e.Table Row)
      → ((r : Row) → q r ≡ true → p r ≡ true)
      → tally q (e.delete p t) ≡ 0
  tally-delete_all q p t all = laws.tally-delete q p t ∙ tally_none _ t (λ r. ground (arith, all r))

  pub tally-delete_none :
      {Row : Type 0} (q p : Row → Bool) (t : e.Table Row)
      → ((r : Row) → q r ≡ true → p r ≡ false)
      → tally q (e.delete p t) ≡ tally q t
  tally-delete_none q p t all =
      laws.tally-delete q p t ∙ tally-ext _ q t (λ r. ground (arith, all r))
