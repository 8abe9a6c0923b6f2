-- ===== src/Db/Invariant/Lookups.antt =====
-- In a sound database a key finds at most one row.
use shared_todos.Common.{
  ℕ, ◌≤◌, String, ◌≡◌, refl, Bool, true, ◌&&◌, List, map, [], ◌∷◌, ◌==◌, nat_eq, string_eq,
  and_left, arith,
}
use shared_todos.Db.Server.{Engine, IsEngine, tally}
use shared_todos.Db.Models.{ListRow, SessionRow, PasswordResetToken}
use shared_todos.Db.Schema.{Db, has_id, is_user, has_email, is_item, is_share, has_token_hash}
use shared_todos.Db.Tally.{length-select, tally_mono}
use shared_todos.Db.Single.{rows}
use shared_todos.Db.Invariant.Sound.{IsSound}

pub rows-map : {A B : Type 0} (f : A → B) (xs : List A) → rows (map f xs) ≡ rows xs
rows-map f [] = refl
rows-map f (x ∷ xs) = ground (arith, rows-map f xs)

module _ ⦃e : Engine⦄ (laws : IsEngine e) where
  few :
      {Row : Type 0} (p key : Row → Bool) (t : e.Table Row)
      → ((r : Row) → p r ≡ true → key r ≡ true)
      → tally key t ≤ 1
      → rows (e.select p t) ≤ 1
  few p key t h one = omega (arith, length-select laws p t, tally_mono p key t h, one)

  module _ (db : Db e) (h : IsSound db) where
    pub rows_of_email : (email : String) → rows (e.select (has_email email) db.users) ≤ 1
    rows_of_email email = few _ _ db.users (λ r k. k) (h.accountable.emails email)

    pub rows_of_user : (i : ℕ) → rows (e.select (is_user i) db.users) ≤ 1
    rows_of_user i = few _ _ db.users (λ r k. k) (h.accountable.user_ids i)

    pub rows_of_list : (i : ℕ) → rows (e.select (has_id i) db.lists) ≤ 1
    rows_of_list i = few _ _ db.lists (λ r k. k) (h.consistent.list_ids i)

    pub rows_of_item : (i : ℕ) → rows (e.select (is_item i) db.items) ≤ 1
    rows_of_item i = few _ _ db.items (λ r k. k) (h.consistent.item_ids i)

    pub rows_of_share : (l u : ℕ) → rows (e.select (is_share l u) db.shares) ≤ 1
    rows_of_share l u = few _ _ db.shares (λ r k. k) (h.consistent.share_keys l u)

    -- among the sessions, and the reset tokens, of a hash
    pub rows_of_session :
        (hash : String) (p : SessionRow → Bool)
        → rows (e.select (λ s. has_token_hash hash s && p s) db.sessions) ≤ 1
    rows_of_session hash p =
        few _ (has_token_hash hash) db.sessions (λ r. and_left (has_token_hash hash r) _)
          (h.accountable.session_hashes hash)

    pub rows_of_token :
        (hash : String) (p : PasswordResetToken → Bool)
        → rows (e.select (λ t. t.token_hash == hash && p t) db.reset_tokens) ≤ 1
    rows_of_token hash p =
        few _ (λ t. t.token_hash == hash) db.reset_tokens (λ r. and_left (r.token_hash == hash) _)
          (h.accountable.reset_hashes hash)

    -- among the lists of an id
    pub rows_of_own :
        (i : ℕ) (p : ListRow → Bool) → rows (e.select (λ l. l.id == i && p l) db.lists) ≤ 1
    rows_of_own i p =
        few _ (has_id i) db.lists (λ r. and_left (has_id i r) _) (h.consistent.list_ids i)
