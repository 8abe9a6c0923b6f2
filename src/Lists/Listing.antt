-- ===== src/Lists/Listing.antt =====
-- list_lists of app/lists/router.py: which lists a user sees, and how often.
use shared_todos.Common.{
  ℕ, ◌+◌, ◌≡◌, refl, sym, ap, ◌∙◌, ◌≢◌, List, [], ◌∷◌, ◌++◌, ◌==◌, nat_eq, contains, and_left,
  string_eq, count, count-append, if◌then◌else◌, ltb, arith,
}
use shared_todos.Http.{ok}
use shared_todos.Db.{
  Engine, IsEngine, tally, ListRow, Share, has_id, is_share, shares_list, Session, ◌>>=◌, run,
  moved_to,
}
use shared_todos.Db.Tally.{tally-ext, tally_none, tally_mono}
use shared_todos.Db.Invariant.{IsConsistent}
use shared_todos.Authz.Dependencies.{is_owned}
use shared_todos.Authz.Dependencies.Standing.{IsStranger}
use shared_todos.Lists.{unseen, owned_by, shared_with, join_shares, list_lists}

-- A list comes out once if it came in at all and was not seen before, and else not.
pub count-unseen :
    (i : ℕ) (seen : List ℕ) (xs : List ListRow)
    → count (has_id i) (unseen seen xs)
      ≡ (if contains seen i then 0 else if ltb 0 (count (has_id i) xs) then 1 else 0)
unfolding unseen
count-unseen i seen [] = ground arith
count-unseen i seen (lst ∷ rest) =
    ground (arith, count-unseen i seen rest, count-unseen i (lst.id ∷ seen) rest)

module _ ⦃e : Engine⦄ (laws : IsEngine e) (s : Session e) where
  count-owned :
      (i user_id : ℕ)
      → count (has_id i) (e.select (owned_by user_id) s.db.lists)
        ≡ tally (is_owned i user_id) s.db.lists
  count-owned i user_id =
      laws.count-select (has_id i) (owned_by user_id) s.db.lists
      ∙ tally-ext _ (is_owned i user_id) s.db.lists (λ l. ground arith)

  count-shared :
      (i user_id : ℕ)
      → count (shares_list i) (e.select (shared_with user_id) s.db.shares)
        ≡ tally (is_share i user_id) s.db.shares
  count-shared i user_id =
      laws.count-select (shares_list i) (shared_with user_id) s.db.shares
      ∙ tally-ext _ (is_share i user_id) s.db.shares (λ l. ground arith)

  found_by_id :
      (i j : ℕ)
      → count (has_id i) (e.select (has_id j) s.db.lists)
        ≡ (if j == i then tally (has_id i) s.db.lists else 0)
  found_by_id i j = laws.count-select (has_id i) (has_id j) s.db.lists ∙ elim (nat_eq.dec j i) [
    | yes same ↦ tally-ext _ (has_id i) s.db.lists (λ l. ground arith) ∙ ground arith
    | no differ ↦ tally_none _ s.db.lists (λ l. ground arith) ∙ ground arith
  ]

  count-join :
      (i user_id : ℕ) (x : Share) (ss : List Share)
      → count (has_id i) (join_shares user_id (x ∷ ss) s.db)
        ≡ (if x.list_id == i then tally (has_id i) s.db.lists else 0)
          + count (has_id i) (join_shares user_id ss s.db)
  count-join i user_id x ss =
      count-append (has_id i) (e.select (has_id x.list_id) s.db.lists) (join_shares user_id ss s.db)
      ∙ ap (λ n. n + count (has_id i) (join_shares user_id ss s.db)) (found_by_id i x.list_id)

  joined_none :
      (i user_id : ℕ) (ss : List Share)
      → count (shares_list i) ss ≡ 0
      → count (has_id i) (join_shares user_id ss s.db) ≡ 0
  joined_none i user_id [] h = refl
  joined_none i user_id (x ∷ ss) h =
      ground (arith, count-join i user_id x ss, joined_none i user_id ss)

  joined_some :
      (i user_id : ℕ) (ss : List Share)
      → tally (has_id i) s.db.lists ≢ 0
      → count (shares_list i) ss ≢ 0
      → count (has_id i) (join_shares user_id ss s.db) ≢ 0
  joined_some i user_id [] there h = absurd (h refl)
  joined_some i user_id (x ∷ ss) there h =
      ground (arith, count-join i user_id x ss, joined_some i user_id ss there, there, h)

  list_there :
      (i user_id : ℕ)
      → IsConsistent s.db
      → tally (is_share i user_id) s.db.shares ≢ 0
      → tally (has_id i) s.db.lists ≢ 0
  list_there i user_id valid held gone = held (
      omega (
        arith,
        valid.lists_of_shares i gone,
        tally_mono (is_share i user_id) (shares_list i) s.db.shares
            (λ x. and_left (x.list_id == i) _),
      ))

  abbrev owned : ℕ → List ListRow
  owned user_id = e.select (owned_by user_id) s.db.lists

  abbrev joined : ℕ → List ListRow
  joined user_id = join_shares user_id (e.select (shared_with user_id) s.db.shares) s.db

  came_once :
      (i user_id : ℕ)
      → IsConsistent s.db
      → (tally (is_owned i user_id) s.db.lists ≡ 0 → tally (is_share i user_id) s.db.shares ≢ 0)
      → count (has_id i) (unseen [] (owned user_id ++ joined user_id)) ≡ 1
  came_once i user_id valid known = elim (nat_eq.dec (tally (is_owned i user_id) s.db.lists) 0) [
    | yes foreign ↦ came (λ z.
        joined_some i user_id (e.select (shared_with user_id) s.db.shares)
          (list_there i user_id valid (known foreign))
          (λ k. known foreign (sym (count-shared i user_id) ∙ k)) (omega (arith, z, split)))
    | no mine ↦ came (λ z. mine (omega (arith, z, split, count-owned i user_id)))
  ]
    where
      split :
          count (has_id i) (owned user_id ++ joined user_id)
          ≡ count (has_id i) (owned user_id) + count (has_id i) (joined user_id)
      split = count-append (has_id i) (owned user_id) (joined user_id)

      came :
          count (has_id i) (owned user_id ++ joined user_id) ≢ 0
          → count (has_id i) (unseen [] (owned user_id ++ joined user_id)) ≡ 1
      came some_ = ground (arith, count-unseen i [] (owned user_id ++ joined user_id), some_)

  -- In a consistent database, every list that the user owns or shares comes out exactly once, and no
  -- other list does. Nothing changes.
  pub list_lists-exact :
      (user_id : ℕ)
      → IsConsistent s.db
      → (lists : List ListRow) × (run (list_lists user_id) s ≡ (ok lists, moved_to s s.db))
        × ((i : ℕ) → IsStranger s.db i user_id → count (has_id i) lists ≡ 0)
        × ((i : ℕ) → ¬ IsStranger s.db i user_id → count (has_id i) lists ≡ 1)
  unfolding list_lists run ◌>>=◌
  list_lists-exact user_id valid = (
    unseen [] (owned user_id ++ joined user_id),
    refl,
    λ i h. ground (
      arith,
      count-unseen i [] (owned user_id ++ joined user_id),
      count-append (has_id i) (owned user_id) (joined user_id),
      count-owned i user_id,
      count-shared i user_id,
      h.not_owner,
      h.not_shared,
      joined_none i user_id (e.select (shared_with user_id) s.db.shares),
    ),
    λ i h. came_once i user_id valid (λ o n. h (record { not_owner = o; not_shared = n })),
  )
