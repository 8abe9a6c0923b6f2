-- ===== src/Db/Invariant/Sound.antt =====
-- Both halves of the schema's promises, under every write.
use shared_todos.Common.{◌==◌, nat_eq, string_eq, option_eq, not, ◌&&◌, some, refl, arith}
use shared_todos.Http.{Result, Ensures, ok, err}
use shared_todos.Db.Server.{Engine, IsEngine}
use shared_todos.Db.Schema.{
  Db, Write, has_id, is_user, has_token_hash, clashes_user, clashes_session, clashes_reset_token,
  apply, renamed, add_user, add_list, add_item, add_share, add_session, add_reset_token, set_name,
  set_password_hash, set_google_sub, set_used_at, remove_list, remove_session_hash,
  remove_user_sessions, set_role, remove_share, is_share, shares_list,
}
use shared_todos.Db.Invariant.{
  IsConsistent, tally-of_not_exists, tally-of_exists, tally-update_same, tally-delete_le,
}
use shared_todos.Db.Invariant.Writes.{apply-IsConsistent}
use shared_todos.Db.Invariant.Accounts.Users.{
  add_user-IsAccountable, set_password_hash-IsAccountable, set_google_sub-IsAccountable,
}
use shared_todos.Db.Invariant.Accounts.{
  IsAccountable, add_list-IsAccountable, keep_lists-IsAccountable, add_session-IsAccountable,
  delete_sessions-IsAccountable, add_reset_token-IsAccountable, set_used_at-IsAccountable,
  add_share-IsAccountable,
}

module _ ⦃e : Engine⦄ where
  pub record IsSound (db : Db e) : Type 0 where
    pub consistent : IsConsistent db
    pub accountable : IsAccountable db

module _ ⦃e : Engine⦄ (laws : IsEngine e) where
  pub apply-IsAccountable :
      (w : Write) (db : Db e) → IsAccountable db → Ensures IsAccountable (apply w db)
  unfolding apply
  apply-IsAccountable (add_user u) db h = ground (
    arith,
    add_user-IsAccountable laws db h u,
    tally-of_not_exists laws (clashes_user u) db.users,
  )
  apply-IsAccountable (add_list l) db h = ground (
    arith,
    add_list-IsAccountable laws db h l,
    tally-of_exists laws (is_user l.owner_id) db.users,
  )
  apply-IsAccountable (add_item it) db h = grind arith
  apply-IsAccountable (add_share s) db h = ground (
    arith,
    add_share-IsAccountable laws db h s,
    tally-of_exists laws (is_user s.user_id) db.users,
  )
  apply-IsAccountable (add_session s) db h = ground (
    arith,
    add_session-IsAccountable laws db h s,
    tally-of_not_exists laws (clashes_session s) db.sessions,
    tally-of_exists laws (is_user s.user_id) db.users,
  )
  apply-IsAccountable (add_reset_token t) db h = ground (
    arith,
    add_reset_token-IsAccountable laws db h t,
    tally-of_not_exists laws (clashes_reset_token t) db.reset_tokens,
    tally-of_exists laws (is_user t.user_id) db.users,
  )
  apply-IsAccountable (set_name i name now) db h = ground (
    arith,
    keep_lists-IsAccountable laws db h (e.update (has_id i) (renamed name now) db.lists) db.items
        db.shares
        (λ u. omega (
          arith,
          tally-update_same laws (λ l. l.owner_id == u) (has_id i) (renamed name now) db.lists
              (λ l _. ground arith),
        ))
        (λ u. omega arith),
  )
  apply-IsAccountable (set_password_hash i hash now) db h =
      ground (arith, set_password_hash-IsAccountable laws db h i hash now)
  apply-IsAccountable (set_google_sub i sub now) db h = ground (
    arith,
    set_google_sub-IsAccountable laws db h i sub now,
    tally-of_not_exists laws (λ v. not (v.id == i) && v.google_sub == some sub) db.users,
  )
  apply-IsAccountable (set_used_at i now) db h =
      ground (arith, set_used_at-IsAccountable laws db h i now)
  apply-IsAccountable (remove_list i) db h =
      keep_lists-IsAccountable laws db h (e.delete (has_id i) db.lists) _ _
        (λ u. tally-delete_le laws (λ l. l.owner_id == u) (has_id i) db.lists)
        (λ u. tally-delete_le laws (λ s. s.user_id == u) (shares_list i) db.shares)
  apply-IsAccountable (remove_session_hash hash) db h =
      delete_sessions-IsAccountable laws db h (has_token_hash hash)
  apply-IsAccountable (remove_user_sessions i) db h =
      delete_sessions-IsAccountable laws db h (λ s. s.user_id == i)
  apply-IsAccountable (set_role l u role) db h = ground (
    arith,
    keep_lists-IsAccountable laws db h db.lists db.items
        (e.update (is_share l u) (λ s. record s { role = role }) db.shares) (λ i. omega arith)
        (λ i. omega (
          arith,
          tally-update_same laws (λ s. s.user_id == i) (is_share l u)
              (λ s. record s { role = role }) db.shares (λ s _. refl),
        )),
  )
  apply-IsAccountable (remove_share l u) db h =
      keep_lists-IsAccountable laws db h db.lists db.items (e.delete (is_share l u) db.shares)
        (λ i. omega arith)
        (λ i. tally-delete_le laws (λ s. s.user_id == i) (is_share l u) db.shares)
  apply-IsAccountable _ db h = grind arith

  pub apply-IsSound : (w : Write) (db : Db e) → IsSound db → Ensures IsSound (apply w db)
  apply-IsSound w db h =
      both (apply w db) (apply-IsConsistent laws w db h.consistent)
        (apply-IsAccountable w db h.accountable)
    where
      both :
          (r : Result (Db e)) → Ensures IsConsistent r → Ensures IsAccountable r → Ensures IsSound r
      both (ok db') a b = record { consistent = a; accountable = b }
      both (err x) a b = tt
