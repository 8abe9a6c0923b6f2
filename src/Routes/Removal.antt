-- ===== src/Routes/Removal.antt =====
-- What the deletion of a list leaves.
use shared_todos.Common.{ℕ, ◌≤◌, ◌≡◌, refl, ◌∙◌, and_left, nat_eq, arith}
use shared_todos.Http.{ok, err, http}
use shared_todos.Db.{
  Engine, IsEngine, tally, has_id, on_list, is_share, shares_list, Session, run-answered, moved_to,
}
use shared_todos.Db.Tally.{tally_mono}
use shared_todos.Db.Invariant.{tally-delete_all}
use shared_todos.Authz.Permissions.{owner}
use shared_todos.Authz.Dependencies.{ListPermission, is_owned}
use shared_todos.Authz.Dependencies.Standing.{IsOwner, IsStranger}
use shared_todos.Lists.{delete_list}
use shared_todos.Lists.Effects.{deleted, delete_list-found}
use shared_todos.Routes.{Call, no_content, Draw, delete_list_call, handle, serve}
use shared_todos.Routes.Access.{serve-permitted, serve-stranger}

module _ ⦃e : Engine⦄ (laws : IsEngine e) (list_id owner_id : ℕ) (d : Draw e) (s : Session e)
    (owns : IsOwner s.db list_id owner_id) (unique : tally (has_id list_id) s.db.lists ≤ 1) where
  abbrev perm : ListPermission
  perm = record { list_id = list_id; user_id = owner_id; role = owner }

  there : tally (has_id list_id) s.db.lists ≡ 1
  there = omega (
    arith,
    unique,
    owns.owns,
    tally_mono (is_owned list_id owner_id) (has_id list_id) s.db.lists
        (λ l. and_left (has_id list_id l) _),
  )

  serve-delete :
      serve delete_list_call list_id owner_id d s
      ≡ (ok no_content, moved_to s (deleted laws perm s there))
  unfolding handle
  serve-delete =
      serve-permitted laws delete_list_call list_id owner_id d s owner owns refl
      ∙ run-answered (λ _. no_content) (delete_list perm) s (delete_list-found laws perm s there)

  all_strangers : (user_id : ℕ) → IsStranger (deleted laws perm s there) list_id user_id
  unfolding deleted
  all_strangers user_id = record {
    not_owner =
        tally-delete_all laws (is_owned list_id user_id) (has_id list_id) s.db.lists
          (λ l. and_left (has_id list_id l) _);
    not_shared =
        tally-delete_all laws (is_share list_id user_id) (shares_list list_id) s.db.shares
          (λ x. and_left (shares_list list_id x) _);
  }

  no_items : tally (on_list list_id) (deleted laws perm s there).items ≡ 0
  unfolding deleted
  no_items = tally-delete_all laws (on_list list_id) (on_list list_id) s.db.items (λ x h. h)

  -- When the owner deletes a list the call succeeds, its items are gone with it, and from then on
  -- everybody, the owner too, has the answer of a list that is not there.
  pub delete_list-shuts_out :
      let (answer, s') = serve delete_list_call list_id owner_id d s in
      (answer ≡ ok no_content)
      × (tally (on_list list_id) s'.db.items ≡ 0)
      × ((call : Call) (user_id : ℕ) (d' : Draw e)
          → serve call list_id user_id d' s' ≡ (err (http 404 "Not found"), s'))
  delete_list-shuts_out = rw serve-delete (
    refl,
    no_items,
    λ call user_id d'. serve-stranger laws call list_id user_id d' _ (all_strangers user_id),
  )
