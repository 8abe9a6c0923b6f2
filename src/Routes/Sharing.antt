-- ===== src/Routes/Sharing.antt =====
-- What an owner's calls on the shares of a list give to, or take from, another user.
use shared_todos.Common.{ℕ, String, ◌≤◌, ◌≡◌, refl, ap, ◌∙◌, ◌≢◌, ◌⊎◌, true}
use shared_todos.Http.{Result, ok, err, http, answered}
use shared_todos.Db.{
  Engine, IsEngine, tally, has_id, is_user, is_share, Share, Session, run, run-answered, moved_to,
}
use shared_todos.Db.Invariant.{tally-delete_all}
use shared_todos.Authz.Permissions.{owner}
use shared_todos.Authz.Dependencies.{ListPermission, is_owned}
use shared_todos.Authz.Dependencies.Standing.{
  IsOwner, IsStranger, IsCollaborator, is_share_as, sole_owner,
}
use shared_todos.Shares.{
  share_out_of, ShareCreate, role_accepts, create_share, change_role, revoke_share,
}
use shared_todos.Shares.Effects.{
  revoked, revoke_share-found, changed, change_role-found, shared-changed, shared_as-changed,
  shared, create_share-created, shared_once, shared_once_as, create_share-lost_race,
  create_share-gone,
}
use shared_todos.Routes.{
  Call, Response, share_out, no_content, Draw, create_share_call, change_role_call,
  revoke_share_call, handle, serve,
}
use shared_todos.Routes.Access.{serve-permitted, serve-stranger}

abbrev by_owner : ℕ → ℕ → ListPermission
by_owner list_id owner_id = record { list_id = list_id; user_id = owner_id; role = owner }

module _ ⦃e : Engine⦄ (laws : IsEngine e) (list_id owner_id target : ℕ) (d : Draw e) (s : Session e)
    (owns : IsOwner s.db list_id owner_id) (unique : tally (has_id list_id) s.db.lists ≤ 1)
    (other : target ≢ owner_id) where
  abbrev perm : ListPermission
  perm = by_owner list_id owner_id

  not_owner : tally (is_owned list_id target) s.db.lists ≡ 0
  not_owner = sole_owner laws s.db list_id owner_id target unique owns.owns other

  serve-revoke :
      tally (is_share list_id target) s.db.shares ≡ 1
      → serve (revoke_share_call target) list_id owner_id d s
        ≡ (ok no_content, moved_to s (revoked laws perm target s))
  unfolding handle
  serve-revoke held =
      serve-permitted laws (revoke_share_call target) list_id owner_id d s owner owns refl
      ∙ run-answered (λ _. no_content) (revoke_share target perm) s
          (revoke_share-found laws perm target s held)

  -- When the owner of a list revokes another user's share the call succeeds, and from then every call
  -- of that user on the list is answered by the 404 of a list that is not there.
  pub revoke-shuts_out :
      tally (is_share list_id target) s.db.shares ≡ 1
      → let (answer, s') = serve (revoke_share_call target) list_id owner_id d s in
        (answer ≡ ok no_content)
        × IsStranger s'.db list_id target
        × ((call : Call) (d' : Draw e)
            → serve call list_id target d' s' ≡ (err (http 404 "Not found"), s'))
  unfolding revoked
  revoke-shuts_out held =
      rw (serve-revoke held)
        (refl, gone, λ call d'. serve-stranger laws call list_id target d' _ gone)
    where
      gone : IsStranger (revoked laws perm target s) list_id target
      gone = record {
        not_owner = not_owner;
        not_shared =
            tally-delete_all laws (is_share list_id target) (is_share list_id target) s.db.shares
              (λ r h. h);
      }

  serve-change_role :
      (role : String) {r : Result Share} {s' : Session e}
      → role_accepts role ≡ true
      → run (change_role target role perm) s ≡ (r, s')
      → serve (change_role_call target role) list_id owner_id d s
        ≡ (answered (λ s. share_out (share_out_of s)) r, s')
  unfolding handle
  serve-change_role role valid done =
      serve-permitted laws (change_role_call target role) list_id owner_id d s owner owns refl
      ∙ rw valid
          (run-answered (λ s. share_out (share_out_of s)) (change_role target role perm) s done)

  abbrev body : String → ShareCreate
  body role = record { user_id = target; role = role }

  serve-create_share :
      (role : String) {r : Result Share} {s' : Session e}
      → role_accepts role ≡ true
      → run (create_share (body role) perm d.now d.others) s ≡ (r, s')
      → serve (create_share_call (body role)) list_id owner_id d s
        ≡ (answered (λ s. share_out (share_out_of s)) r, s')
  unfolding handle
  serve-create_share role valid done =
      serve-permitted laws (create_share_call (body role)) list_id owner_id d s owner owns refl
      ∙ rw valid (
          run-answered (λ s. share_out (share_out_of s))
            (create_share (body role) perm d.now d.others) s done)

  -- When the owner changes a collaborator's role, the answer shows the share with the new role, and
  -- the collaborator has the new role from then on.
  pub change_role-takes_effect :
      (role : String)
      → role_accepts role ≡ true
      → tally (is_share list_id target) s.db.shares ≡ 1
      → let (answer, s') = serve (change_role_call target role) list_id owner_id d s in
        (share : Share) × (answer ≡ ok (share_out (share_out_of share)))
        × (is_share_as list_id target role share ≡ true)
        × IsCollaborator s'.db list_id target role
  unfolding changed role_accepts
  change_role-takes_effect role valid held =
      let (share, done, fits) = change_role-found laws perm target s role valid held in
      let served = serve-change_role role valid done in
      (
        share,
        ap (λ (t : Result Response × Session e). t.0) served,
        fits,
        rw served (record {
          not_owner = not_owner;
          shared = shared-changed laws perm target s role ∙ held;
          shared_as = shared_as-changed laws perm target s role ∙ held;
        }),
      )

  -- When the owner shares a list with a known user who has no share of it yet, and nothing that
  -- bears on it is committed in between, the answer shows the share, and the user has its role.
  pub create_share-takes_effect :
      (role : String)
      → role_accepts role ≡ true
      → tally (is_user target) s.db.users ≡ 1
      → tally (is_share list_id target) s.db.shares ≡ 0
      → tally (is_share list_id target) (d.others s.db).shares ≡ 0
      → tally (has_id list_id) (d.others s.db).lists ≢ 0
      → tally (is_user target) (d.others s.db).users ≢ 0
      → tally (is_owned list_id target) (d.others s.db).lists ≡ 0
      → let (answer, s') = serve (create_share_call (body role)) list_id owner_id d s in
        (share : Share) × (answer ≡ ok (share_out (share_out_of share)))
        × (is_share_as list_id target role share ≡ true)
        × IsCollaborator s'.db list_id target role
  unfolding shared role_accepts
  create_share-takes_effect role valid known unshared still list_there user_there not_given =
      let (share, done, fits) =
        create_share-created laws (body role) perm d.now d.others s other known unshared valid still
          list_there user_there in
      let served = serve-create_share role valid done in
      (
        share,
        ap (λ (t : Result Response × Session e). t.0) served,
        fits,
        rw served (record {
          not_owner = not_given;
          shared =
              shared_once laws (body role) perm d.now d.others s other known unshared valid still
                list_there user_there;
          shared_as =
              shared_once_as laws (body role) perm d.now d.others s other known unshared valid still
                list_there user_there;
        }),
      )

  -- Whoever loses a race gets the answer that the check would have given: 409 if another request
  -- has shared the list with the user since, 404 if the list or the user is gone. Nothing is added.
  pub create_share-race :
      (role : String)
      → role_accepts role ≡ true
      → tally (is_user target) s.db.users ≡ 1
      → tally (is_share list_id target) s.db.shares ≡ 0
      → let served = serve (create_share_call (body role)) list_id owner_id d s in
        (tally (is_share list_id target) (d.others s.db).shares ≢ 0
          → served ≡ (err (http 409 "User already has access"), moved_to s (d.others s.db)))
        × (tally (is_share list_id target) (d.others s.db).shares ≡ 0
            → (tally (has_id list_id) (d.others s.db).lists ≡ 0)
              ⊎ (tally (is_user target) (d.others s.db).users ≡ 0)
            → served ≡ (err (http 404 "Not found"), moved_to s (d.others s.db)))
  unfolding role_accepts
  create_share-race role valid known unshared = (
    λ won. serve-create_share role valid (
        create_share-lost_race laws (body role) perm d.now d.others s other known unshared valid
          won),
    λ still gone. serve-create_share role valid (
        create_share-gone laws (body role) perm d.now d.others s other known unshared valid still
          gone),
  )
