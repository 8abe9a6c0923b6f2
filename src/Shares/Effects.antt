-- ===== src/Shares/Effects.antt =====
-- What the three changes of a share do, on every branch.
use shared_todos.Common.{
  ℕ, String, ◌≡◌, refl, ◌∙◌, ◌≢◌, Bool, true, ◌==◌, nat_eq, string_eq, ==_refl, and_left, ◌⊎◌,
  arith,
}
use shared_todos.Http.{ok, err, http}
use shared_todos.Db.{
  Engine, IsEngine, tally, Share, Db, has_id, is_share, is_user, Session, ◌>>=◌, commit, run,
  moved_to, scalar_one_or_none, scalar_one, apply, apply_all, role_valid,
}
use shared_todos.Db.Tally.{select-empty, select-single, tally-ext, tally_mono}
use shared_todos.Db.Invariant.{tally-update_same, exists-of_tally, not_exists-of_tally}
use shared_todos.Authz.Dependencies.{ListPermission}
use shared_todos.Authz.Dependencies.Standing.{is_share_as}
use shared_todos.Shares.{ShareCreate, create_share, change_role, revoke_share}

module _ ⦃e : Engine⦄ (laws : IsEngine e) (perm : ListPermission) (target : ℕ) (s : Session e) where
  unfoldable pub revoked : Db e
  revoked = record s.db { shares = e.delete (is_share perm.list_id target) s.db.shares }

  pub revoke_share-missing :
      tally (is_share perm.list_id target) s.db.shares ≡ 0
      → run (revoke_share target perm) s ≡ (err (http 404 "Not found"), moved_to s s.db)
  unfolding revoke_share run ◌>>=◌ scalar_one_or_none
  revoke_share-missing h =
      ground (arith, select-empty laws (is_share perm.list_id target) s.db.shares h)

  pub revoke_share-found :
      tally (is_share perm.list_id target) s.db.shares ≡ 1
      → run (revoke_share target perm) s ≡ (ok tt, moved_to s revoked)
  unfolding revoke_share run ◌>>=◌ scalar_one_or_none commit apply_all apply revoked
  revoke_share-found h =
      let (r, found, passes, _) = select-single laws (is_share perm.list_id target) s.db.shares h in
      ground (arith, found, passes)

  pub change_role-missing :
      (role : String)
      → tally (is_share perm.list_id target) s.db.shares ≡ 0
      → run (change_role target role perm) s ≡ (err (http 404 "Not found"), moved_to s s.db)
  unfolding change_role run ◌>>=◌ scalar_one_or_none
  change_role-missing role h =
      ground (arith, select-empty laws (is_share perm.list_id target) s.db.shares h)

  unfoldable pub changed : String → Db e
  changed role = record s.db {
    shares = e.update (is_share perm.list_id target) (λ x. record x { role = role }) s.db.shares;
  }

  pub shared-changed :
      (role : String)
      → tally (is_share perm.list_id target) (changed role).shares
        ≡ tally (is_share perm.list_id target) s.db.shares
  unfolding changed
  shared-changed role =
      tally-update_same laws (is_share perm.list_id target) (is_share perm.list_id target)
        (λ x. record x { role = role }) s.db.shares (λ r _. refl)

  pub shared_as-changed :
      (role : String)
      → tally (is_share_as perm.list_id target role) (changed role).shares
        ≡ tally (is_share perm.list_id target) s.db.shares
  unfolding changed
  shared_as-changed role =
      laws.tally-update (is_share_as perm.list_id target role) (is_share perm.list_id target)
        (λ x. record x { role = role }) s.db.shares
      ∙ tally-ext _ (is_share perm.list_id target) s.db.shares (λ r. ground (arith, ==_refl role))

  pub change_role-found :
      (role : String)
      → role_valid role ≡ true
      → tally (is_share perm.list_id target) s.db.shares ≡ 1
      → (share : Share) × (run (change_role target role perm) s
          ≡ (ok share, moved_to s (changed role)))
        × (is_share_as perm.list_id target role share ≡ true)
  unfolding change_role run ◌>>=◌ scalar_one_or_none scalar_one commit apply_all apply changed
  change_role-found role valid h =
      let (r, found, passes, _) = select-single laws (is_share perm.list_id target) s.db.shares h in
      let (r', found', passes', within) =
        select-single laws (is_share perm.list_id target) (changed role).shares
          (shared-changed role ∙ h) in
      (
        r',
        ground (arith, found, passes, found', valid),
        ground (arith, passes', within (λ x. x.role == role), shared_as-changed role, h),
      )

module _ ⦃e : Engine⦄ (laws : IsEngine e) (body : ShareCreate) (perm : ListPermission) (now : ℕ)
    (others : Db e → Db e) (s : Session e) where
  abbrev asked : Share → Bool
  asked = is_share perm.list_id body.user_id

  abbrev new_share : Share
  new_share = record {
    list_id = perm.list_id;
    user_id = body.user_id;
    role = body.role;
    granted_at = now;
  }

  unfoldable pub shared : Db e
  shared = record (others s.db) { shares = e.insert new_share (others s.db).shares }

  pub create_share_self :
      body.user_id ≡ perm.user_id
      → run (create_share body perm now others) s
        ≡ (err (http 400 "Cannot share with yourself"), moved_to s s.db)
  unfolding create_share run ◌>>=◌
  create_share_self same = ground arith

  pub create_share-no_user :
      body.user_id ≢ perm.user_id
      → tally (is_user body.user_id) s.db.users ≡ 0
      → run (create_share body perm now others) s ≡ (err (http 404 "Not found"), moved_to s s.db)
  unfolding create_share run ◌>>=◌ scalar_one_or_none
  create_share-no_user other nobody =
      ground (arith, select-empty laws (is_user body.user_id) s.db.users nobody)

  module _ (other : body.user_id ≢ perm.user_id)
      (known : tally (is_user body.user_id) s.db.users ≡ 1) where
    pub create_share-shared_already :
        tally asked s.db.shares ≡ 1
        → run (create_share body perm now others) s
          ≡ (err (http 409 "User already has access"), moved_to s s.db)
    unfolding create_share run ◌>>=◌ scalar_one_or_none
    create_share-shared_already once =
        let (u, user, _, _) = select-single laws (is_user body.user_id) s.db.users known in
        let (r, found, _, _) = select-single laws asked s.db.shares once in
        ground (arith, user, found)

    module _ (unshared : tally asked s.db.shares ≡ 0) (valid : role_valid body.role ≡ true) where
      pub create_share-lost_race :
          tally asked (others s.db).shares ≢ 0
          → run (create_share body perm now others) s
            ≡ (err (http 409 "User already has access"), moved_to s (others s.db))
      unfolding create_share run ◌>>=◌ scalar_one_or_none commit apply_all apply
      create_share-lost_race won =
          let (u, user, _, _) = select-single laws (is_user body.user_id) s.db.users known in
          ground (
            arith,
            user,
            select-empty laws asked s.db.shares unshared,
            exists-of_tally laws asked (others s.db).shares won,
            valid,
          )

      pub create_share-gone :
          tally asked (others s.db).shares ≡ 0
          → (tally (has_id perm.list_id) (others s.db).lists ≡ 0)
            ⊎ (tally (is_user body.user_id) (others s.db).users ≡ 0)
          → run (create_share body perm now others) s
            ≡ (err (http 404 "Not found"), moved_to s (others s.db))
      unfolding create_share run ◌>>=◌ scalar_one_or_none commit apply_all apply
      create_share-gone still gone =
          let (u, user, _, _) = select-single laws (is_user body.user_id) s.db.users known in
          ground (
            arith,
            user,
            select-empty laws asked s.db.shares unshared,
            not_exists-of_tally laws asked (others s.db).shares still,
            valid,
            not_exists-of_tally laws (has_id perm.list_id) (others s.db).lists,
            not_exists-of_tally laws (is_user body.user_id) (others s.db).users,
          )

      module _ (still : tally asked (others s.db).shares ≡ 0)
          (list_there : tally (has_id perm.list_id) (others s.db).lists ≢ 0)
          (user_there : tally (is_user body.user_id) (others s.db).users ≢ 0) where
        pub shared_once : tally asked shared.shares ≡ 1
        unfolding shared
        shared_once = ground (arith, laws.tally-insert asked new_share (others s.db).shares, still)

        pub shared_once_as :
            tally (is_share_as perm.list_id body.user_id body.role) shared.shares ≡ 1
        unfolding shared
        shared_once_as = ground (
          arith,
          laws.tally-insert (is_share_as perm.list_id body.user_id body.role) new_share
              (others s.db).shares,
          tally_mono (is_share_as perm.list_id body.user_id body.role) asked (others s.db).shares
              (λ r h. and_left (asked r) _ h),
          still,
          ==_refl body.role,
        )

        pub create_share-created :
            (share : Share) × (run (create_share body perm now others) s
              ≡ (ok share, moved_to s shared))
            × (is_share_as perm.list_id body.user_id body.role share ≡ true)
        unfolding create_share run ◌>>=◌ scalar_one_or_none scalar_one commit apply_all apply shared
        create_share-created =
            let (u, user, _, _) = select-single laws (is_user body.user_id) s.db.users known in
            let (r, found, passes, within) = select-single laws asked shared.shares shared_once in
            (
              r,
              ground (
                arith,
                user,
                select-empty laws asked s.db.shares unshared,
                found,
                valid,
                not_exists-of_tally laws asked (others s.db).shares still,
                exists-of_tally laws (has_id perm.list_id) (others s.db).lists list_there,
                exists-of_tally laws (is_user body.user_id) (others s.db).users user_there,
              ),
              ground (arith, passes, within (λ x. x.role == body.role), shared_once_as),
            )
