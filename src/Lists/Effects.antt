-- ===== src/Lists/Effects.antt =====
-- What the routes of app/lists that change a list do.
use shared_todos.Common.{
  storable, ℕ, String, ◌≡◌, ap, ◌∙◌, ◌≢◌, Bool, true, ◌&&◌, ◌==◌, nat_eq, and_left, ==_refl,
  string_eq, arith,
}
use shared_todos.Http.{Result, ok}
use shared_todos.Db.{
  Engine, IsEngine, tally, ListRow, Db, has_id, on_list, is_user, is_share, shares_list, renamed,
  Session, ◌>>=◌, commit, run, moved_to, scalar_one_or_none, scalar_one, apply, apply_all,
}
use shared_todos.Db.Tally.{select-single, tally-ext, tally_mono}
use shared_todos.Db.Invariant.{
  IsConsistent, tally-update_same, exists-of_tally, not_exists-of_tally,
}
use shared_todos.Authz.Dependencies.{ListPermission, is_owned}
use shared_todos.Authz.Dependencies.Standing.{IsOwner}
use shared_todos.Lists.{ListCreate, create_list, rename_list, delete_list}

module _ ⦃e : Engine⦄ (laws : IsEngine e) (perm : ListPermission) (s : Session e)
    (there : tally (has_id perm.list_id) s.db.lists ≡ 1) where
  unfoldable pub deleted : Db e
  deleted = record s.db {
    lists = e.delete (has_id perm.list_id) s.db.lists;
    items = e.delete (on_list perm.list_id) s.db.items;
    shares = e.delete (shares_list perm.list_id) s.db.shares;
  }

  pub delete_list-found : run (delete_list perm) s ≡ (ok tt, moved_to s deleted)
  unfolding delete_list run ◌>>=◌ scalar_one_or_none commit apply_all apply deleted
  delete_list-found =
      let (r, found, passes, _) = select-single laws (has_id perm.list_id) s.db.lists there in
      ground (arith, found, passes)

  unfoldable pub renamed_in : String → ℕ → Db e
  renamed_in name now = record s.db {
    lists = e.update (has_id perm.list_id) (renamed name now) s.db.lists;
  }

  abbrev named : String → ListRow → Bool
  named name l = has_id perm.list_id l && l.name == name

  there-renamed :
      (name : String) (now : ℕ) → tally (has_id perm.list_id) (renamed_in name now).lists ≡ 1
  unfolding renamed_in
  there-renamed name now =
      tally-update_same laws (has_id perm.list_id) (has_id perm.list_id) (renamed name now)
        s.db.lists (λ l _. ground arith)
      ∙ there

  named-renamed : (name : String) (now : ℕ) → tally (named name) (renamed_in name now).lists ≡ 1
  unfolding renamed_in
  named-renamed name now =
      laws.tally-update (named name) (has_id perm.list_id) (renamed name now) s.db.lists
      ∙ tally-ext _ (has_id perm.list_id) s.db.lists (λ l. ground (arith, ==_refl name))
      ∙ there

  -- A rename of a list that is stored once, to a name without NUL, succeeds, and the answer shows the
  -- list under its new name.
  pub rename_list-found :
      (body : ListCreate) (now : ℕ)
      → storable body.name ≡ true
      → (l : ListRow) × (run (rename_list body perm now) s
          ≡ (ok l, moved_to s (renamed_in body.name now)))
        × (named body.name l ≡ true)
  unfolding rename_list run ◌>>=◌ scalar_one_or_none scalar_one commit apply_all apply renamed_in
  rename_list-found body now plain =
      let (r, found, passes, _) = select-single laws (has_id perm.list_id) s.db.lists there in
      let (r', found', passes', within) =
        select-single laws (has_id perm.list_id) (renamed_in body.name now).lists
          (there-renamed body.name now) in
      (
        r',
        ground (arith, found, passes, found'),
        ground (arith, passes', within (λ l. l.name == body.name), named-renamed body.name now),
      )

module _ ⦃e : Engine⦄ (laws : IsEngine e) (body : ListCreate) (user_id id now : ℕ)
    (s : Session e) where
  abbrev new_list : ListRow
  new_list = record {
    id = id;
    owner_id = user_id;
    name = body.name;
    created_at = now;
    updated_at = now;
  }

  unfoldable pub created : Db e
  created = record s.db { lists = e.insert new_list s.db.lists }

  module _ (known : tally (is_user user_id) s.db.users ≢ 0)
      (fresh : tally (has_id id) s.db.lists ≡ 0) (plain : storable body.name ≡ true) where
    there-created : tally (has_id id) created.lists ≡ 1
    unfolding created
    there-created = ground (arith, laws.tally-insert (has_id id) new_list s.db.lists, fresh)

    owned-created : tally (is_owned id user_id) created.lists ≡ 1
    unfolding created
    owned-created = ground (
      arith,
      laws.tally-insert (is_owned id user_id) new_list s.db.lists,
      tally_mono (is_owned id user_id) (has_id id) s.db.lists (λ l. and_left (has_id id l) _),
      fresh,
    )

    create_list-created :
        (l : ListRow) × (run (create_list body user_id id now) s ≡ (ok l, moved_to s created))
        × (is_owned id user_id l ≡ true)
    unfolding create_list run ◌>>=◌ scalar_one commit apply_all apply created
    create_list-created =
        let (l, found, passes, within) =
          select-single laws (has_id id) created.lists there-created in
        (
          l,
          ground (
            arith,
            found,
            plain,
            not_exists-of_tally laws (has_id id) s.db.lists fresh,
            exists-of_tally laws (is_user user_id) s.db.users known,
          ),
          ground (
            arith,
            passes,
            within (is_owned id user_id),
            owned-created,
            tally-ext (is_owned id user_id) (λ x. has_id id x && is_owned id user_id x)
                created.lists,
          ),
        )

    created-IsOwner : IsConsistent s.db → IsOwner created id user_id
    unfolding created
    created-IsOwner valid = record {
      owns = owned-created;
      shared_once = omega (
        arith,
        valid.lists_of_shares id fresh,
        tally_mono (is_share id user_id) (shares_list id) s.db.shares
            (λ x. and_left (x.list_id == id) _),
      );
    }

    -- In a consistent database, a known user who creates a list under a new id, and a name without NUL,
    -- is its owner from then on, and the answer shows the list.
    pub create_list-IsOwner :
        IsConsistent s.db
        → let (answer, s') = run (create_list body user_id id now) s in
          (l : ListRow) × (answer ≡ ok l)
          × (is_owned id user_id l ≡ true)
          × IsOwner s'.db id user_id
    create_list-IsOwner valid =
        let (l, done, fits) = create_list-created in
        (
          l,
          ap (λ (t : Result ListRow × Session e). t.0) done,
          fits,
          rw done (created-IsOwner valid),
        )
