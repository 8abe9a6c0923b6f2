-- ===== src/Authz/Dependencies/Standing.antt =====
-- What a caller is to a list, by the rows of the database, and what the dependency answers then.
use shared_todos.Common.{
  ◌≢◌, count_disjoint, ℕ, String, ◌≤◌, ◌≡◌, refl, sym, ap, ◌∙◌, ◌⊎◌, inl, inr, Bool, true, ◌&&◌,
  Option, none, some, [], ◌∷◌, map, ◌==◌, nat_eq, string_eq, if◌then◌else◌, arith,
}
use shared_todos.Http.{Result, ok, err, http}
use shared_todos.Db.{
  Engine, IsEngine, tally, has_id, ListRow, Share, Db, is_share, Session, ◌>>=◌, scalar_one_or_none,
}
use shared_todos.Db.Tally.{select-empty, select-single}
use shared_todos.Authz.Permissions.{Role, owner, editor, viewer, role_name, effective_role}
use shared_todos.Authz.Permissions.Matrix.{Action, action_name, permits, can_perform-permits}
use shared_todos.Authz.Dependencies.{ListPermission, is_owned, require_list_permission}

module _ ⦃e : Engine⦄ where
  -- neither the owner of the list nor among those it is shared with; so for every list that is not
  -- there
  pub record IsStranger (db : Db e) (list_id user_id : ℕ) : Type 0 where
    pub not_owner : tally (is_owned list_id user_id) db.lists ≡ 0
    pub not_shared : tally (is_share list_id user_id) db.shares ≡ 0

  -- a share of the list with the user, of that role
  abbrev pub is_share_as : ℕ → ℕ → String → Share → Bool
  is_share_as list_id user_id role s = is_share list_id user_id s && s.role == role

  pub record IsCollaborator (db : Db e) (list_id user_id : ℕ) (role : String) : Type 0 where
    pub not_owner : tally (is_owned list_id user_id) db.lists ≡ 0
    pub shared : tally (is_share list_id user_id) db.shares ≡ 1
    pub shared_as : tally (is_share_as list_id user_id role) db.shares ≡ 1

  pub record IsOwner (db : Db e) (list_id user_id : ℕ) : Type 0 where
    pub owns : tally (is_owned list_id user_id) db.lists ≡ 1
    pub shared_once : tally (is_share list_id user_id) db.shares ≤ 1

  abbrev pub Holds : Db e → ℕ → ℕ → Role → Type 0
  Holds db list_id user_id owner = IsOwner db list_id user_id
  Holds db list_id user_id role = IsCollaborator db list_id user_id (role_name role)

  abbrev pub granted : ℕ → ℕ → Role → Action → Result ListPermission
  granted list_id user_id role action =
      if permits role action
      then ok (record { list_id = list_id; user_id = user_id; role = role })
      else err (http 404 "Not found")

pub zero_or_one : (n : ℕ) → n ≤ 1 → (n ≡ 0) ⊎ (n ≡ 1)
zero_or_one n h = grind arith

role_of_count : (a b : String) → ◌≡◌ {A = ℕ} (if a == b then 1 else 0) 1 → a ≡ b
role_of_count a b h = ground arith

module _ ⦃e : Engine⦄ (laws : IsEngine e) where
  -- A stranger is refused with a 404, whatever the action, and the session is as it was.
  pub require_list_permission-stranger :
      (action : String) (list_id user_id : ℕ) (s : Session e)
      → IsStranger s.db list_id user_id
      → require_list_permission action list_id user_id s ≡ (err (http 404 "Not found"), s)
  unfolding require_list_permission ◌>>=◌ scalar_one_or_none effective_role
  require_list_permission-stranger action list_id user_id s h =
      rw
        (
          select-empty laws (is_owned list_id user_id) s.db.lists h.not_owner,
          require_list_permission,
        )
        (rw
          (
            select-empty laws (is_share list_id user_id) s.db.shares h.not_shared,
            require_list_permission,
          )
          refl)

  roles_found :
      (list_id user_id : ℕ) (role : String) (db : Db e)
      → IsCollaborator db list_id user_id role
      → map (λ (s : Share). s.role) (e.select (is_share list_id user_id) db.shares) ≡ role ∷ []
  roles_found list_id user_id role db h =
      let (r, found, passes, within) =
        select-single laws (is_share list_id user_id) db.shares h.shared in
      rw found (
        ap (λ x. x ∷ [])
          (role_of_count r.role role (sym (within (λ s. s.role == role)) ∙ h.shared_as)))

  owners_found :
      (list_id user_id : ℕ) (db : Db e)
      → IsOwner db list_id user_id
      → map (λ (l : ListRow). l.id) (e.select (is_owned list_id user_id) db.lists) ≡ list_id ∷ []
  owners_found list_id user_id db h =
      let (r, found, passes, within) =
        select-single laws (is_owned list_id user_id) db.lists h.owns in
      rw found (ap (λ x. x ∷ []) (ground (arith, passes)))

  at_most_one_role :
      (list_id user_id : ℕ) (db : Db e)
      → tally (is_share list_id user_id) db.shares ≤ 1
      → (role : Option String) × (scalar_one_or_none
            (map (λ (s : Share). s.role) (e.select (is_share list_id user_id) db.shares))
          ≡ ok role)
  unfolding scalar_one_or_none
  at_most_one_role list_id user_id db h =
      elim (zero_or_one (tally (is_share list_id user_id) db.shares) h) [
        | inl nobody ↦ (none, rw (select-empty laws (is_share list_id user_id) db.shares nobody))
        | inr one ↦
            let (r, found, _, _) = select-single laws (is_share list_id user_id) db.shares one in
            (some r.role, rw found)
      ]

  -- A caller with a role on the list gets the permission, with that role, if the role may do the
  -- action, and else the same 404. The session is as it was.
  pub require_list_permission-role :
      (role : Role) (action : Action) (list_id user_id : ℕ) (s : Session e)
      → Holds s.db list_id user_id role
      → require_list_permission (action_name action) list_id user_id s
        ≡ (granted list_id user_id role action, s)
  unfolding require_list_permission ◌>>=◌ scalar_one_or_none effective_role string_eq
  require_list_permission-role owner action list_id user_id s h =
      let (role, one) = at_most_one_role list_id user_id s.db h.shared_once in
      ground (arith, owners_found list_id user_id s.db h, one, can_perform-permits owner action)
  require_list_permission-role editor action list_id user_id s h = ground (
    arith,
    select-empty laws (is_owned list_id user_id) s.db.lists h.not_owner,
    roles_found list_id user_id "editor" s.db h,
    can_perform-permits editor action,
  )
  require_list_permission-role viewer action list_id user_id s h = ground (
    arith,
    select-empty laws (is_owned list_id user_id) s.db.lists h.not_owner,
    roles_found list_id user_id "viewer" s.db h,
    can_perform-permits viewer action,
  )

  -- A list has one owner.
  pub sole_owner :
      (db : Db e) (list_id owner_id user_id : ℕ)
      → tally (has_id list_id) db.lists ≤ 1
      → tally (is_owned list_id owner_id) db.lists ≡ 1
      → user_id ≢ owner_id
      → tally (is_owned list_id user_id) db.lists ≡ 0
  sole_owner db list_id owner_id user_id unique owns differ = omega (
    arith,
    count_disjoint (is_owned list_id owner_id) (is_owned list_id user_id) (has_id list_id)
        (e.select (λ _. true) db.lists) (λ l h. ground (arith, differ)) (λ l h. ground arith),
  )
