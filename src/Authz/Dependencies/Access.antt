-- ===== src/Authz/Dependencies/Access.antt =====
-- Access as the documents tell it: a list has one owner, and a role for each user that it is shared
-- with. In a consistent database the dependency decides by it, and by nothing else.
use shared_todos.Common.{
  ℕ, String, ◌≡◌, ◌∙◌, ◌+◌, ◌≤◌, true, false, not, Option, none, some, ◌==◌, nat_eq, string_eq, ltb,
  if◌then◌else◌, arith, Bool-cases, inl, inr, eq_of_==, refl, count, List, [], ◌∷◌,
}
use shared_todos.Http.{Result, err, http}
use shared_todos.Db.{Engine, IsEngine, tally, has_id, role_valid, Share, Db, is_share, Session}
use shared_todos.Db.Tally.{tally_mono}
use shared_todos.Db.Invariant.{IsConsistent, bad_role}
use shared_todos.Authz.Permissions.{Role, owner, editor, viewer}
use shared_todos.Authz.Permissions.Matrix.{Action, action_name}
use shared_todos.Authz.Dependencies.{ListPermission, is_owned, require_list_permission}
use shared_todos.Authz.Dependencies.Standing.{
  is_share_as, Holds, granted, zero_or_one, require_list_permission-stranger,
  require_list_permission-role,
}

module _ ⦃e : Engine⦄ where
  -- the access map
  abbrev pub role_on : Db e → ℕ → ℕ → Option Role
  role_on db list_id user_id =
      if ltb 0 (tally (is_owned list_id user_id) db.lists)
      then some owner
      else if ltb 0 (tally (is_share_as list_id user_id "editor") db.shares)
      then some editor
      else if ltb 0 (tally (is_share_as list_id user_id "viewer") db.shares)
      then some viewer
      else none

  abbrev pub decided : ℕ → ℕ → Option Role → Action → Result ListPermission
  decided list_id user_id none action = err (http 404 "Not found")
  decided list_id user_id (some role) action = granted list_id user_id role action

-- a valid role is one of the two, and not both
one_role :
    (role : String)
    → not (role_valid role) ≡ false
    → (if role == "editor" then 1 else 0) + (if role == "viewer" then 1 else 0) ≡ 1
unfolding string_eq
one_role role valid = elim (Bool-cases (role == "editor")) [
  | inl edits ↦ rw (eq_of_== role "editor" edits) refl
  | inr other ↦ ground (arith, valid, other)
]

module _ ⦃e : Engine⦄ where
  count-roles :
      (list_id user_id : ℕ) (ss : List Share)
      → count bad_role ss ≡ 0
      → count (is_share list_id user_id) ss
        ≡ count (is_share_as list_id user_id "editor") ss
          + count (is_share_as list_id user_id "viewer") ss
  count-roles list_id user_id [] h = refl
  count-roles list_id user_id (s ∷ ss) h =
      ground (arith, count-roles list_id user_id ss, h, one_role s.role)

module _ ⦃e : Engine⦄ (laws : IsEngine e) (s : Session e) (list_id user_id : ℕ)
    (h : IsConsistent s.db) where
  owned_once : tally (is_owned list_id user_id) s.db.lists ≤ 1
  owned_once = omega (
    arith,
    h.list_ids list_id,
    tally_mono (is_owned list_id user_id) (has_id list_id) s.db.lists λ l k. ground arith,
  )

  of_two_roles :
      tally (is_share list_id user_id) s.db.shares
      ≡ tally (is_share_as list_id user_id "editor") s.db.shares
        + tally (is_share_as list_id user_id "viewer") s.db.shares
  of_two_roles = count-roles list_id user_id (e.select (λ _. true) s.db.shares) h.roles

  by_role :
      (role : Role) (action : Action)
      → role_on s.db list_id user_id ≡ some role
      → Holds s.db list_id user_id role
      → require_list_permission (action_name action) list_id user_id s
        ≡ (decided list_id user_id (role_on s.db list_id user_id) action, s)
  by_role role action found holds =
      rw found (require_list_permission-role laws role action list_id user_id s holds)

  abbrev shared_as : String → ℕ
  shared_as role = tally (is_share_as list_id user_id role) s.db.shares

  -- where the caller is not the owner
  by_share :
      (action : Action)
      → tally (is_owned list_id user_id) s.db.lists ≡ 0
      → require_list_permission (action_name action) list_id user_id s
        ≡ (decided list_id user_id (role_on s.db list_id user_id) action, s)
  by_share action none_ =
      elim (zero_or_one (shared_as "editor")
        (omega (arith, of_two_roles, h.share_keys list_id user_id))) [
          | inr edits ↦ by_role editor action (ground (arith, none_, edits)) (record {
            not_owner = none_;
            shared = omega (arith, of_two_roles, h.share_keys list_id user_id, edits);
            shared_as = edits;
          })
          | inl not_editor ↦
              elim (zero_or_one (shared_as "viewer")
                (omega (arith, of_two_roles, h.share_keys list_id user_id))) [
                  | inr views ↦
                      by_role viewer action (ground (arith, none_, not_editor, views)) (record {
                        not_owner = none_;
                        shared = omega (arith, of_two_roles, not_editor, views);
                        shared_as = views;
                      })
                  | inl not_viewer ↦
                      require_list_permission-stranger laws (action_name action) list_id user_id s
                        (record {
                          not_owner = none_;
                          not_shared = omega (arith, of_two_roles, not_editor, not_viewer);
                        })
                      ∙ ground (arith, none_, not_editor, not_viewer)
                ]
        ]

  -- In a consistent database the dependency answers every caller and every action by the access map:
  -- the permission with the caller's role, if the role may do the action, and else a 404. It never
  -- ends in a server error, and it changes nothing.
  pub require_list_permission-role_on :
      (action : Action)
      → require_list_permission (action_name action) list_id user_id s
        ≡ (decided list_id user_id (role_on s.db list_id user_id) action, s)
  require_list_permission-role_on action =
      elim (zero_or_one (tally (is_owned list_id user_id) s.db.lists) owned_once) [
        | inl none_ ↦ by_share action none_
        | inr one ↦
            by_role owner action (ground (arith, one))
              (record { owns = one; shared_once = h.share_keys list_id user_id })
      ]
