-- ===== src/Shares.antt =====
-- app/shares: the router of shares and its schemas.
pub mod Effects
pub mod Single
use shared_todos.Common.{
  ◌≡◌, refl, ap, ℕ, String, Bool, not, ◌||◌, none, some, List, ◌==◌, nat_eq, string_eq, is_some,
}
use shared_todos.Http.{Error, Result, ok, err, http, unique_violation, foreign_key_violation}
use shared_todos.Db.{
  Engine, Share, Db, Session, is_user, is_share, shares_list, add_share, set_role, remove_share, Tx,
  meanwhile, ◌>>=◌, ◌>>◌, or_404, lift, query, write, commit, raise_if, scalar_one_or_none,
  scalar_one,
}
use shared_todos.Authz.Dependencies.{ListPermission}

pub record ShareCreate : Type 0 where
  pub user_id : ℕ
  pub role : String

pub record ShareOut : Type 0 where
  pub list_id : ℕ
  pub user_id : ℕ
  pub role : String
  pub granted_at : ℕ

-- `from_attributes`
abbrev pub share_out_of : Share → ShareOut
share_out_of s = record {
  list_id = s.list_id;
  user_id = s.user_id;
  role = s.role;
  granted_at = s.granted_at;
}

-- `Field(pattern=r"^(editor|viewer)$")`, of `ShareCreate` and of `ShareUpdate`. The pattern is
-- matched by the validator's regex engine, where `$` is the end of the text.
unfoldable pub role_accepts : String → Bool
role_accepts role = role == "editor" || role == "viewer"

module _ ⦃e : Engine⦄ where
  refresh : ℕ → ℕ → Tx e Share
  refresh list_id user_id = do
    found ← query (λ db. e.select (is_share list_id user_id) db.shares)
    lift (scalar_one found)

  share_or_404 : ℕ → ℕ → Tx e Share
  share_or_404 list_id user_id = do
    found ← query (λ db. e.select (is_share list_id user_id) db.shares)
    share ← lift (scalar_one_or_none found)
    or_404 share

  -- `except IntegrityError`
  on_integrity_error : Error → Error
  on_integrity_error unique_violation = http 409 "User already has access"
  on_integrity_error foreign_key_violation = http 404 "Not found"
  on_integrity_error x = x

  caught : {A : Type 0} → Result A × Session e → Result A × Session e
  caught (ok a, s) = (ok a, s)
  caught (err x, s) = (err (on_integrity_error x), s)

  pub commit_or_refuse : Tx e (Unit {0})
  unfolding caught on_integrity_error
  commit_or_refuse s = caught (commit s)

  db-caught : {A : Type 0} (r : Result A × Session e) → (caught r).1 ≡ r.1
  unfolding caught
  db-caught (ok a, s) = refl
  db-caught (err x, s) = refl

  -- A refused commit leaves what it would leave uncaught.
  pub db-commit_or_refuse : (s : Session e) → (commit_or_refuse s).1.db ≡ (commit s).1.db
  unfolding commit_or_refuse
  db-commit_or_refuse s = ap (λ (t : Session e). t.db) (db-caught (commit s))

  -- `others` is what other requests commit between the two reads and the commit.
  unfoldable pub create_share : ShareCreate → ListPermission → ℕ → (Db e → Db e) → Tx e Share
  unfolding refresh commit_or_refuse
  create_share body perm now others = do
    raise_if (body.user_id == perm.user_id) (http 400 "Cannot share with yourself")
    users ← query (λ db. e.select (is_user body.user_id) db.users)
    target ← lift (scalar_one_or_none users)
    raise_if (not (is_some target)) (http 404 "Not found")
    shares ← query (λ db. e.select (is_share perm.list_id body.user_id) db.shares)
    existing ← lift (scalar_one_or_none shares)
    raise_if (is_some existing) (http 409 "User already has access")
    write (
        add_share (record {
          list_id = perm.list_id;
          user_id = body.user_id;
          role = body.role;
          granted_at = now;
        }))
    meanwhile others
    commit_or_refuse
    refresh perm.list_id body.user_id

  unfoldable pub list_shares : ListPermission → Tx e (List Share)
  list_shares perm = query (λ db. e.select (shares_list perm.list_id) db.shares)

  unfoldable pub change_role : ℕ → String → ListPermission → Tx e Share
  unfolding refresh share_or_404
  change_role target_user_id role perm = do
    share ← share_or_404 perm.list_id target_user_id
    write (set_role share.list_id share.user_id role)
    commit
    refresh perm.list_id target_user_id

  unfoldable pub revoke_share : ℕ → ListPermission → Tx e (Unit {0})
  unfolding share_or_404
  revoke_share target_user_id perm = do
    share ← share_or_404 perm.list_id target_user_id
    write (remove_share share.list_id share.user_id)
    commit
