-- ===== src/Routes/Tests.antt =====
-- The routes of a list on a small database, and the theorems about them at concrete inputs.
use shared_todos.Shares.{share_out_of}
use shared_todos.Common.{ℕ, ◌≡◌, refl, ◌≢◌, true, [], ◌∷◌, nat_eq, string_eq, arith, ◌⊎◌}
use shared_todos.Common.Int.{pos}
use shared_todos.Http.{ok, err, http, data_error, error_status}
use shared_todos.Db.{
  tally, Share, is_share, is_user, has_id, on_list, apply, apply_all, commit, run,
  scalar_one_or_none, ◌>>=◌, moved_to,
}
use shared_todos.Db.Memory.{memory, memory-IsEngine}
use shared_todos.Db.Sample.{share_with, sample, start, sample-IsConsistent}
use shared_todos.Authz.Permissions.{owner, can_perform, effective_role}
use shared_todos.Authz.Dependencies.{require_list_permission}
use shared_todos.Authz.Dependencies.Access.{role_on}
use shared_todos.Authz.Dependencies.Standing.{IsStranger, IsOwner, IsCollaborator, is_share_as}
use shared_todos.Items.{ItemCreate, ItemCreate_accepts}
use shared_todos.Shares
use shared_todos.Shares.{role_accepts}
use shared_todos.Routes.{
  Call, no_content, share_out, Draw, create_item_call, handle, serve, delete_list_call,
  revoke_share_call, create_share_call,
}
use shared_todos.Routes.Decisions.{admitted, serve-role_on, serve-not_owner}
use shared_todos.Routes.Decisions.Items.{rest}
use shared_todos.Routes.Sharing.{revoke-shuts_out, create_share-takes_effect, create_share-race}
use shared_todos.Routes.Removal.{delete_list-shuts_out}
use shared_todos.Routes.Overflow.{order-overflows}

abbrev draw : Draw memory
draw = record { id = 77; now = 5; others = λ db. db }

sample-IsOwner : IsOwner sample 10 1
unfolding nat_eq
sample-IsOwner = record { owns = refl; shared_once = omega arith }

sample-IsStranger : IsStranger sample 10 3
unfolding nat_eq
sample-IsStranger = record { not_owner = refl; not_shared = refl }

sample-IsCollaborator : IsCollaborator sample 10 2 "viewer"
unfolding nat_eq string_eq
sample-IsCollaborator = record { not_owner = refl; shared = refl; shared_as = refl }

-- the owner revokes the share of user 2
revoke_test :
    serve (revoke_share_call 2) 10 1 draw start
    ≡ (ok no_content, record start { db = record sample { shares = [] } })
unfolding serve handle Shares.revoke_share require_list_permission can_perform effective_role
    string_eq nat_eq scalar_one_or_none run ◌>>=◌ commit apply_all apply
revoke_test = refl

revoke-shuts_out_example :
    let (answer, s') = serve (revoke_share_call 2) 10 1 draw start in
    (answer ≡ ok no_content)
    × IsStranger s'.db 10 2
    × ((call : Call) (d' : Draw memory) → serve call 10 2 d' s' ≡ (err (http 404 "Not found"), s'))
unfolding nat_eq
revoke-shuts_out_example =
    revoke-shuts_out memory-IsEngine 10 1 2 draw start sample-IsOwner (omega arith) (omega arith)
      refl

create_share-takes_effect_example :
    let (answer, s') =
      serve (create_share_call (record { user_id = 3; role = "viewer" })) 10 1 draw start in
    (share : Share) × (answer ≡ ok (share_out (share_out_of share)))
    × (is_share_as 10 3 "viewer" share ≡ true)
    × IsCollaborator s'.db 10 3 "viewer"
unfolding nat_eq string_eq role_accepts
create_share-takes_effect_example =
    create_share-takes_effect memory-IsEngine 10 1 3 draw start sample-IsOwner (omega arith)
      (omega arith) "viewer" refl refl refl refl (omega arith) (omega arith) refl

-- another request of the owner shares the list with user 3 while this one waits
abbrev racing : Draw memory
racing = record draw { others = λ db. record db { shares = share_with 3 ∷ db.shares } }

create_share-race_example :
    let served =
      serve (create_share_call (record { user_id = 3; role = "editor" })) 10 1 racing start in
    (tally (is_share 10 3) (racing.others sample).shares ≢ 0
      → served ≡ (err (http 409 "User already has access"), moved_to start (racing.others sample)))
    × (tally (is_share 10 3) (racing.others sample).shares ≡ 0
        → (tally (has_id 10) (racing.others sample).lists ≡ 0)
          ⊎ (tally (is_user 3) (racing.others sample).users ≡ 0)
        → served ≡ (err (http 404 "Not found"), moved_to start (racing.others sample)))
unfolding nat_eq string_eq role_accepts
create_share-race_example =
    create_share-race memory-IsEngine 10 1 3 racing start sample-IsOwner (omega arith) (omega arith)
      "editor" refl refl refl

delete_list-shuts_out_example :
    let (answer, s') = serve delete_list_call 10 1 draw start in
    (answer ≡ ok no_content)
    × (tally (on_list 10) s'.db.items ≡ 0)
    × ((call : Call) (user_id : ℕ) (d' : Draw memory)
        → serve call 10 user_id d' s' ≡ (err (http 404 "Not found"), s'))
unfolding nat_eq
delete_list-shuts_out_example =
    delete_list-shuts_out memory-IsEngine 10 1 draw start sample-IsOwner (omega arith)

abbrev far : ItemCreate
far = record { content = "later"; order = pos 2147483648 }

order-overflows_example :
    (ItemCreate_accepts far ≡ true)
    × (serve (create_item_call far) 10 1 draw start ≡ (err data_error, start))
    × (error_status data_error ≡ 500)
unfolding ItemCreate_accepts
order-overflows_example =
    order-overflows memory-IsEngine 10 1 draw start owner far sample-IsOwner refl refl refl

serve-role_on_example :
    serve delete_list_call 10 2 draw start
    ≡ admitted delete_list_call 10 2 draw start (role_on start.db 10 2)
serve-role_on_example =
    serve-role_on memory-IsEngine delete_list_call 10 2 draw start sample-IsConsistent

serve-not_owner_example : rest (serve delete_list_call 10 2 draw start).1.db ≡ rest start.db
unfolding nat_eq string_eq
serve-not_owner_example =
    serve-not_owner memory-IsEngine delete_list_call 10 2 draw start sample-IsConsistent
      (λ same. cc)
