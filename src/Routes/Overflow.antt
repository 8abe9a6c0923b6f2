-- ===== src/Routes/Overflow.antt =====
-- An item's order, as its schema takes it and as its column holds it.
use shared_todos.Items.{item_out_of}
use shared_todos.Common.{ℕ, ◌≡◌, refl, ◌∙◌, true, false}
use shared_todos.Common.Int.{pos, fits_int32}
use shared_todos.Http.{err, data_error, error_status}
use shared_todos.Db.{Engine, IsEngine, Session, run-answered, moved_to}
use shared_todos.Authz.Permissions.{Role}
use shared_todos.Authz.Permissions.Matrix.{create_item, permits}
use shared_todos.Authz.Dependencies.Standing.{Holds}
use shared_todos.Items
use shared_todos.Items.{ItemCreate, ItemCreate_accepts}
use shared_todos.Items.Effects.{create_item-overflow}
use shared_todos.Routes.{item_out, Draw, create_item_call, handle, serve}
use shared_todos.Routes.Access.{serve-permitted}

module _ ⦃e : Engine⦄ (laws : IsEngine e) (list_id user_id : ℕ) (d : Draw e) (s : Session e) where
  -- A body whose text the schema takes with the order 0, it takes with any order. Where the order is
  -- beyond 32 bits, a caller who may create items has the database's error for an answer, a 500, and
  -- nothing is stored.
  pub order-overflows :
      (role : Role) (body : ItemCreate)
      → Holds s.db list_id user_id role
      → permits role create_item ≡ true
      → ItemCreate_accepts (record body { order = pos 0 }) ≡ true
      → fits_int32 body.order ≡ false
      → (ItemCreate_accepts body ≡ true)
        × (serve (create_item_call body) list_id user_id d s ≡ (err data_error, moved_to s s.db))
        × (error_status data_error ≡ 500)
  unfolding handle ItemCreate_accepts
  order-overflows role body holds may valid wide = (
    valid,
    serve-permitted laws (create_item_call body) list_id user_id d s role holds may
        ∙ rw valid (
            run-answered (λ i. item_out (item_out_of i))
              (Items.create_item body (record { list_id = list_id; user_id = user_id; role = role })
                d.id d.now)
              s (create_item-overflow laws _ s body d.id d.now wide)),
    refl,
  )
