-- ===== src/Items/Tests.antt =====
-- The routes of items on a small database.
use shared_todos.Common.{
  ◌≡◌, refl, Bool, true, false, not, ◌&&◌, none, some, [], ◌∷◌, nat_eq, string_eq, arith,
}
use shared_todos.Common.Int.{pos}
use shared_todos.Http.{ok, err, http}
use shared_todos.Db.{tally, Item, is_item, run, moved_to}
use shared_todos.Db.Memory.{memory, memory-IsEngine}
use shared_todos.Db.Sample.{milk, sample, start}
use shared_todos.Authz.Permissions.{editor}
use shared_todos.Authz.Dependencies.{ListPermission}
use shared_todos.Items.{ItemCreate, ItemUpdate, update_item, delete_item}
use shared_todos.Items.Effects.{foreign_item, update_item-found, updated, patched}

-- list 10, and a list that the item is not on
abbrev perm : ListPermission
perm = record { list_id = 10; user_id = 2; role = editor }

abbrev elsewhere : ListPermission
elsewhere = record { list_id = 99; user_id = 2; role = editor }

abbrev tick : ItemUpdate
tick = record { content = none; completed = some true; order = none }

abbrev bread : ItemCreate
bread = record { content = "bread"; order = pos 3 }

foreign_item_example :
    (run (update_item 20 tick elsewhere 7) start ≡ (err (http 404 "Not found"), start))
    × (run (delete_item 20 elsewhere) start ≡ (err (http 404 "Not found"), start))
unfolding nat_eq
foreign_item_example = foreign_item memory-IsEngine elsewhere start 20 (omega arith) refl tick 7

found : memory.select (is_item 20) sample.items ≡ milk ∷ []
unfolding nat_eq
found = refl

update_item-found_example :
    (x : Item) × (run (update_item 20 tick perm 7) start
      ≡ (ok x, moved_to start (updated memory-IsEngine perm start 20 milk found refl refl tick 7)))
    × (patched memory-IsEngine perm start 20 milk found refl refl tick 7 x ≡ true)
    × ((q : Item → Bool)
        → ((y : Item) → is_item 20 y ≡ true → q y ≡ false)
        → tally
            (λ y. not (is_item 20 y) && q y)
            (updated memory-IsEngine perm start 20 milk found refl refl tick 7).items
          ≡ tally q sample.items)
update_item-found_example =
    update_item-found memory-IsEngine perm start 20 milk found refl refl tick 7 refl
