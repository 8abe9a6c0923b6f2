-- ===== src/Lists/Tests.antt =====
-- The routes of lists on a small database.
use shared_todos.Common.{ℕ, ◌≡◌, refl, List, [], ◌∷◌, count, nat_eq, string_eq}
use shared_todos.Http.{ok}
use shared_todos.Db.{tally, ListRow, has_id, run, ◌>>=◌}
use shared_todos.Db.Memory.{memory, memory-IsEngine}
use shared_todos.Db.Sample.{groceries, sample, start, sample-IsConsistent}
use shared_todos.Authz.Permissions.{owner}
use shared_todos.Authz.Dependencies.{ListPermission}
use shared_todos.Authz.Dependencies.Standing.{IsStranger}
use shared_todos.Lists.{ListCreate, list_lists, unseen}
use shared_todos.Lists.Listing.{list_lists-exact}

abbrev perm : ListPermission
perm = record { list_id = 10; user_id = 1; role = owner }

abbrev chores : ListCreate
chores = record { name = "chores" }

-- user 2 sees the list that is shared
list_lists_test : run (list_lists 2) start ≡ (ok (groceries ∷ []), start)
unfolding list_lists unseen nat_eq run ◌>>=◌
list_lists_test = refl

list_lists-exact_example :
    (lists : List ListRow) × (run (list_lists 2) start ≡ (ok lists, start))
    × ((i : ℕ) → IsStranger sample i 2 → count (has_id i) lists ≡ 0)
    × ((i : ℕ) → ¬ IsStranger sample i 2 → count (has_id i) lists ≡ 1)
list_lists-exact_example = list_lists-exact memory-IsEngine start 2 sample-IsConsistent

there : tally (has_id 10) sample.lists ≡ 1
unfolding nat_eq
there = refl
