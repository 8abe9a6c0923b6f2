-- ===== src/Routes/Consistency.antt =====
-- Every request to a list keeps the schema's promises.
use shared_todos.Common.{ℕ}
use shared_todos.Db.{Engine, IsEngine, Db, Session}
use shared_todos.Db.Invariant.{IsConsistent}
use shared_todos.Db.Invariant.Writes.{apply-IsConsistent}
use shared_todos.Routes.{Call, Draw, serve}
use shared_todos.Routes.Keeps.{Keeps-serve}

-- what the other requests of the meantime are taken to keep
abbrev pub KeepsConsistent : ⦃e : Engine⦄ → (Db e → Db e) → Type 0
KeepsConsistent others = (db : Db _) → IsConsistent db → IsConsistent (others db)

module _ ⦃e : Engine⦄ (laws : IsEngine e) where
  -- Every request to a list, whoever makes it and however it ends, keeps the keys unique, the roles
  -- valid, and each item and share on a list that is there, if the requests of the meantime do.
  pub serve-IsConsistent :
      (call : Call) (list_id user_id : ℕ) (d : Draw e) (s : Session e)
      → KeepsConsistent d.others
      → IsConsistent s.db
      → IsConsistent (serve call list_id user_id d s).1.db
  serve-IsConsistent call list_id user_id d s k =
      (Keeps-serve IsConsistent (apply-IsConsistent laws) call list_id user_id d k).at s
