-- ===== src/Routes/Decisions/Items.antt =====
-- Handlers that change nothing but items.
use shared_todos.Common.{
  ℕ, ◌≡◌, refl, ◌∙◌, Bool, true, false, Option, none, some, List, [], ◌∷◌, ◌++◌, All, arith,
}
use shared_todos.Http.{Error, Result, ok, err, Ensures, Ensures-bind}
use shared_todos.Db.{
  Engine, Db, User, ListRow, Share, SessionRow, PasswordResetToken, Session, Write, add_item,
  set_item, remove_item, apply, apply_all, Tx, ◌>>=◌, ◌>>◌, pure, lift, query, write, commit,
  raise_if, or_404, run, then_do, settle,
}
use shared_todos.Authz.Dependencies.{ListPermission}
use shared_todos.Authz.Permissions.{editor}
use shared_todos.Authz.Permissions.Matrix.{permits}
use shared_todos.Lists
use shared_todos.Items
use shared_todos.Items.{ItemCreate, ItemUpdate}
use shared_todos.Routes.{
  Call, get_list_call, list_items_call, create_item_call, update_item_call, delete_item_call,
  required_action, Draw, handle,
}

abbrev pub is_item_write : Write → Bool
is_item_write (add_item it) = true
is_item_write (set_item i content completed order now) = true
is_item_write (remove_item i) = true
is_item_write _ = false

abbrev pub OnlyItems : List Write → Type 0
OnlyItems ws = All (λ w. is_item_write w ≡ true) ws

OnlyItems-append : (vs ws : List Write) → OnlyItems vs → OnlyItems ws → OnlyItems (vs ++ ws)
OnlyItems-append [] ws h k = k
OnlyItems-append (v ∷ vs) ws (h, hs) k = (h, OnlyItems-append vs ws hs k)

module _ ⦃e : Engine⦄ where
  -- all tables but that of items
  abbrev pub rest :
      Db e
      → e.Table User
        × e.Table ListRow
        × e.Table Share
        × e.Table SessionRow
        × e.Table PasswordResetToken
  rest db = (db.users, db.lists, db.shares, db.sessions, db.reset_tokens)

  apply-rest :
      (w : Write) (db : Db e)
      → is_item_write w ≡ true
      → Ensures (λ db'. rest db' ≡ rest db) (apply w db)
  unfolding apply
  apply-rest (add_item it) db h = ground arith
  apply-rest (set_item i content completed order now) db h = ground arith
  apply-rest (remove_item i) db h = refl
  apply-rest _ db h = cc

  module _
      (tables : e.Table User
        × e.Table ListRow
        × e.Table Share
        × e.Table SessionRow
        × e.Table PasswordResetToken) where
    -- the tables but that of items are these
    abbrev AreRest : Db e → Type 0
    AreRest db = rest db ≡ tables

    apply-AreRest :
        (w : Write) (db : Db e) → is_item_write w ≡ true → AreRest db → Ensures AreRest (apply w db)
    apply-AreRest w db h k = after (apply w db) (apply-rest w db h)
      where
        after : (r : Result (Db e)) → Ensures (λ db'. rest db' ≡ rest db) r → Ensures AreRest r
        after (ok db') same = same ∙ k
        after (err x) same = tt

    apply_all-AreRest :
        (ws : List Write) (db : Db e)
        → OnlyItems ws
        → AreRest db
        → Ensures AreRest (apply_all ws db)
    unfolding apply_all
    apply_all-AreRest [] db h k = k
    apply_all-AreRest (w ∷ ws) db (h, hs) k =
        Ensures-bind AreRest AreRest (apply w db) (apply_all ws) (apply-AreRest w db h k)
          (λ db'. apply_all-AreRest ws db' hs)

  -- the session is one of these tables, with only items to write
  pub record Leaves {A : Type 0} (m : Tx e A) : Type 0 where
    pub at :
        (s : Session e)
        → OnlyItems s.pending
        → (rest (m s).1.db ≡ rest s.db) × OnlyItems (m s).1.pending

module _ ⦃e : Engine⦄ {A : Type 0} where
  Leaves-pure : (a : A) → Leaves (pure a)
  unfolding ◌>>=◌
  Leaves-pure a = record { at = λ s h. (refl, h) }

  Leaves-lift : (r : Result A) → Leaves (lift r)
  unfolding ◌>>=◌
  Leaves-lift r = record { at = λ s h. (refl, h) }

  Leaves-query : (f : Db e → A) → Leaves (query f)
  unfolding ◌>>=◌
  Leaves-query f = record { at = λ s h. (refl, h) }

  Leaves-or_404 : (o : Option A) → Leaves (or_404 o)
  unfolding ◌>>=◌
  Leaves-or_404 none = record { at = λ s h. (refl, h) }
  Leaves-or_404 (some a) = record { at = λ s h. (refl, h) }

module _ ⦃e : Engine⦄ where
  Leaves-write : (w : Write) → is_item_write w ≡ true → Leaves (write w)
  unfolding ◌>>=◌
  Leaves-write w k = record { at = λ s h. (refl, OnlyItems-append s.pending (w ∷ []) h (k, tt)) }

  Leaves-raise_if : (b : Bool) (x : Error) → Leaves (raise_if b x)
  unfolding ◌>>=◌
  Leaves-raise_if b x = record { at = λ s h. (refl, h) }

  Leaves-commit : Leaves commit
  unfolding commit
  Leaves-commit = record {
    at = λ s h.
        after s (apply_all s.pending s.db) (apply_all-AreRest (rest s.db) s.pending s.db h refl);
  }
    where
      after :
          (s : Session e) (r : Result (Db e))
          → Ensures (λ db'. rest db' ≡ rest s.db) r
          → (rest (settle s r).1.db ≡ rest s.db) × OnlyItems (settle s r).1.pending
      after s (ok db') same = (same, tt)
      after s (err x) same = (refl, tt)

module _ ⦃e : Engine⦄ {A B : Type 0} where
  Leaves-bind :
      (m : Tx e A) (f : A → Tx e B) → Leaves m → ((a : A) → Leaves (f a)) → Leaves (m >>= f)
  unfolding ◌>>=◌
  Leaves-bind m f km kf = record {
    at = λ s h.
        let (same, items) = km.at s h in
        let (same', items') = after (m s) items in (same' ∙ same, items');
  }
    where
      after :
          (r : Result A × Session e)
          → OnlyItems r.1.pending
          → (rest (then_do r.0 f r.1).1.db ≡ rest r.1.db) × OnlyItems (then_do r.0 f r.1).1.pending
      after (ok a, s) h = (kf a).at s h
      after (err x, s) h = (refl, h)

ruleset leaves_rules = (
  Leaves-pure, Leaves-lift, Leaves-query, Leaves-or_404, Leaves-raise_if, Leaves-commit,
  Leaves-bind,
)

module _ ⦃e : Engine⦄ where
  -- a write of an item, and what comes after it
  Leaves-write-then :
      {B : Type 0} (w : Write) (n : Tx e B)
      → is_item_write w ≡ true
      → Leaves n
      → Leaves (write w >> n)
  Leaves-write-then w n k kn = Leaves-bind (write w) (λ _. n) (Leaves-write w k) (λ _. kn)

  Leaves-get_list : (perm : ListPermission) → Leaves (Lists.get_list perm)
  unfolding Lists.get_list
  Leaves-get_list perm = search leaves_rules

  Leaves-list_items : (perm : ListPermission) → Leaves (Items.list_items perm)
  unfolding Items.list_items
  Leaves-list_items perm = search leaves_rules

  Leaves-create_item :
      (body : ItemCreate) (perm : ListPermission) (id now : ℕ)
      → Leaves (Items.create_item body perm id now)
  unfolding Items.create_item
  Leaves-create_item body perm id now = Leaves-write-then _ _ refl (search leaves_rules)

  Leaves-update_item :
      (item_id : ℕ) (body : ItemUpdate) (perm : ListPermission) (now : ℕ)
      → Leaves (Items.update_item item_id body perm now)
  unfolding Items.update_item
  Leaves-update_item item_id body perm now =
      Leaves-bind _ _ (search leaves_rules) λ item. Leaves-write-then _ _ refl (search leaves_rules)

  Leaves-delete_item :
      (item_id : ℕ) (perm : ListPermission) → Leaves (Items.delete_item item_id perm)
  unfolding Items.delete_item
  Leaves-delete_item item_id perm =
      Leaves-bind _ _ (search leaves_rules) λ item. Leaves-write-then _ _ refl Leaves-commit

  -- what an editor may do
  Leaves-handle :
      (call : Call) (perm : ListPermission) (d : Draw e)
      → permits editor (required_action call) ≡ true
      → Leaves (handle call perm d)
  unfolding handle
  Leaves-handle get_list_call perm d h = Leaves-bind _ _ (Leaves-get_list perm) λ l. Leaves-pure _
  Leaves-handle list_items_call perm d h =
      Leaves-bind _ _ (Leaves-list_items perm) λ l. Leaves-pure _
  Leaves-handle (create_item_call body) perm d h =
      Leaves-bind _ _ (Leaves-create_item body perm d.id d.now) λ l. Leaves-pure _
  Leaves-handle (update_item_call item_id body) perm d h =
      Leaves-bind _ _ (Leaves-update_item item_id body perm d.now) λ l. Leaves-pure _
  Leaves-handle (delete_item_call item_id) perm d h =
      Leaves-bind _ _ (Leaves-delete_item item_id perm) λ l. Leaves-pure _
  Leaves-handle _ perm d h = cc

  pub run-handle :
      (call : Call) (perm : ListPermission) (d : Draw e) (s : Session e)
      → permits editor (required_action call) ≡ true
      → rest (run (handle call perm d) s).1.db ≡ rest s.db
  unfolding run
  run-handle call perm d s h = ((Leaves-handle call perm d h).at (record s { pending = [] }) tt).0
