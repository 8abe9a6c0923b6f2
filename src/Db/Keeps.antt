-- ===== src/Db/Keeps.antt =====
-- Properties of the database that a handler keeps, whether it returns or raises: a rule for each
-- way to build a handler.
use shared_todos.Common.{
  Bool, true, false, Option, none, some, List, [], ◌∷◌, if◌then◌else◌, arith, String, ℕ,
}
use shared_todos.Http.{Error, Result, ok, err, Ensures, Ensures-bind}
use shared_todos.Db.Server.{Engine}
use shared_todos.Db.Schema.{Db, Write, apply, apply_all}
use shared_todos.Db.Transaction.{
  Session, Tx, ◌>>=◌, ◌>>◌, pure, raise, lift, query, write, commit, raise_if, or_404, meanwhile,
  run, then_do, check_store, change_store,
}

module _ ⦃e : Engine⦄ where
  pub record Keeps {A : Type 0} (P : Db e → Type 0) (m : Tx e A) : Type 0 where
    pub at : (s : Session e) → P s.db → P (m s).1.db

module _ ⦃e : Engine⦄ {P : Db e → Type 0} {A : Type 0} where
  pub Keeps-pure : (a : A) → Keeps P (pure a)
  unfolding ◌>>=◌
  Keeps-pure a = record { at = λ s h. h }

  pub Keeps-raise : (x : Error) → Keeps P (raise {A = A} x)
  unfolding ◌>>=◌
  Keeps-raise x = record { at = λ s h. h }

  pub Keeps-lift : (r : Result A) → Keeps P (lift r)
  unfolding ◌>>=◌
  Keeps-lift r = record { at = λ s h. h }

  pub Keeps-query : (f : Db e → A) → Keeps P (query f)
  unfolding ◌>>=◌
  Keeps-query f = record { at = λ s h. h }

  pub Keeps-or_404 : (o : Option A) → Keeps P (or_404 o)
  unfolding ◌>>=◌
  Keeps-or_404 none = record { at = λ s h. h }
  Keeps-or_404 (some a) = record { at = λ s h. h }

  pub Keeps-if : (b : Bool) (m n : Tx e A) → Keeps P m → Keeps P n → Keeps P (if b then m else n)
  Keeps-if true m n k l = k
  Keeps-if false m n k l = l

  pub Keeps-run : (m : Tx e A) → Keeps P m → Keeps P (run m)
  unfolding run
  Keeps-run m k = record { at = λ s h. k.at (record s { pending = [] }) h }

module _ ⦃e : Engine⦄ {P : Db e → Type 0} where
  pub Keeps-write : (w : Write) → Keeps P (write w)
  unfolding ◌>>=◌
  Keeps-write w = record { at = λ s h. h }

  pub Keeps-raise_if : (b : Bool) (x : Error) → Keeps P (raise_if b x)
  unfolding ◌>>=◌
  Keeps-raise_if b x = record { at = λ s h. h }

  pub Keeps-check_store : (f : List (String × List ℕ) → Result (Unit {0})) → Keeps P (check_store f)
  unfolding ◌>>=◌
  Keeps-check_store f = record { at = λ s h. h }

  pub Keeps-change_store :
      (f : List (String × List ℕ) → List (String × List ℕ)) → Keeps P (change_store f)
  unfolding ◌>>=◌
  Keeps-change_store f = record { at = λ s h. h }

  pub Keeps-meanwhile :
      (others : Db e → Db e) → ((db : Db e) → P db → P (others db)) → Keeps P (meanwhile others)
  unfolding ◌>>=◌
  Keeps-meanwhile others k = record { at = λ s h. k s.db h }

module _ ⦃e : Engine⦄ {P : Db e → Type 0} {A B : Type 0} where
  pub Keeps-bind :
      (m : Tx e A) (f : A → Tx e B) → Keeps P m → ((a : A) → Keeps P (f a)) → Keeps P (m >>= f)
  unfolding ◌>>=◌
  Keeps-bind m f km kf = record { at = λ s h. after (m s) (km.at s h) }
    where
      after : (r : Result A × Session e) → P r.1.db → P (then_do r.0 f r.1).1.db
      after (ok a, s) h = (kf a).at s h
      after (err x, s) h = h

module _ ⦃e : Engine⦄ {P : Db e → Type 0} {B : Type 0} where
  pub Keeps-write-then : (w : Write) (n : Tx e B) → Keeps P n → Keeps P (write w >> n)
  Keeps-write-then w n k = Keeps-bind (write w) (λ _. n) (Keeps-write w) (λ _. k)

  pub Keeps-raise_if-then :
      (b : Bool) (x : Error) (n : Tx e B) → Keeps P n → Keeps P (raise_if b x >> n)
  Keeps-raise_if-then b x n k = Keeps-bind (raise_if b x) (λ _. n) (Keeps-raise_if b x) (λ _. k)

  pub Keeps-meanwhile-then :
      (others : Db e → Db e) (n : Tx e B)
      → ((db : Db e) → P db → P (others db))
      → Keeps P n
      → Keeps P (meanwhile others >> n)
  Keeps-meanwhile-then others n h k =
      Keeps-bind (meanwhile others) (λ _. n) (Keeps-meanwhile others h) (λ _. k)

pub ruleset keeps_rules = (
  Keeps-pure, Keeps-raise, Keeps-lift, Keeps-query, Keeps-if, Keeps-run, Keeps-write-then,
  Keeps-raise_if-then, Keeps-meanwhile-then, Keeps-bind, Keeps-or_404, Keeps-check_store,
  Keeps-change_store,
)

-- what every write that the database accepts keeps
abbrev pub IsStable : ⦃e : Engine⦄ → (Db e → Type 0) → Type 0
IsStable P = (w : Write) (db : Db _) → P db → Ensures P (apply w db)

module _ ⦃e : Engine⦄ (P : Db e → Type 0) (stable : IsStable P) where
  pub apply_all-Ensures : (ws : List Write) (db : Db e) → P db → Ensures P (apply_all ws db)
  unfolding apply_all
  apply_all-Ensures [] db h = h
  apply_all-Ensures (w ∷ ws) db h =
      Ensures-bind P P (apply w db) (apply_all ws) (stable w db h) (apply_all-Ensures ws)

  -- A commit keeps it, whatever is pending.
  pub Keeps-commit : Keeps P commit
  unfolding commit
  Keeps-commit = record { at = λ s h. ground (arith, apply_all-Ensures s.pending s.db h) }

  -- a commit, and what comes after it
  pub Keeps-commit-then : {A : Type 0} (m : Tx e A) → Keeps P m → Keeps P (commit >> m)
  Keeps-commit-then m k = Keeps-bind commit (λ _. m) Keeps-commit (λ _. k)
