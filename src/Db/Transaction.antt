-- ===== src/Db/Transaction.antt =====
-- app/db/base.py and the session that a handler works with: `pending` waits for `commit`, which
-- applies all of it or nothing. A request that ends without a commit leaves the database as it was.
use shared_todos.Common.{
  ◌≡◌, refl, ap, ◌∙◌, ℕ, String, Bool, Option, none, some, List, [], ◌∷◌, ◌++◌, if◌then◌else◌,
}
use shared_todos.Http.{
  Error, Result, ok, err, answered, http, no_result_found, multiple_results_found,
}
use shared_todos.Db.Server.{Engine}
use shared_todos.Db.Schema.{Db, Write, apply_all}

pub record Session (e : Engine) : Type 0 where
  pub db : Db e
  pub pending : List Write
  -- the failed logins of app.auth.rate_limiter, by address
  pub failed_logins : List (String × List ℕ)

-- a handler: it returns or raises, and leaves a session
abbrev pub Tx : (e : Engine) → Type 0 → Type 0
Tx e A = Session e → Result A × Session e

-- `Result.scalar_one_or_none()` and `Result.scalar_one()`
unfoldable pub scalar_one_or_none : {A : Type 0} → List A → Result (Option A)
scalar_one_or_none [] = ok none
scalar_one_or_none (x ∷ []) = ok (some x)
scalar_one_or_none (x ∷ y ∷ xs) = err multiple_results_found

unfoldable pub scalar_one : {A : Type 0} → List A → Result A
scalar_one [] = err no_result_found
scalar_one (x ∷ []) = ok x
scalar_one (x ∷ y ∷ xs) = err multiple_results_found

module _ ⦃e : Engine⦄ where
  pub pure : {A : Type 0} → A → Tx e A
  pure a s = (ok a, s)

  pub raise : {A : Type 0} → Error → Tx e A
  raise x s = (err x, s)

  pub lift : {A : Type 0} → Result A → Tx e A
  lift r s = (r, s)

  -- `db.execute(select(…))`, a query of the database
  pub query : {A : Type 0} → (Db e → A) → Tx e A
  query f s = (ok (f s.db), s)

  -- `db.add(…)`, an assignment to an attribute, `db.delete(…)`
  pub write : Write → Tx e (Unit {0})
  write w s = (ok tt, record s { pending = s.pending ++ w ∷ [] })

  -- `if condition: raise HTTPException(…)`
  pub raise_if : Bool → Error → Tx e (Unit {0})
  raise_if b x s = (if b then err x else ok tt, s)

  -- `if x is None: raise HTTPException(404)`
  pub or_404 : {A : Type 0} → Option A → Tx e A
  or_404 none s = (err (http 404 "Not found"), s)
  or_404 (some a) s = (ok a, s)

  -- What other requests commit while this one waits.
  pub meanwhile : (Db e → Db e) → Tx e (Unit {0})
  meanwhile others s = (ok tt, record s { db = others s.db })

  -- a test, and a change, of the rate limiter's store
  pub check_store : (List (String × List ℕ) → Result (Unit {0})) → Tx e (Unit {0})
  check_store f s = (f s.failed_logins, s)

  pub change_store : (List (String × List ℕ) → List (String × List ℕ)) → Tx e (Unit {0})
  change_store f s = (ok tt, record s { failed_logins = f s.failed_logins })

  abbrev pub then_do : {A B : Type 0} → Result A → (A → Tx e B) → Tx e B
  then_do (ok a) f s = f a s
  then_do (err x) f s = (err x, s)

  infixl 5 ◌>>=◌ ◌>>◌
  -- opening this opens the actions above too
  unfoldable pub ◌>>=◌ : {A B : Type 0} → Tx e A → (A → Tx e B) → Tx e B
  unfolding pure raise lift query write raise_if or_404 meanwhile check_store change_store
  ◌>>=◌ m f s = then_do (m s).0 f (m s).1

  abbrev pub ◌>>◌ : {A B : Type 0} → Tx e A → Tx e B → Tx e B
  m >> n = m >>= λ _. n

  abbrev pub settle : Session e → Result (Db e) → Result (Unit {0}) × Session e
  settle s (ok db) = (ok tt, record s { db = db; pending = [] })
  settle s (err x) = (err x, record s { pending = [] })

  unfoldable pub commit : Tx e (Unit {0})
  commit s = settle s (apply_all s.pending s.db)

  -- One request: a session of its own, closed at the end, which drops what it has not committed.
  unfoldable pub run : {A : Type 0} → Tx e A → Session e → Result A × Session e
  run m s = let (r, s') = m (record s { pending = [] }) in (r, record s' { pending = [] })

  -- a session over another database, with nothing pending
  abbrev pub moved_to : Session e → Db e → Session e
  moved_to s db = record { db = db; pending = []; failed_logins = s.failed_logins }

module _ ⦃e : Engine⦄ {A B : Type 0} (answer : A → B) where
  answered-then_do :
      (r : Result A) (s : Session e) → then_do r (λ a. pure (answer a)) s ≡ (answered answer r, s)
  unfolding ◌>>=◌
  answered-then_do (ok a) s = refl
  answered-then_do (err x) s = refl

  -- A request that only puts its handler's result in an answer.
  pub run-answer :
      (m : Tx e A) (s : Session e)
      → run (m >>= λ a. pure (answer a)) s ≡ (answered answer (run m s).0, (run m s).1)
  unfolding run ◌>>=◌
  run-answer m s =
      let (r, s') = m (record s { pending = [] }) in
      ap (λ (t : Result B × Session e). (t.0, record (t.1) { pending = [] }))
        (answered-then_do r s')

  pub run-answered :
      (m : Tx e A) (s : Session e) {r : Result A} {s' : Session e}
      → run m s ≡ (r, s')
      → run (m >>= λ a. pure (answer a)) s ≡ (answered answer r, s')
  run-answered m s h =
      run-answer m s ∙ ap (λ (t : Result A × Session e). (answered answer t.0, t.1)) h

module _ ⦃e : Engine⦄ {A B : Type 0} (k : A → Tx e B) where
  abbrev closed_with : {C : Type 0} → Result C × Session e → Result C × Session e
  closed_with p = (p.0, record (p.1) { pending = [] })

  failed-then_do :
      (p : Result A × Session e) (x : Error) (t : Session e)
      → closed_with p ≡ (err x, t)
      → closed_with (then_do p.0 k p.1) ≡ (err x, t)
  failed-then_do (ok a, s) x t h = cc
  failed-then_do (err y, s) x t h = cc

  -- A request whose first step raises.
  pub run-failed :
      (m : Tx e A) (s : Session e) {x : Error} {t : Session e}
      → run m s ≡ (err x, t)
      → run (m >>= k) s ≡ (err x, t)
  unfolding run ◌>>=◌
  run-failed m s {x} {t} h = failed-then_do (m (record s { pending = [] })) x t h
