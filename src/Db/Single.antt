-- ===== src/Db/Single.antt =====
-- Which handlers never end in SQLAlchemy's MultipleResultsFound: a rule for each way to build one.
use shared_todos.Common.{
  ℕ, ◌≤◌, ◌≡◌, refl, String, Bool, true, false, Option, none, some, List, [], ◌∷◌, count,
  if◌then◌else◌, arith,
}
use shared_todos.Http
use shared_todos.Http.{Error, Result, ok, err, multiple_results_found}
use shared_todos.Db.Server.{Engine}
use shared_todos.Db.Schema.{
  Db, Write, apply, apply_all, add_user, add_list, add_item, add_share, add_session,
  add_reset_token, set_item, set_role, set_google_sub,
}
use shared_todos.Db.Transaction.{
  Session, Tx, ◌>>=◌, ◌>>◌, pure, raise, lift, query, write, commit, raise_if, or_404, meanwhile,
  run, then_do, check_store, change_store, settle, scalar_one, scalar_one_or_none,
}
use shared_todos.Db.Keeps.{Keeps, Keeps-commit, IsStable}

abbrev pub ambiguous : {A : Type 0} → Result A → Bool
ambiguous (err multiple_results_found) = true
ambiguous _ = false

-- the number of rows of an answer
abbrev pub rows : {A : Type 0} → List A → ℕ
rows xs = count (λ _. true) xs

module _ ⦃e : Engine⦄ where
  ambiguous-apply : (w : Write) (db : Db e) → ambiguous (apply w db) ≡ false
  unfolding apply
  ambiguous-apply (add_user u) db = ground arith
  ambiguous-apply (add_list l) db = ground arith
  ambiguous-apply (add_item it) db = ground arith
  ambiguous-apply (add_share s) db = ground arith
  ambiguous-apply (add_session s) db = ground arith
  ambiguous-apply (add_reset_token t) db = ground arith
  ambiguous-apply (set_item i content completed order now) db = ground arith
  ambiguous-apply (set_role l u role) db = ground arith
  ambiguous-apply (set_google_sub i sub now) db = ground arith
  ambiguous-apply _ db = ground arith

  ambiguous-apply_all : (ws : List Write) (db : Db e) → ambiguous (apply_all ws db) ≡ false
  unfolding apply_all
  ambiguous-apply_all [] db = refl
  ambiguous-apply_all (w ∷ ws) db =
      after (apply w db) (ambiguous-apply w db) (ambiguous-apply_all ws)
    where
      after :
          (r : Result (Db e))
          → ambiguous r ≡ false
          → ((db : Db e) → ambiguous (apply_all ws db) ≡ false)
          → ambiguous (Http.◌>>=◌ r (apply_all ws)) ≡ false
      after (ok db') h rest = rest db'
      after (err x) h rest = ground (arith, h)

  pub record Single {A : Type 0} (P : Db e → Type 0) (m : Tx e A) : Type 0 where
    pub at : (s : Session e) → P s.db → ambiguous (m s).0 ≡ false

module _ ⦃e : Engine⦄ {P : Db e → Type 0} {A : Type 0} where
  pub Single-pure : (a : A) → Single P (pure a)
  unfolding ◌>>=◌
  Single-pure a = record { at = λ s h. refl }

  pub Single-raise : (x : Error) → ambiguous {A = A} (err x) ≡ false → Single P (raise {A = A} x)
  unfolding ◌>>=◌
  Single-raise x k = record { at = λ s h. k }

  pub Single-lift : (r : Result A) → ambiguous r ≡ false → Single P (lift r)
  unfolding ◌>>=◌
  Single-lift r k = record { at = λ s h. k }

  pub Single-query : (f : Db e → A) → Single P (query f)
  unfolding ◌>>=◌
  Single-query f = record { at = λ s h. refl }

  pub Single-or_404 : (o : Option A) → Single P (or_404 o)
  unfolding ◌>>=◌
  Single-or_404 none = record { at = λ s h. refl }
  Single-or_404 (some a) = record { at = λ s h. refl }

  pub Single-if :
      (b : Bool) (m n : Tx e A) → Single P m → Single P n → Single P (if b then m else n)
  Single-if true m n k l = k
  Single-if false m n k l = l

  pub Single-run : (m : Tx e A) → Single P m → Single P (run m)
  unfolding run
  Single-run m k = record { at = λ s h. k.at (record s { pending = [] }) h }

module _ ⦃e : Engine⦄ {P : Db e → Type 0} {A B : Type 0} where
  pub Single-bind :
      (m : Tx e A) (f : A → Tx e B)
      → Keeps P m
      → Single P m
      → ((a : A) → Single P (f a))
      → Single P (m >>= f)
  unfolding ◌>>=◌
  Single-bind m f keeps km kf = record { at = λ s h. after (m s) (keeps.at s h) (km.at s h) }
    where
      after :
          (r : Result A × Session e)
          → P r.1.db
          → ambiguous r.0 ≡ false
          → ambiguous (then_do r.0 f r.1).0 ≡ false
      after (ok a, s) h k = (kf a).at s h
      after (err x, s) h k = ground (arith, k)

  -- a handler that only puts a result in an answer
  pub Single-answer : (m : Tx e A) (f : A → B) → Single P m → Single P (m >>= λ a. pure (f a))
  unfolding ◌>>=◌
  Single-answer m f km = record { at = λ s h. after (m s) (km.at s h) }
    where
      after :
          (r : Result A × Session e)
          → ambiguous r.0 ≡ false
          → ambiguous (then_do r.0 (λ a. pure (f a)) r.1).0 ≡ false
      after (ok a, s) k = refl
      after (err x, s) k = ground (arith, k)

  -- a query of at most one row, and `scalar_one_or_none` or `scalar_one`
  pub Single-find :
      (f : Db e → List A) (k : Option A → Tx e B)
      → ((db : Db e) → P db → rows (f db) ≤ 1)
      → ((o : Option A) → Single P (k o))
      → Single P (query f >>= λ found. lift (scalar_one_or_none found) >>= k)
  unfolding ◌>>=◌ scalar_one_or_none
  Single-find f k few kk = record { at = λ s h. after (f s.db) s h (few s.db h) }
    where
      after :
          (found : List A) (s : Session e)
          → P s.db
          → rows found ≤ 1
          → ambiguous (then_do (scalar_one_or_none found) k s).0 ≡ false
      after [] s h one = (kk none).at s h
      after (x ∷ []) s h one = (kk (some x)).at s h
      after (x ∷ y ∷ xs) s h one = ground (arith, one)

  pub Single-get :
      (f : Db e → List A) (k : A → Tx e B)
      → ((db : Db e) → P db → rows (f db) ≤ 1)
      → ((a : A) → Single P (k a))
      → Single P (query f >>= λ found. lift (scalar_one found) >>= k)
  unfolding ◌>>=◌ scalar_one
  Single-get f k few kk = record { at = λ s h. after (f s.db) s h (few s.db h) }
    where
      after :
          (found : List A) (s : Session e)
          → P s.db
          → rows found ≤ 1
          → ambiguous (then_do (scalar_one found) k s).0 ≡ false
      after [] s h one = refl
      after (x ∷ []) s h one = (kk x).at s h
      after (x ∷ y ∷ xs) s h one = ground (arith, one)

module _ ⦃e : Engine⦄ {P : Db e → Type 0} {A : Type 0} (f : Db e → List A)
    (few : (db : Db e) → P db → rows (f db) ≤ 1) where
  pub Single-found : Single P (query f >>= λ found. lift (scalar_one_or_none found))
  unfolding ◌>>=◌ scalar_one_or_none
  Single-found = record { at = λ s h. after (f s.db) (few s.db h) }
    where
      after : (found : List A) → rows found ≤ 1 → ambiguous (scalar_one_or_none found) ≡ false
      after [] one = refl
      after (x ∷ []) one = refl
      after (x ∷ y ∷ xs) one = ground (arith, one)

  pub Single-refresh : Single P (query f >>= λ found. lift (scalar_one found))
  unfolding ◌>>=◌ scalar_one
  Single-refresh = record { at = λ s h. after (f s.db) (few s.db h) }
    where
      after : (found : List A) → rows found ≤ 1 → ambiguous (scalar_one found) ≡ false
      after [] one = refl
      after (x ∷ []) one = refl
      after (x ∷ y ∷ xs) one = ground (arith, one)

module _ ⦃e : Engine⦄ {P : Db e → Type 0} {B : Type 0} where
  pub Single-write-then : (w : Write) (n : Tx e B) → Single P n → Single P (write w >> n)
  unfolding ◌>>=◌
  Single-write-then w n k = record { at = λ s h. k.at _ h }

  pub Single-change_store-then :
      (f : List (String × List ℕ) → List (String × List ℕ)) (n : Tx e B)
      → Single P n
      → Single P (change_store f >> n)
  unfolding ◌>>=◌
  Single-change_store-then f n k = record { at = λ s h. k.at _ h }

  pub Single-meanwhile-then :
      (others : Db e → Db e) (n : Tx e B)
      → ((db : Db e) → P db → P (others db))
      → Single P n
      → Single P (meanwhile others >> n)
  unfolding ◌>>=◌
  Single-meanwhile-then others n h k = record { at = λ s i. k.at _ (h s.db i) }

  pub Single-raise_if-then :
      (b : Bool) (x : Error) (n : Tx e B)
      → ambiguous {A = B} (err x) ≡ false
      → Single P n
      → Single P (raise_if b x >> n)
  unfolding ◌>>=◌
  Single-raise_if-then true x n h k = record { at = λ s i. h }
  Single-raise_if-then false x n h k = record { at = λ s i. k.at s i }

  pub Single-lift-then :
      {A : Type 0} (r : Result A) (k : A → Tx e B)
      → ambiguous r ≡ false
      → ((a : A) → Single P (k a))
      → Single P (lift r >>= k)
  unfolding ◌>>=◌
  Single-lift-then (ok a) k h kk = record { at = λ s i. (kk a).at s i }
  Single-lift-then (err x) k h kk = record { at = λ s i. ground (arith, h) }

  pub Single-query-then :
      {A : Type 0} (f : Db e → A) (k : A → Tx e B)
      → ((a : A) → Single P (k a))
      → Single P (query f >>= k)
  unfolding ◌>>=◌
  Single-query-then f k kk = record { at = λ s i. (kk (f s.db)).at s i }

  pub Single-check_store-then :
      (f : List (String × List ℕ) → Result (Unit {0})) (n : Tx e B)
      → ((store : List (String × List ℕ)) → ambiguous (f store) ≡ false)
      → Single P n
      → Single P (check_store f >> n)
  unfolding ◌>>=◌
  Single-check_store-then f n h k = record {
    at = λ s i. after s i (f s.failed_logins) (h s.failed_logins);
  }
    where
      after :
          (s : Session e)
          → P s.db
          → (r : Result (Unit {0})) → ambiguous r ≡ false
          → ambiguous (then_do r (λ _. n) s).0 ≡ false
      after s i (ok u) h = k.at s i
      after s i (err x) h = ground (arith, h)

module _ ⦃e : Engine⦄ (P : Db e → Type 0) (stable : IsStable P) where
  pub Single-commit : Single P commit
  unfolding commit
  Single-commit = record {
    at = λ s h. after s (apply_all s.pending s.db) (ambiguous-apply_all s.pending s.db);
  }
    where
      after :
          (s : Session e) (r : Result (Db e))
          → ambiguous r ≡ false
          → ambiguous (settle s r).0 ≡ false
      after s (ok db) h = refl
      after s (err x) h = ground (arith, h)

  pub Single-commit-then : {B : Type 0} (n : Tx e B) → Single P n → Single P (commit >> n)
  Single-commit-then n k =
      Single-bind commit (λ _. n) (Keeps-commit P stable) Single-commit (λ _. k)
