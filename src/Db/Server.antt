-- ===== src/Db/Server.antt =====
-- What the program uses of its database server, one table at a time. The server is no part of the
-- repository: it is a parameter, and `IsEngine` states the documented meaning of its statements.
-- Without ORDER BY the order of a result is left open, so the laws count rows by a test.
use shared_todos.Common.{
  ℕ, ◌+◌, ◌≡◌, Bool, true, not, ◌&&◌, ◌||◌, List, if◌then◌else◌, count, Sorted,
}

pub record Engine : Type 1 where
  pub Table : Type 0 → Type 0
  -- SELECT … WHERE p
  pub select : {Row : Type 0} → (Row → Bool) → Table Row → List Row
  -- SELECT … WHERE p ORDER BY, the order as a test of two rows
  pub select_ordered : {Row : Type 0} → (Row → Row → Bool) → (Row → Bool) → Table Row → List Row
  -- INSERT
  pub insert : {Row : Type 0} → Row → Table Row → Table Row
  -- UPDATE … SET f WHERE p
  pub update : {Row : Type 0} → (Row → Bool) → (Row → Row) → Table Row → Table Row
  -- DELETE … WHERE p
  pub delete : {Row : Type 0} → (Row → Bool) → Table Row → Table Row

-- how many rows of a table pass a test
abbrev pub tally : ⦃e : Engine⦄ {Row : Type 0} → (Row → Bool) → e.Table Row → ℕ
tally ⦃e⦄ q t = count q (e.select (λ _. true) t)

pub record IsEngine (e : Engine) : Type 1 where
  pub count-select :
      {Row : Type 0} (q p : Row → Bool) (t : e.Table Row)
      → count q (e.select p t) ≡ tally ⦃e = e⦄ (λ r. p r && q r) t
  pub count-select_ordered :
      {Row : Type 0} (q : Row → Bool) (le : Row → Row → Bool) (p : Row → Bool) (t : e.Table Row)
      → count q (e.select_ordered le p t) ≡ tally ⦃e = e⦄ (λ r. p r && q r) t
  pub select_ordered-Sorted :
      {Row : Type 0} (le : Row → Row → Bool) (p : Row → Bool) (t : e.Table Row)
      → ((a b : Row) → (le a b || le b a) ≡ true)
      → ((a b c : Row) → le a b ≡ true → le b c ≡ true → le a c ≡ true)
      → Sorted le (e.select_ordered le p t)
  pub tally-insert :
      {Row : Type 0} (q : Row → Bool) (r : Row) (t : e.Table Row)
      → tally ⦃e = e⦄ q (e.insert r t) ≡ (if q r then 1 else 0) + tally ⦃e = e⦄ q t
  pub tally-update :
      {Row : Type 0} (q p : Row → Bool) (f : Row → Row) (t : e.Table Row)
      → tally ⦃e = e⦄ q (e.update p f t) ≡ tally ⦃e = e⦄ (λ r. q (if p r then f r else r)) t
  pub tally-delete :
      {Row : Type 0} (q p : Row → Bool) (t : e.Table Row)
      → tally ⦃e = e⦄ q (e.delete p t) ≡ tally ⦃e = e⦄ (λ r. not (p r) && q r) t
