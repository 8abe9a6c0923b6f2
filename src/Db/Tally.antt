-- ===== src/Db/Tally.antt =====
-- What the counts of a table say of a query's result, for any engine that keeps its laws.
use shared_todos.Common.{
  ◌≤◌, ◌≡◌, refl, sym, ap, ◌∙◌, inl, inr, Bool, true, false, ◌&&◌, List, [], ◌∷◌, if◌then◌else◌,
  count, count-ext, count-false, and_true, and_self, Bool-cases, count_mono, arith,
}
use shared_todos.Db.Server.{Engine, IsEngine, tally}

module _ ⦃e : Engine⦄ where
  pub tally-ext :
      {Row : Type 0} (p q : Row → Bool) (t : e.Table Row)
      → ((r : Row) → p r ≡ q r)
      → tally p t ≡ tally q t
  tally-ext p q t h = count-ext p q _ h

  pub tally_none :
      {Row : Type 0} (p : Row → Bool) (t : e.Table Row) → ((r : Row) → p r ≡ false) → tally p t ≡ 0
  tally_none p t h = tally-ext p (λ _. false) t h ∙ count-false _

  pub tally_mono :
      {Row : Type 0} (p q : Row → Bool) (t : e.Table Row)
      → ((r : Row) → p r ≡ true → q r ≡ true)
      → tally p t ≤ tally q t
  tally_mono p q t h = count_mono p q _ h

module _ {A : Type 0} where
  empty_of_count : (xs : List A) → count (λ _. true) xs ≡ 0 → xs ≡ []
  empty_of_count [] h = refl
  empty_of_count (x ∷ xs) h = absurd (omega arith)

  single_of_count : (xs : List A) → count (λ _. true) xs ≡ 1 → (x : A) × (xs ≡ x ∷ [])
  single_of_count [] h = absurd (omega arith)
  single_of_count (x ∷ xs) h = (x, ap (λ ys. x ∷ ys) (empty_of_count xs (omega arith)))

module _ ⦃e : Engine⦄ (laws : IsEngine e) {Row : Type 0} (p : Row → Bool) (t : e.Table Row) where
  pub length-select : count (λ _. true) (e.select p t) ≡ tally p t
  length-select = laws.count-select (λ _. true) p t ∙ tally-ext _ p t (λ r. and_true (p r))

  pub select-empty : tally p t ≡ 0 → e.select p t ≡ []
  select-empty h = empty_of_count _ (length-select ∙ h)

  pub within :
      {r : Row} (q : Row → Bool)
      → e.select p t ≡ r ∷ []
      → tally (λ s. p s && q s) t ≡ (if q r then 1 else 0)
  within {r} q found = sym (laws.count-select q p t) ∙ ap (count q) found ∙ omega arith

  pub passes : {r : Row} → e.select p t ≡ r ∷ [] → tally p t ≡ 1 → p r ≡ true
  passes {r} found h = elim (Bool-cases (p r)) [
    | inl yes_ ↦ yes_
    | inr fails ↦
        absurd (ground (arith, within p found, tally-ext _ p t (λ s. and_self (p s)), fails))
  ]

  -- The one row that a query finds: it passes the test, and so do all the counts within the test.
  pub select-single :
      tally p t ≡ 1
      → (r : Row) × (e.select p t ≡ r ∷ [])
        × (p r ≡ true)
        × ((q : Row → Bool) → tally (λ s. p s && q s) t ≡ (if q r then 1 else 0))
  select-single h =
      let (r, found) = single_of_count _ (length-select ∙ h) in
      (r, found, passes found h, λ q. within q found)
