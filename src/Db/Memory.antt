-- ===== src/Db/Memory.antt =====
-- A database in memory, for the examples: the laws of `Engine` can be met.
use shared_todos.Common.{
  ◌≡◌, refl, sym, ap, ◌∙◌, Bool, true, not, ◌&&◌, ◌||◌, List, [], ◌∷◌, ◌++◌, map, if◌then◌else◌,
  arith, keep, count, count-keep, count-append, Sorted, All, Bool-cases, inl, inr,
}
use shared_todos.Db.Server.{Engine, IsEngine}

module _ {A : Type 0} where
  abbrev place : (A → A → Bool) → A → List A → List A
  place le x [] = x ∷ []
  place le x (y ∷ ys) = let rest = place le x ys in if le x y then x ∷ y ∷ ys else y ∷ rest

  abbrev sort : (A → A → Bool) → List A → List A
  sort le [] = []
  sort le (x ∷ xs) = place le x (sort le xs)

  count-place :
      (q : A → Bool) (le : A → A → Bool) (x : A) (ys : List A)
      → count q (place le x ys) ≡ count q (x ∷ ys)
  count-place q le x [] = refl
  count-place q le x (y ∷ ys) = ground (arith, count-place q le x ys)

  count-sort : (q : A → Bool) (le : A → A → Bool) (xs : List A) → count q (sort le xs) ≡ count q xs
  count-sort q le [] = refl
  count-sort q le (x ∷ xs) = count-place q le x (sort le xs) ∙ omega (arith, count-sort q le xs)

  module _ (le : A → A → Bool) (total : (a b : A) → (le a b || le b a) ≡ true)
      (trans : (a b c : A) → le a b ≡ true → le b c ≡ true → le a c ≡ true) where
    All-trans :
        (x y : A) (ys : List A)
        → le x y ≡ true
        → All (λ z. le y z ≡ true) ys
        → All (λ z. le x z ≡ true) ys
    All-trans x y [] h k = tt
    All-trans x y (z ∷ zs) h (k, ks) = (trans x y z h k, All-trans x y zs h ks)

    All-place :
        (b x : A) (ys : List A)
        → le b x ≡ true
        → All (λ z. le b z ≡ true) ys
        → All (λ z. le b z ≡ true) (place le x ys)
    All-place b x [] h k = (h, tt)
    All-place b x (y ∷ ys) h (k, ks) = ground (arith, h, k, ks, All-place b x ys h ks)

    place-Sorted : (x : A) (ys : List A) → Sorted le ys → Sorted le (place le x ys)
    place-Sorted x [] s = (tt, tt)
    place-Sorted x (y ∷ ys) (first, rest) = elim (Bool-cases (le x y)) [
      | inl below ↦ rw below ((below, All-trans x y ys below first), (first, rest))
      | inr above ↦
          rw above (All-place y x ys (ground (arith, total x y)) first, place-Sorted x ys rest)
    ]

    sort-Sorted : (xs : List A) → Sorted le (sort le xs)
    sort-Sorted [] = tt
    sort-Sorted (x ∷ xs) = place-Sorted x (sort le xs) (sort-Sorted xs)

  abbrev change : (A → Bool) → (A → A) → List A → List A
  change p f = map (λ r. if p r then f r else r)

  count-map :
      (q : A → Bool) (f : A → A) (xs : List A) → count q (map f xs) ≡ count (λ x. q (f x)) xs
  count-map q f [] = refl
  count-map q f (x ∷ xs) = omega (arith, count-map q f xs)

  keep-all : (xs : List A) → keep (λ _. true) xs ≡ xs
  keep-all [] = refl
  keep-all (x ∷ xs) = ap (λ ys. x ∷ ys) (keep-all xs)

instance abbrev pub memory : Engine
memory = record {
  Table = List;
  select = keep;
  select_ordered = λ le p t. sort le (keep p t);
  insert = λ r t. t ++ r ∷ [];
  update = change;
  delete = λ p t. keep (λ r. not (p r)) t;
}

pub memory-IsEngine : IsEngine memory
memory-IsEngine = record {
  count-select = λ q p t. count-keep p q t ∙ ap (count (λ r. p r && q r)) (sym (keep-all t));
  count-select_ordered = λ q le p t.
      count-sort q le (keep p t)
      ∙ count-keep p q t
      ∙ ap (count (λ r. p r && q r)) (sym (keep-all t));
  select_ordered-Sorted = λ le p t total trans. sort-Sorted le total trans (keep p t);
  tally-insert = λ q r t. rw keep-all (rw keep-all (count-append q t (r ∷ []) ∙ omega arith));
  tally-update = λ q p f t. rw keep-all (rw keep-all (count-map q _ t));
  tally-delete = λ q p t. rw keep-all (rw keep-all (count-keep (λ r. not (p r)) q t));
}
