-- ===== src/Common/Lists.antt =====
-- Lists: lengths, tests of all elements, and counting by a test.
use Prim.Native.Nat.{ℕ, suc, ◌+◌, ◌≤◌}
use mathlib.Core.Path.{◌≡◌, refl}
use mathlib.Core.Bool.{Bool, true, false, not, ◌&&◌}
use mathlib.Core.Logic.{◌≢◌}
use mathlib.Core.List.{List, [], ◌∷◌, ◌++◌}
use native.Mathlib.Omega.{arith}
use mathlib.Core.Option.{Option, none, some}
use shared_todos.Common.Equality.{if◌then◌else◌}

module _ {ℓ} {A : Type ℓ} where
  abbrev pub length : List A → ℕ
  length [] = 0
  length (x ∷ xs) = suc (length xs)

  -- `[x for x in xs if p(x)]`
  abbrev pub keep : (A → Bool) → List A → List A
  keep p [] = []
  keep p (x ∷ xs) = let rest = keep p xs in if p x then x ∷ rest else rest

  abbrev pub count : (A → Bool) → List A → ℕ
  count p [] = 0
  count p (x ∷ xs) = (if p x then 1 else 0) + count p xs

  abbrev pub All {κ} : (A → Type κ) → List A → Type κ
  All P [] = Unit
  All P (x ∷ xs) = P x × All P xs

  -- each element is in order with all that follow
  abbrev pub Sorted : (A → A → Bool) → List A → Type 0
  Sorted le [] = Unit
  Sorted le (x ∷ xs) = All (λ y. le x y ≡ true) xs × Sorted le xs

  -- `not xs`
  abbrev pub is_empty : List A → Bool
  is_empty [] = true
  is_empty (x ∷ xs) = false

  -- `x is not None`
  abbrev pub is_some : Option A → Bool
  is_some none = false
  is_some (some x) = true

  -- `default if x is None else x`
  abbrev pub get_or : A → Option A → A
  get_or d none = d
  get_or d (some x) = x

pub and_true : (b : Bool) → (b && true) ≡ b
and_true true = refl
and_true false = refl

pub and_left : (a b : Bool) → (a && b) ≡ true → a ≡ true
and_left true b h = refl
and_left false b h = h

pub and_self : (b : Bool) → (b && b) ≡ b
and_self true = refl
and_self false = refl

module _ {ℓ} {A : Type ℓ} where
  pub count-ext : (p q : A → Bool) (xs : List A) → ((x : A) → p x ≡ q x) → count p xs ≡ count q xs
  count-ext p q [] h = refl
  count-ext p q (x ∷ xs) h = rw (h x, count-ext p q xs h)

  pub count-false : (xs : List A) → count (λ _. false) xs ≡ 0
  count-false [] = refl
  count-false (x ∷ xs) = omega (arith, count-false xs)

  pub count_mono :
      (p q : A → Bool) (xs : List A) → ((x : A) → p x ≡ true → q x ≡ true) → count p xs ≤ count q xs
  count_mono p q [] h = omega arith
  count_mono p q (x ∷ xs) h = ground (arith, h x, count_mono p q xs h)

  pub count-append : (p : A → Bool) (xs ys : List A) → count p (xs ++ ys) ≡ count p xs + count p ys
  count-append p [] ys = omega arith
  count-append p (x ∷ xs) ys = omega (arith, count-append p xs ys)

  pub count-keep : (p q : A → Bool) (xs : List A) → count q (keep p xs) ≡ count (λ x. p x && q x) xs
  count-keep p q [] = refl
  count-keep p q (x ∷ xs) = ground (arith, count-keep p q xs)

  -- two tests that exclude one another, inside a third
  pub count_disjoint :
      (p q r : A → Bool) (xs : List A)
      → ((x : A) → p x ≡ true → (q x ≡ false) × (r x ≡ true))
      → ((x : A) → q x ≡ true → r x ≡ true)
      → count p xs + count q xs ≤ count r xs
  count_disjoint p q r [] h k = omega arith
  count_disjoint p q r (x ∷ xs) h k = ground (arith, h x, k x, count_disjoint p q r xs h k)

  pub count-is_empty : (xs : List A) → is_empty xs ≡ true → count (λ _. true) xs ≡ 0
  count-is_empty [] h = refl
  count-is_empty (x ∷ xs) h = cc

  pub count-not-is_empty : (xs : List A) → not (is_empty xs) ≡ true → count (λ _. true) xs ≢ 0
  count-not-is_empty [] h = cc
  count-not-is_empty (x ∷ xs) h = omega arith

  pub is_empty-of_count : (xs : List A) → count (λ _. true) xs ≢ 0 → not (is_empty xs) ≡ true
  is_empty-of_count [] h = absurd (h refl)
  is_empty-of_count (x ∷ xs) h = refl

  pub keep-append : (p : A → Bool) (xs ys : List A) → keep p (xs ++ ys) ≡ keep p xs ++ keep p ys
  keep-append p [] ys = refl
  keep-append p (x ∷ xs) ys = ground (arith, keep-append p xs ys)

-- a count split by another test
pub count_split {ℓ} :
    {A : Type ℓ} (q p : A → Bool) (xs : List A)
    → count p xs ≡ count (λ x. q x && p x) xs + count (λ x. not (q x) && p x) xs
count_split q p [] = refl
count_split q p (x ∷ xs) = ground (arith, count_split q p xs)
