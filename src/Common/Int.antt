-- ===== src/Common/Int.antt =====
-- Python's integers, as far as the program uses them: an order and two bounds.
use Prim.Native.Nat.{ℕ, ◌^◌}
use mathlib.Core.Bool.{Bool, true, false, ◌||◌}
use mathlib.Core.Path.{◌≡◌, refl}
use native.Mathlib.Omega.{arith}
use shared_todos.Common.Equality.{ltb, leb, Eq}
use native.Mathlib.Decide.{ℕ_discrete}

-- `negsuc n` is -(n + 1).
pub data ℤ : Type 0 where
  pos : ℕ → ℤ
  negsuc : ℕ → ℤ

abbrev pub leb_ℤ : ℤ → ℤ → Bool
leb_ℤ (pos a) (pos b) = leb a b
leb_ℤ (pos a) (negsuc b) = false
leb_ℤ (negsuc a) (pos b) = true
leb_ℤ (negsuc a) (negsuc b) = leb b a

-- the range of a 32-bit INTEGER column
abbrev pub fits_int32 : ℤ → Bool
fits_int32 (pos a) = ltb a (2 ^ 31)
fits_int32 (negsuc a) = ltb a (2 ^ 31)

ℤ_discrete : Discrete ℤ
ℤ_discrete = hlevel ℕ_discrete

instance unfoldable pub int_eq : Eq ℤ
unfolding ℤ_discrete
int_eq = record { dec = ℤ_discrete }

pub leb_ℤ-total : (a b : ℤ) → (leb_ℤ a b || leb_ℤ b a) ≡ true
leb_ℤ-total (pos a) (pos b) = ground arith
leb_ℤ-total (pos a) (negsuc b) = refl
leb_ℤ-total (negsuc a) (pos b) = refl
leb_ℤ-total (negsuc a) (negsuc b) = ground arith

pub leb_ℤ-trans : (a b c : ℤ) → leb_ℤ a b ≡ true → leb_ℤ b c ≡ true → leb_ℤ a c ≡ true
leb_ℤ-trans (pos a) (pos b) (pos c) h k = ground arith
leb_ℤ-trans (negsuc a) (negsuc b) (negsuc c) h k = ground arith
leb_ℤ-trans (negsuc a) b (pos c) h k = refl
leb_ℤ-trans a b c h k = ground arith
