-- ===== src/Http.antt =====
-- What a request handler may raise, and chains of fallible steps.
use shared_todos.Common.{ℕ, String, ◌≡◌, refl, Bool, true, false}

-- `http` is FastAPI's HTTPException. The others reach the client as a 500: Python's ValueError,
-- SQLAlchemy's NoResultFound and MultipleResultsFound, the driver's integrity errors by kind, and
-- its error on a value that does not fit its column, SQLAlchemy's StaleDataError, Python's TypeError, and argon2's error on a
-- text that is no hash.
pub data Error : Type 0 where
  http : ℕ → String → Error
  -- a 429, with its `Retry-After` header in seconds
  too_many_requests : String → ℕ → Error
  value_error : String → Error
  no_result_found multiple_results_found : Error
  unique_violation foreign_key_violation check_violation : Error
  data_error : Error
  stale_data : Error
  type_error : Error
  hash_error : Error

pub data Result {ℓ} (A : Type ℓ) : Type ℓ where
  ok : A → Result A
  err : Error → Result A

-- the status code that the client sees
abbrev pub error_status : Error → ℕ
error_status (http status detail) = status
error_status (too_many_requests detail retry_after) = 429
error_status _ = 500

infixl 5 ◌>>=◌ ◌>>◌
abbrev pub ◌>>=◌ {ℓ κ} : {A : Type ℓ} {B : Type κ} → Result A → (A → Result B) → Result B
ok a >>= f = f a
err e >>= f = err e

abbrev pub ◌>>◌ {ℓ κ} : {A : Type ℓ} {B : Type κ} → Result A → Result B → Result B
m >> k = m >>= λ _. k

-- `if not condition: raise error`
abbrev pub require : Bool → Error → Result (Unit {0})
require true e = ok tt
require false e = err e

-- what holds of a result, if there is one
abbrev pub Ensures {ℓ κ} : {A : Type ℓ} → (A → Type κ) → Result A → Type κ
Ensures P (ok a) = P a
Ensures P (err e) = Unit

pub Ensures-require {ℓ κ} :
    {A : Type ℓ} (P : A → Type κ) (b : Bool) (e : Error) (r : Result A)
    → (b ≡ true → Ensures P r)
    → Ensures P (require b e >> r)
Ensures-require P true e r h = h refl
Ensures-require P false e r h = tt

pub Ensures-bind {ℓ κ} :
    {A : Type ℓ} {B : Type ℓ} (P : A → Type κ) (Q : B → Type κ) (r : Result A) (f : A → Result B)
    → Ensures P r
    → ((a : A) → P a → Ensures Q (f a))
    → Ensures Q (r >>= f)
Ensures-bind P Q (ok a) f h k = k a h
Ensures-bind P Q (err e) f h k = tt

-- a result put in an answer
abbrev pub answered {ℓ κ} : {A : Type ℓ} {B : Type κ} → (A → B) → Result A → Result B
answered f (ok a) = ok (f a)
answered f (err e) = err e
