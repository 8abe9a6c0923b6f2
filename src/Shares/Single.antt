-- ===== src/Shares/Single.antt =====
-- A commit that refuses an integrity error does not end in MultipleResultsFound.
use shared_todos.Common.{◌≡◌, refl, false}
use shared_todos.Http.{Error, Result, ok, err, unique_violation, foreign_key_violation}
use shared_todos.Db.{Engine, Db, Session, commit}
use shared_todos.Db.Keeps.{IsStable}
use shared_todos.Db.Single.{Single, Single-commit, ambiguous}
use shared_todos.Shares.{on_integrity_error, caught, commit_or_refuse}

module _ ⦃e : Engine⦄ where
  ambiguous-on_integrity_error :
      (A : Type 0) (x : Error)
      → ambiguous {A = A} (err x) ≡ false
      → ambiguous {A = A} (err (on_integrity_error x)) ≡ false
  unfolding on_integrity_error
  ambiguous-on_integrity_error A unique_violation h = refl
  ambiguous-on_integrity_error A foreign_key_violation h = refl
  ambiguous-on_integrity_error A _ h = h

  ambiguous-caught :
      {A : Type 0} (r : Result A × Session e)
      → ambiguous r.0 ≡ false
      → ambiguous (caught r).0 ≡ false
  unfolding caught
  ambiguous-caught (ok a, s) h = refl
  ambiguous-caught {A} (err x, s) h = ambiguous-on_integrity_error A x h

module _ ⦃e : Engine⦄ (P : Db e → Type 0) (stable : IsStable P) where
  pub Single-commit_or_refuse : Single P commit_or_refuse
  unfolding commit_or_refuse
  Single-commit_or_refuse = record {
    at = λ s h. ambiguous-caught (commit s) ((Single-commit P stable).at s h);
  }
