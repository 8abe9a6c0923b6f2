-- ===== src/Auth/Secrets/Matching.antt =====
-- Which token and which password match what is stored.
use shared_todos.Common.{
  String, ◌≡◌, refl, ◌≢◌, true, ◌==◌, string_eq, is_ascii, false, refl, Bool-cases, inl, inr, arith,
  eq_of_==, ==_refl,
}
use shared_todos.Http.{ok}
use shared_todos.Db.Single.{ambiguous}
use shared_todos.Auth.Csrf.{compare_digest}
use shared_todos.Auth.Secrets.{
  Crypto, Verification, verified, mismatch, broken, outcome, hash_token, verify_token_hash,
  hash_password, verify_password,
}

-- Whatever argon2 does, matching ends in no error of the database.
pub ambiguous-verify_password :
    (c : Crypto) (plaintext hashed : String)
    → ambiguous (verify_password c plaintext hashed) ≡ false
unfolding verify_password
ambiguous-verify_password c plaintext hashed = by_outcome (c.argon_verify hashed plaintext)
  where
    by_outcome : (v : Verification) → ambiguous (outcome v) ≡ false
    by_outcome verified = refl
    by_outcome mismatch = refl
    by_outcome broken = refl

-- what the two libraries document
pub record IsCrypto (c : Crypto) : Type 0 where
  -- a digest is hexadecimal
  pub ascii : (text : String) → is_ascii (c.sha256 text) ≡ true
  -- a hash verifies with its password, and with no other
  pub verifies :
      (salt password : String) → c.argon_verify (c.argon_hash salt password) password ≡ verified
  pub refuses :
      (salt password other : String)
      → other ≢ password
      → c.argon_verify (c.argon_hash salt password) other ≡ mismatch

module _ (c : Crypto) (documented : IsCrypto c) where
  -- A stored password verifies with the password that was hashed, whatever the salt, and with no
  -- other; a token is matched with a stored hash exactly if its own hash is that one.
  pub verify_password-hash_password :
      (salt password other token stored : String)
      → (verify_password c other (hash_password c salt password) ≡ ok (other == password))
        × (verify_token_hash c token (hash_token c stored)
            ≡ ok (hash_token c token == hash_token c stored))
  unfolding verify_password verify_token_hash compare_digest
  verify_password-hash_password salt password other token stored = (
    elim (Bool-cases (other == password)) [
      | inl same ↦
          rw same (rw (eq_of_== other password same) (rw (documented.verifies salt password) refl))
      | inr differ ↦ rw differ (
          rw
            (documented.refuses salt password other
              (λ same. ground (arith, same, differ, ==_refl password)))
            refl)
    ],
    ground (arith, documented.ascii token, documented.ascii stored),
  )
