-- ===== src/Auth/Secrets.antt =====
-- app/auth/tokens.py and app/auth/password.py over SHA-256 and argon2, which are parameters.
pub mod Matching
use shared_todos.Common.{String, Bool, true, false}
use shared_todos.Http.{Result, ok, err, hash_error}
use shared_todos.Auth.Csrf.{compare_digest}

-- what argon2's `verify` does: it returns True, raises VerifyMismatchError, or raises otherwise
pub data Verification : Type 0 where
  verified mismatch broken : Verification

pub record Crypto : Type 0 where
  -- `hashlib.sha256(text.encode()).hexdigest()`
  pub sha256 : String → String
  -- `_ph.hash`, which salts by chance: a salt and a password
  pub argon_hash : String → String → String
  -- `_ph.verify`, of a hash and a password
  pub argon_verify : String → String → Verification
  -- `_DUMMY_HASH`
  pub dummy_hash : String

abbrev pub hash_token : Crypto → String → String
hash_token c token = c.sha256 token

-- `hmac.compare_digest`, which `secrets` passes on
unfoldable pub verify_token_hash : Crypto → String → String → Result Bool
verify_token_hash c token stored_hash = compare_digest (hash_token c token) stored_hash

abbrev pub make_dummy_hash : Crypto → String
make_dummy_hash c = c.dummy_hash

abbrev pub hash_password : Crypto → String → String → String
hash_password c salt plaintext = c.argon_hash salt plaintext

outcome : Verification → Result Bool
outcome verified = ok true
outcome mismatch = ok false
outcome broken = err hash_error

unfoldable pub verify_password : Crypto → String → String → Result Bool
unfolding outcome
verify_password c plaintext hashed = outcome (c.argon_verify hashed plaintext)
