-- ===== src/Config/Production.antt =====
-- What the settings promise once they are loaded.
use shared_todos.Common.{
  char_code, nat_eq, String, ◌≡◌, refl, ◌≢◌, Bool, true, false, not, ◌||◌, ◌==◌, ◌≤◌, string_eq,
  str_length, starts_with, str_drop, starts_with-append, arith, Bool-cases, inl, inr, ap, ◌∙◌, List,
  [], ◌∷◌,
}
use shared_todos.Http.{Result, ok, err, value_error, ◌>>=◌, ◌>>◌, require}
use shared_todos.Config.{
  Settings, dev_secret_key, min_secret_key_len, sync_dialect, async_dialect, normalize_db_dialect,
  require_secure_secrets_in_production, refuse_if_any, errors_of, fields_accept, load,
}

-- no secret is the development's, or missing
pub record IsDeployable (s : Settings) : Type 0 where
  pub other_key : s.secret_key ≢ dev_secret_key
  pub long_key : min_secret_key_len ≤ str_length s.secret_key
  pub client_id : s.google_client_id ≢ ""
  pub client_secret : s.google_client_secret ≢ ""

-- do two texts differ before either ends?
abbrev clash : String → String → Bool
clash String.[] t = false
clash (String.◌∷◌ c s) String.[] = false
clash (String.◌∷◌ c s) (String.◌∷◌ d t) = not (char_code c == char_code d) || clash s t

not_both : (s t v : String) → clash s t ≡ true → starts_with s v ≡ true → starts_with t v ≡ false
not_both String.[] t v k h = absurd (ground arith)
not_both (String.◌∷◌ c s) String.[] v k h = absurd (ground arith)
not_both (String.◌∷◌ c s) (String.◌∷◌ d t) String.[] k h = refl
not_both (String.◌∷◌ c s) (String.◌∷◌ d t) (String.◌∷◌ x v) k h = ground (arith, not_both s t v)

clashing : clash async_dialect sync_dialect ≡ true
unfolding nat_eq
clashing = refl

one_dialect : (v : String) → starts_with async_dialect v ≡ true → starts_with sync_dialect v ≡ false
one_dialect v h = not_both async_dialect sync_dialect v clashing h

normalize-async : (w : String) → starts_with async_dialect w ≡ true → normalize_db_dialect w ≡ ok w
unfolding normalize_db_dialect
normalize-async w h = rw (one_dialect w h) (rw h refl)

names_async : (v w : String) → normalize_db_dialect v ≡ ok w → starts_with async_dialect w ≡ true
unfolding normalize_db_dialect
names_async v w h = elim (Bool-cases (starts_with sync_dialect v)) [
  | inl sync ↦
      ground (arith, sync, starts_with-append async_dialect (str_drop (str_length sync_dialect) v))
  | inr other ↦ ground (arith, other)
]

-- Settings with secure cookies are accepted exactly if their secrets are secure, and others always;
-- what is accepted is not changed.
pub require_secure_secrets_in_production-IsDeployable :
    (s : Settings)
    → (s.cookie_secure ≡ false → require_secure_secrets_in_production s ≡ ok s)
      × (s.cookie_secure ≡ true → IsDeployable s → require_secure_secrets_in_production s ≡ ok s)
      × (s.cookie_secure ≡ true
          → (t : Settings) → require_secure_secrets_in_production s ≡ ok t
          → IsDeployable s)
unfolding require_secure_secrets_in_production
require_secure_secrets_in_production-IsDeployable s = (
  λ insecure. ground arith,
  λ secure safe. ground (arith, safe.other_key, safe.long_key, safe.client_id, safe.client_secret),
  λ secure t accepted. record {
    other_key = λ h. ground arith;
    long_key = ground arith;
    client_id = λ h. ground arith;
    client_secret = λ h. ground arith;
  },
)

-- The address of the database that is loaded names the asynchronous driver, and is loaded again as
-- it is.
pub normalize_db_dialect-again :
    (v w : String)
    → normalize_db_dialect v ≡ ok w
    → (starts_with async_dialect w ≡ true) × (normalize_db_dialect w ≡ ok w)
normalize_db_dialect-again v w h = let named = names_async v w h in (named, normalize-async w named)

refuse_if_any-unchanged :
    (s t : Settings) (errors : List String) → refuse_if_any s errors ≡ ok t → s ≡ t
unfolding refuse_if_any
refuse_if_any-unchanged s t [] h = ground (arith, h)
refuse_if_any-unchanged s t (x ∷ xs) h = cc

unchanged : (s t : Settings) → require_secure_secrets_in_production s ≡ ok t → s ≡ t
unfolding require_secure_secrets_in_production
unchanged s t h = ground (arith, h, refuse_if_any-unchanged s t (errors_of s))

-- Settings that load have the URL in the dialect of the application.
pub load-normalize_db_dialect :
    (raw settings : Settings)
    → load raw ≡ ok settings
    → normalize_db_dialect raw.database_url ≡ ok settings.database_url
unfolding load
load-normalize_db_dialect raw settings h =
    by_url (fields_accept raw) (normalize_db_dialect raw.database_url) refl h
  where
    by_url :
        (b : Bool) (r : Result String)
        → normalize_db_dialect raw.database_url ≡ r
        → (require b (value_error "validation error")
            >> (r >>= λ url.
                require_secure_secrets_in_production (record raw { database_url = url })))
          ≡ ok settings
        → normalize_db_dialect raw.database_url ≡ ok settings.database_url
    by_url false r k h = cc
    by_url true (err x) k h = cc
    by_url true (ok url) k h =
        k
        ∙ ap (λ (s : Settings). ok s.database_url)
            (unchanged (record raw { database_url = url }) settings h)
