-- ===== src/Config.antt =====
-- app/config.py: the settings and their validation at start. The environment has been read: a
-- field that it leaves out has the source's default.
pub mod Production
mod Tests
use shared_todos.Common.{
  ℕ, String, Bool, true, false, not, ◌&&◌, ◌||◌, List, [], ◌∷◌, ◌++◌, ◌==◌, string_eq, nat_eq, ltb,
  leb, str_length, str_append, starts_with, str_drop, if◌then◌else◌,
}
use shared_todos.Http.{Result, ok, err, value_error, ◌>>=◌, ◌>>◌, require}

pub record Settings : Type 0 where
  pub database_url : String
  pub smtp_host : String
  pub smtp_port : ℕ
  pub secret_key : String
  pub session_ttl_days : ℕ
  pub rate_limit_login_attempts : ℕ
  pub rate_limit_login_window_seconds : ℕ
  pub google_client_id : String
  pub google_client_secret : String
  pub google_redirect_uri : String
  pub frontend_url : String
  pub cookie_secure : Bool
  pub trust_proxy : Bool

abbrev pub dev_secret_key : String
dev_secret_key = "dev-secret-key-change-in-production"

abbrev pub min_secret_key_len : ℕ
min_secret_key_len = 32

-- the bounds of the fields: `ge` and `le`
unfoldable pub fields_accept : Settings → Bool
fields_accept s =
    leb 1 s.smtp_port
    && (leb s.smtp_port 65535
        && (leb 1 s.session_ttl_days
            && (leb s.session_ttl_days 365
                && (leb 1 s.rate_limit_login_attempts && leb 1 s.rate_limit_login_window_seconds))))

abbrev pub sync_dialect : String
sync_dialect = "postgresql+psycopg://"

abbrev pub async_dialect : String
async_dialect = "postgresql+psycopg_async://"

-- The error's message goes on with the text that was refused.
unfoldable pub normalize_db_dialect : String → Result String
normalize_db_dialect v =
    if starts_with sync_dialect v
    then ok (str_append async_dialect (str_drop (str_length sync_dialect) v))
    else if starts_with async_dialect v
    then ok v
    else err
        (value_error "DATABASE_URL must use postgresql+psycopg:// or postgresql+psycopg_async://")

-- `if condition: errors.append(message)`
complaint : Bool → String → List String
complaint b message = if b then message ∷ [] else []

-- `"; ".join(errors)`
abbrev join_errors : List String → String
join_errors [] = ""
join_errors (x ∷ []) = x
join_errors (x ∷ y ∷ xs) = str_append x (str_append "; " (join_errors (y ∷ xs)))

unfoldable pub errors_of : Settings → List String
unfolding complaint
errors_of s =
    complaint (s.secret_key == dev_secret_key || ltb (str_length s.secret_key) min_secret_key_len)
      "secret_key must be a random string of at least 32 characters when cookie_secure=True (production); got the dev default or a value that is too short"
    ++ complaint (s.google_client_id == "")
        "google_client_id must be set when cookie_secure=True (production)"
    ++ complaint (s.google_client_secret == "")
        "google_client_secret must be set when cookie_secure=True (production)"

refuse_if_any : Settings → List String → Result Settings
refuse_if_any s [] = ok s
refuse_if_any s (x ∷ xs) = err (value_error (join_errors (x ∷ xs)))

unfoldable pub require_secure_secrets_in_production : Settings → Result Settings
unfolding refuse_if_any errors_of
require_secure_secrets_in_production s =
    if not s.cookie_secure then ok s else refuse_if_any s (errors_of s)

-- `Settings()`: the fields in turn, then the whole
unfoldable pub load : Settings → Result Settings
load s = do
  require (fields_accept s) (value_error "validation error")
  url ← normalize_db_dialect s.database_url
  require_secure_secrets_in_production (record s { database_url = url })
