-- ===== src/Config/Tests.antt =====
-- Settings of development and of production.
use shared_todos.Common.{◌≡◌, refl, true, false, string_eq, nat_eq}
use shared_todos.Http.{ok}
use shared_todos.Config.{
  Settings, normalize_db_dialect, require_secure_secrets_in_production, load, fields_accept,
}
use shared_todos.Config.Production.{IsDeployable, require_secure_secrets_in_production-IsDeployable}

abbrev production : Settings
production = record {
  database_url = "postgresql+psycopg://db";
  smtp_host = "mail";
  smtp_port = 25;
  secret_key = "0123456789abcdef0123456789abcdef";
  session_ttl_days = 7;
  rate_limit_login_attempts = 10;
  rate_limit_login_window_seconds = 900;
  google_client_id = "id";
  google_client_secret = "secret";
  google_redirect_uri = "https://todos.example.org/callback";
  frontend_url = "https://todos.example.org";
  cookie_secure = true;
  trust_proxy = true;
}

load_test :
    load production ≡ ok (record production { database_url = "postgresql+psycopg_async://db" })
unfolding load fields_accept normalize_db_dialect require_secure_secrets_in_production string_eq
    nat_eq
load_test = refl

require_secure_secrets_in_production-IsDeployable_example :
    (production.cookie_secure ≡ false
      → require_secure_secrets_in_production production ≡ ok production)
    × (production.cookie_secure ≡ true
        → IsDeployable production
        → require_secure_secrets_in_production production ≡ ok production)
    × (production.cookie_secure ≡ true
        → (t : Settings) → require_secure_secrets_in_production production ≡ ok t
        → IsDeployable production)
require_secure_secrets_in_production-IsDeployable_example =
    require_secure_secrets_in_production-IsDeployable production
