-- ===== src/Auth/Sample.antt =====
-- A hash, and settings, for the examples.
use shared_todos.Common.{false, ◌==◌, string_eq, if◌then◌else◌}
use shared_todos.Config.{Settings}
use shared_todos.Auth.Secrets.{Crypto, verified, mismatch}

-- a hash that keeps the text, and a password check that compares
abbrev pub plain : Crypto
plain = record {
  sha256 = λ text. text;
  argon_hash = λ salt password. password;
  argon_verify = λ hashed password. if hashed == password then verified else mismatch;
  dummy_hash = "";
}

abbrev pub settings : Settings
settings = record {
  session_ttl_days = 7;
  rate_limit_login_attempts = 2;
  rate_limit_login_window_seconds = 60;
  trust_proxy = false;
  database_url = "postgresql+psycopg://db";
  smtp_host = "localhost";
  smtp_port = 1025;
  secret_key = "k";
  google_client_id = "id";
  google_client_secret = "secret";
  google_redirect_uri = "http://localhost:8000";
  frontend_url = "http://localhost:3000";
  cookie_secure = false;
}
