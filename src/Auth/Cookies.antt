-- ===== src/Auth/Cookies.antt =====
-- app/auth/cookies.py and the cookies of the other answers, with the browser that keeps them: a
-- cookie replaces the one of its name, and a deletion removes it.
use shared_todos.Common.{
  ℕ, ◌*◌, String, Bool, true, false, Option, none, some, List, [], ◌∷◌, ◌==◌, string_eq,
  if◌then◌else◌,
}
use shared_todos.Config.{Settings}

pub record Cookie : Type 0 where
  pub key : String
  -- no value is a deletion
  pub value : Option String
  pub httponly : Bool
  pub samesite : String
  pub max_age : ℕ
  pub secure : Bool

abbrev pub session_cookie_name : String
session_cookie_name = "session"

abbrev pub csrf_cookie_name : String
csrf_cookie_name = "csrf_token"

abbrev pub nonce_cookie_name : String
nonce_cookie_name = "oauth_state_nonce"

-- `_NONCE_TTL`
abbrev pub nonce_ttl : ℕ
nonce_ttl = 600

-- the CSRF token is drawn
unfoldable pub set_auth_cookies : Settings → String → String → List Cookie
set_auth_cookies settings session_token csrf_token =
    record {
      key = session_cookie_name;
      value = some session_token;
      httponly = true;
      samesite = "lax";
      max_age = settings.session_ttl_days * 86400;
      secure = settings.cookie_secure;
    }
    ∷ record {
      key = csrf_cookie_name;
      value = some csrf_token;
      httponly = false;
      samesite = "lax";
      max_age = settings.session_ttl_days * 86400;
      secure = settings.cookie_secure;
    }
    ∷ []

-- the cookie of `oauth_google_initiate`
unfoldable pub nonce_cookie : Settings → String → Cookie
nonce_cookie settings nonce = record {
  key = nonce_cookie_name;
  value = some nonce;
  httponly = true;
  samesite = "lax";
  max_age = nonce_ttl;
  secure = settings.cookie_secure;
}

-- `response.delete_cookie`
unfoldable pub delete_cookie : String → Cookie
delete_cookie key = record {
  key = key;
  value = none;
  httponly = false;
  samesite = "lax";
  max_age = 0;
  secure = false;
}

-- what a browser sends
abbrev pub Jar : Type 0
Jar = String → Option String

unfoldable pub keep_cookies : List Cookie → Jar → Jar
keep_cookies [] jar = jar
keep_cookies (cookie ∷ cookies) jar =
    keep_cookies cookies (λ key. if key == cookie.key then cookie.value else jar key)
