-- ===== src/App.antt =====
-- app/main.py: the routes of the application, their requests and their answers.
pub mod Service
pub mod Keeps
pub mod Single
pub mod Gate
pub mod Browser
pub mod Leaving
pub mod Reachable
mod Tests
use shared_todos.Lists.{ListOut}
use shared_todos.Common.{
  ℕ, String, Bool, true, false, not, Option, none, some, List, [], ◌∷◌, ◌==◌, str_append,
  if◌then◌else◌,
}
use shared_todos.Http.{Result, ok, err, http}
use shared_todos.Db.{
  Engine, User, ListRow, Db, Session, Tx, Write, ◌>>=◌, ◌>>◌, pure, raise, lift, raise_if, run,
}
use shared_todos.Config.{Settings}
use shared_todos.Auth.RateLimiter
use shared_todos.Auth.Csrf
use shared_todos.Auth.Csrf.{Verdict, call_next, token_missing, token_mismatch}
use shared_todos.Auth.Cookies.{
  Cookie, session_cookie_name, set_auth_cookies, nonce_cookie, delete_cookie,
}
use shared_todos.Auth.Secrets.{Crypto}
use shared_todos.Auth.Sessions.{require_auth}
use shared_todos.Auth.Login.{
  LoginRequest, LoginDraw, UserOut, Login, login, logout, get_session_info,
}
use shared_todos.Auth.Register.{
  RegisterRequest, RegisterDraw, Registered, RegisterRequest_accepts, register,
}
use shared_todos.Auth.PasswordReset.{
  CompleteBody, CompleteBody_accepts, Mail, password_reset_request, password_reset_validate,
  password_reset_complete,
}
use shared_todos.Auth.OAuth.{
  Google, OAuthDraw, CallbackRequest, Redirect, Initiated, oauth_google_initiate,
  oauth_google_callback,
}
use shared_todos.Lists
use shared_todos.Lists.{ListCreate, ListCreate_accepts}
use shared_todos.Routes.{
  Call, Response, Draw, request, get_list_call, rename_list_call, delete_list_call,
  create_item_call, list_items_call, update_item_call, delete_item_call, create_share_call,
  list_shares_call, change_role_call, revoke_share_call,
}

-- the routes, with what the path, the query and the body give
pub data Endpoint : Type 0 where
  health : Endpoint
  register_call : RegisterRequest → Endpoint
  login_call : LoginRequest → Endpoint
  logout_call : Endpoint
  session_call : Endpoint
  reset_request_call : String → Endpoint
  reset_validate_call : String → Endpoint
  reset_complete_call : CompleteBody → Endpoint
  google_call : Endpoint
  callback_call : Option String → Option String → Option String → Endpoint
  create_list_call : ListCreate → Endpoint
  list_lists_call : Endpoint
  list_call : ℕ → Call → Endpoint

abbrev pub call_method : Call → String
call_method get_list_call = "GET"
call_method (rename_list_call body) = "PATCH"
call_method delete_list_call = "DELETE"
call_method (create_item_call body) = "POST"
call_method list_items_call = "GET"
call_method (update_item_call item_id body) = "PATCH"
call_method (delete_item_call item_id) = "DELETE"
call_method (create_share_call body) = "POST"
call_method list_shares_call = "GET"
call_method (change_role_call target role) = "PATCH"
call_method (revoke_share_call target) = "DELETE"

-- the decorator of each route
abbrev pub method_of : Endpoint → String
method_of health = "GET"
method_of (register_call body) = "POST"
method_of (login_call body) = "POST"
method_of logout_call = "POST"
method_of session_call = "GET"
method_of (reset_request_call email) = "POST"
method_of (reset_validate_call token) = "GET"
method_of (reset_complete_call body) = "POST"
method_of google_call = "GET"
method_of (callback_call code state error) = "GET"
method_of (create_list_call body) = "POST"
method_of list_lists_call = "GET"
method_of (list_call list_id call) = call_method call

module _ (show_id : ℕ → String) where
  -- what follows the list's path; `show_id` writes a UUID
  abbrev pub call_path : Call → String
  call_path get_list_call = ""
  call_path (rename_list_call body) = ""
  call_path delete_list_call = ""
  call_path (create_item_call body) = "/items"
  call_path list_items_call = "/items"
  call_path (update_item_call item_id body) = str_append "/items/" (show_id item_id)
  call_path (delete_item_call item_id) = str_append "/items/" (show_id item_id)
  call_path (create_share_call body) = "/shares"
  call_path list_shares_call = "/shares"
  call_path (change_role_call target role) = str_append "/shares/" (show_id target)
  call_path (revoke_share_call target) = str_append "/shares/" (show_id target)

  unfoldable pub path_of : Endpoint → String
  path_of health = "/health"
  path_of (register_call body) = "/api/v1/auth/register"
  path_of (login_call body) = "/api/v1/auth/login"
  path_of logout_call = "/api/v1/auth/logout"
  path_of session_call = "/api/v1/auth/session"
  path_of (reset_request_call email) = "/api/v1/auth/password-reset/request"
  path_of (reset_validate_call token) = "/api/v1/auth/password-reset/validate"
  path_of (reset_complete_call body) = "/api/v1/auth/password-reset/complete"
  path_of google_call = "/api/v1/auth/oauth/google"
  path_of (callback_call code state error) = "/api/v1/auth/oauth/google/callback"
  path_of (create_list_call body) = "/api/v1/lists"
  path_of list_lists_call = "/api/v1/lists"
  path_of (list_call list_id call) =
      str_append "/api/v1/lists/" (str_append (show_id list_id) (call_path call))

pub record Incoming : Type 0 where
  pub endpoint : Endpoint
  pub session_cookie : Option String
  pub csrf_cookie : Option String
  pub csrf_header : Option String
  pub nonce_cookie : Option String
  pub client : RateLimiter.Request

-- what one request draws: new ids, tokens, a salt, the clock, and what others commit meanwhile
pub record Draws : Type 0 where
  pub id : ℕ
  pub session_id : ℕ
  pub raw_token : String
  pub csrf_token : String
  pub nonce : String
  pub salt : String
  pub checked_at : ℕ
  pub now : ℕ
  pub others : List Write

pub data Answer : Type 0 where
  healthy : Answer
  registered : Registered → Answer
  logged_in : Login → Answer
  logged_out : Answer
  session_out : UserOut → Answer
  reset_requested : Mail → Answer
  reset_valid : Bool → Answer
  reset_completed : Answer
  initiated : Initiated → Answer
  redirected : Redirect → Answer
  list_created : ListOut → Answer
  lists_out : List ListOut → Answer
  list_answer : Response → Answer

-- the cookies that an answer sets
unfoldable pub cookies_of : Settings → String → Answer → List Cookie
cookies_of settings csrf_token (registered answer) =
    set_auth_cookies settings answer.session csrf_token
cookies_of settings csrf_token (logged_in answer) =
    set_auth_cookies settings answer.session csrf_token
cookies_of settings csrf_token logged_out = delete_cookie session_cookie_name ∷ []
cookies_of settings csrf_token (initiated answer) = nonce_cookie settings answer.nonce ∷ []
cookies_of settings csrf_token (redirected answer) = elim answer.session [
  | none ↦ []
  | some token ↦ set_auth_cookies settings token csrf_token
]
cookies_of settings csrf_token _ = []
