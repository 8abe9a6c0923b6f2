-- ===== src/Auth/Csrf.antt =====
-- app/auth/csrf.py: the double-submit check before every request.
pub mod Verdicts
use shared_todos.Common.{
  String, Bool, true, false, not, ◌&&◌, List, [], ◌∷◌, Option, none, some, ◌==◌, contains,
  string_eq, get_or, is_ascii, if◌then◌else◌,
}
use shared_todos.Http.{Error, Result, ok, err, type_error, ◌>>=◌}

abbrev pub mutating_methods : List String
mutating_methods = "POST" ∷ "PUT" ∷ "PATCH" ∷ "DELETE" ∷ []

abbrev pub csrf_exempt_paths : List String
csrf_exempt_paths = "/api/v1/auth/login" ∷ "/api/v1/auth/register" ∷ []

-- what the middleware reads of a request
pub record Request : Type 0 where
  pub method : String
  pub path : String
  pub csrf_cookie : Option String
  pub csrf_header : Option String

pub data Verdict : Type 0 where
  call_next : Verdict
  token_missing token_mismatch : Verdict

-- `secrets.compare_digest` on two texts, which have to be ASCII
unfoldable pub compare_digest : String → String → Result Bool
compare_digest a b = if is_ascii a && is_ascii b then ok (a == b) else err type_error

verdict_of : Bool → Verdict
verdict_of true = call_next
verdict_of false = token_mismatch

unfoldable pub dispatch : Request → Result Verdict
unfolding verdict_of
dispatch request =
    let cookie_token = get_or "" request.csrf_cookie in
    let header_token = get_or "" request.csrf_header in
    if not (contains mutating_methods request.method)
    then ok call_next
    else if contains csrf_exempt_paths request.path
    then ok call_next
    else if cookie_token == ""
    then ok call_next
    else if header_token == ""
    then ok token_missing
    else do same ← compare_digest cookie_token header_token; ok (verdict_of same)
