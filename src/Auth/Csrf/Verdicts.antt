-- ===== src/Auth/Csrf/Verdicts.antt =====
-- Which requests pass the CSRF check.
use shared_todos.Common.{
  String, ◌≡◌, ◌≢◌, ◌⊎◌, true, false, some, contains, string_eq, get_or, is_ascii, ◌&&◌, arith,
}
use shared_todos.Http.{ok, err, type_error}
use shared_todos.Auth.Csrf.{
  Request, call_next, token_missing, token_mismatch, mutating_methods, csrf_exempt_paths,
  compare_digest, dispatch,
}

-- the method changes state, the path is not exempt, and the browser sent a CSRF cookie
pub record IsChecked (request : Request) (token : String) : Type 0 where
  pub mutating : contains mutating_methods request.method ≡ true
  pub not_exempt : contains csrf_exempt_paths request.path ≡ false
  pub cookie : request.csrf_cookie ≡ some token
  pub nonempty : token ≢ ""

-- A request that is checked, and whose cookie and header are ASCII, passes exactly when its header
-- is the cookie's token: no header is one error, another header is another.
pub dispatch-checked :
    (request : Request) (token header : String)
    → IsChecked request token
    → get_or "" request.csrf_header ≡ header
    → is_ascii token ≡ true
    → is_ascii header ≡ true
    → (header ≡ token → dispatch request ≡ ok call_next)
      × (header ≡ "" → dispatch request ≡ ok token_missing)
      × (header ≢ "" → header ≢ token → dispatch request ≡ ok token_mismatch)
unfolding dispatch compare_digest
dispatch-checked request token header c h a b = (
  λ same. ground (arith, c.mutating, c.not_exempt, c.cookie, c.nonempty),
  λ missing. ground (arith, c.mutating, c.not_exempt, c.cookie, c.nonempty),
  λ given other. ground (arith, c.mutating, c.not_exempt, c.cookie, c.nonempty),
)

-- A safe method, an exempt path or a request without a cookie passes whatever its header.
pub dispatch-unchecked :
    (request : Request)
    → (contains mutating_methods request.method ≡ false)
      ⊎ (contains csrf_exempt_paths request.path ≡ true)
      ⊎ (get_or "" request.csrf_cookie ≡ "")
    → dispatch request ≡ ok call_next
unfolding dispatch
dispatch-unchecked request h = ground arith

-- A cookie or a header beyond ASCII under a check raises.
pub dispatch-non_ascii :
    (request : Request) (token header : String)
    → IsChecked request token
    → get_or "" request.csrf_header ≡ header
    → header ≢ ""
    → (is_ascii token && is_ascii header) ≡ false
    → dispatch request ≡ err type_error
unfolding dispatch compare_digest
dispatch-non_ascii request token header c h given wide =
    ground (arith, c.mutating, c.not_exempt, c.cookie, c.nonempty)
