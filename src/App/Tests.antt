-- ===== src/App/Tests.antt =====
-- Requests to a small server.
use shared_todos.Common.{
  ℕ, ◌+◌, ◌*◌, ◌≡◌, refl, ◌≢◌, ltb, if◌then◌else◌, ◌==◌, String, none, some, [], ◌∷◌, nat_eq,
  string_eq,
}
use shared_todos.Http.{ok, err, http, type_error, error_status, multiple_results_found}
use shared_todos.Db.{Session, moved_to}
use shared_todos.Db.Memory.{memory, memory-IsEngine}
use shared_todos.Db.Sample.{start, user}
use shared_todos.Db.Invariant.Sound.{IsSound}
use shared_todos.Auth.Sample.{plain, settings}
use shared_todos.Auth.Csrf.{call_next, dispatch}
use shared_todos.Auth.RateLimiter.{get, check_login_rate_limit}
use shared_todos.Auth.Cookies.{Jar, keep_cookies}
use shared_todos.Auth.Secrets.{verify_password}
use shared_todos.Auth.Login.{user_out}
use shared_todos.Auth.OAuth.{Google}
use shared_todos.Routes.{delete_list_call}
use shared_todos.App.{
  Endpoint, health, register_call, login_call, session_call, list_call, logged_in, session_out,
  logout_call, logged_out, cookies_of, path_of, Incoming, Draws,
}
use shared_todos.App.Service.{csrf_view, respond}
use shared_todos.App.Gate.{respond-forged, respond-non_ascii, respond-unauthenticated}
use shared_todos.App.Browser.{visit, signed_in, login-then_request}
use shared_todos.App.Single.{respond-Reachable}
use shared_todos.App.Leaving.{logout-then_request}
use shared_todos.App.Reachable.{IsEmpty, deployed, answered, Reachable-IsSound}

-- a signer that signs nothing, and a Google that knows nobody
abbrev google : Google
google = record {
  dumps = λ key text. text;
  loads = λ key state. none;
  urlencode = λ params. "";
  exchange = λ code. ok (record { status = 400; id_token = ok none });
  verify_token = λ token client. err (http 400 "");
}

abbrev show : ℕ → String
show id = "id"

abbrev draws : Draws
draws = record {
  id = 40;
  session_id = 41;
  raw_token = "t";
  csrf_token = "x";
  nonce = "n";
  salt = "s";
  checked_at = 100;
  now = 100;
  others = [];
}

-- a request of a browser with a CSRF cookie, or without one
abbrev asking : Endpoint → String → Incoming
asking target csrf_token = record {
  endpoint = target;
  session_cookie = none;
  csrf_cookie = some csrf_token;
  csrf_header = none;
  nonce_cookie = none;
  client = record { forwarded_for = none; client_host = some "1.2.3.4" };
}

-- only user 1, whose password is "hash"
abbrev alone : Session memory
alone = record start { db = record start.db { users = user 1 ∷ [] } }

abbrev signing_in : Incoming
signing_in =
    visit (λ key. none) (asking health "").client
      (login_call (record { email = "someone@example.org"; password = "hash" }))

abbrev jar : Jar
jar =
    signed_in memory-IsEngine plain google settings show (λ key. none) (asking health "").client
      (record { email = "someone@example.org"; password = "hash" }) draws alone (user 1) "hash"

login-then_request_example :
    let (answer, s') = respond plain google settings show signing_in draws alone in
    (answer ≡ ok (logged_in (record { user = user_out (user 1); session = "t" })))
    × (dispatch
          (csrf_view show (visit jar (asking health "").client (list_call 10 delete_list_call)))
        ≡ ok call_next)
    × (respond plain google settings show
          (visit jar (asking health "").client session_call)
          draws
          s'
        ≡ (
          (if ltb 100 (100 + 7 * 86400)
              then ok (session_out (user_out (user 1)))
              else err (http 401 "Not authenticated")),
          s',
        ))
unfolding check_login_rate_limit get string_eq nat_eq verify_password
login-then_request_example =
    login-then_request memory-IsEngine plain google settings show (λ key. none)
      (asking health "").client (record { email = "someone@example.org"; password = "hash" }) draws
      alone (user 1) "hash" refl refl refl refl refl refl refl (asking health "").client
      (list_call 10 delete_list_call) draws

-- a browser with a session
abbrev kept : Jar
kept key = if key == "session" then some "t" else some "x"

logout-then_request_example :
    let (answer, s') =
      respond plain google settings show
        (visit kept (asking health "").client logout_call)
        draws
        start in
    (answer ≡ ok logged_out)
    × (keep_cookies (cookies_of settings "x" logged_out) kept "session" ≡ none)
    × (respond plain google settings show
          (visit kept (asking health "").client (list_call 10 delete_list_call))
          draws
          s'
        ≡ (err (http 401 "Not authenticated"), s'))
unfolding string_eq
logout-then_request_example =
    logout-then_request memory-IsEngine plain google settings show kept (asking health "").client
      draws start "t" "x" refl (cc) refl refl (asking health "").client draws
      (list_call 10 delete_list_call) refl

respond-forged_example :
    respond plain google settings show (asking (list_call 10 delete_list_call) "x") draws start
    ≡ (err (http 403 "CSRF token missing"), moved_to start start.db)
unfolding string_eq
respond-forged_example =
    respond-forged plain google settings show (asking (list_call 10 delete_list_call) "x") draws
      start "x" "" refl refl refl (cc) refl refl refl (cc)

abbrev accented : Incoming
accented = record (asking (list_call 10 delete_list_call) "x") { csrf_header = some "é" }

respond-non_ascii_example :
    (respond plain google settings show accented draws start
      ≡ (err type_error, moved_to start start.db))
    × (error_status type_error ≡ 500)
unfolding string_eq
respond-non_ascii_example =
    respond-non_ascii plain google settings show accented draws start "x" "é" refl refl refl (cc)
      refl (cc) refl

respond-unauthenticated_example :
    respond plain google settings show (asking (list_call 10 delete_list_call) "") draws start
    ≡ (err (http 401 "Not authenticated"), moved_to start start.db)
unfolding string_eq dispatch csrf_view path_of
respond-unauthenticated_example =
    respond-unauthenticated memory-IsEngine plain google settings show
      (asking (list_call 10 delete_list_call) "") draws start refl refl (λ token given. refl)

abbrev nothing_yet : Session memory
nothing_yet = record {
  db = record { users = []; lists = []; items = []; shares = []; sessions = []; reset_tokens = [] };
  pending = [];
  failed_logins = [];
}

abbrev joining : Incoming
joining =
    asking (register_call (record { email = "ana@example.org"; password = "correct horse" })) ""

nothing_yet-IsEmpty : IsEmpty nothing_yet.db
nothing_yet-IsEmpty = record {
  users = λ p. refl;
  lists = λ p. refl;
  items = λ p. refl;
  shares = λ p. refl;
  sessions = λ p. refl;
  reset_tokens = λ p. refl;
}

respond-Reachable_example :
    (respond plain google settings show joining draws nothing_yet).0 ≢ err multiple_results_found
respond-Reachable_example =
    respond-Reachable memory-IsEngine plain google settings show joining draws nothing_yet refl
      (deployed nothing_yet nothing_yet-IsEmpty)

Reachable-IsSound_example :
    IsSound (respond plain google settings show joining draws nothing_yet).1.db
Reachable-IsSound_example =
    Reachable-IsSound memory-IsEngine plain google settings show
      (respond plain google settings show joining draws nothing_yet).1
      (answered joining draws nothing_yet (deployed nothing_yet nothing_yet-IsEmpty))
