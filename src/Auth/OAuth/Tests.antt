-- ===== src/Auth/OAuth/Tests.antt =====
-- Sign-ins with Google on a small database.
use shared_todos.Common.{
  ◌+◌, ◌*◌, ◌≡◌, refl, ◌≢◌, String, Bool, true, false, ◌&&◌, Option, none, some, List, [], ◌∷◌,
  ◌==◌, is_ascii, get_or, nat_eq, string_eq, option_eq, ltb, if◌then◌else◌, arith,
}
use shared_todos.Http.{ok, err, http, multiple_results_found, error_status}
use shared_todos.Db.{tally, Session, User, is_user, run}
use shared_todos.Db.Memory.{memory, memory-IsEngine}
use shared_todos.Db.Sample.{user, sample}
use shared_todos.Auth.Sample.{plain, settings}
use shared_todos.Auth.Sessions.{require_auth}
use shared_todos.Auth.OAuth.{
  TokenAnswer, exchanged, google_auth_url, build_auth_url, Google, OAuthDraw, CallbackRequest,
  to_page, make_state, extract_nonce, oauth_google_initiate, oauth_google_callback,
}
use shared_todos.Auth.OAuth.Callback.{
  HasCode, other_browser, IsBound, IsExchanged, unverified_email, IsVouched, callback-forged,
  callback-rejected, callback-ambiguous,
}
use shared_todos.Auth.OAuth.Binding.{param, initiate-then_callback}
use shared_todos.Auth.OAuth.SignIn.{callback-signs_in, callback-links}

abbrev token_answer : TokenAnswer
token_answer = record { status = 200; id_token = ok (some "token") }

-- A signer that signs nothing, and a query of the state alone. Google answers every code with a token for "sub-1", and vouches for
-- the email or not.
abbrev google : Bool → String → Google
google is_verified mail = record {
  dumps = λ key text. text;
  loads = λ key state. some state;
  urlencode = λ params. get_or "" (param "state" params);
  exchange = λ code. ok token_answer;
  verify_token = λ token client.
      ok (record {
        email_verified = is_verified;
        sub = some "sub-1";
        email = some mail;
        name = none;
      });
}

abbrev draw : OAuthDraw memory
draw = record { user_id = 40; session_id = 41; raw_token = "t"; now = 100; others = λ db. db }

abbrev request_from : String → CallbackRequest
request_from nonce = record {
  code = some "c";
  state = some "n";
  error = none;
  nonce_cookie = some nonce;
}

-- user 1 with a password alone, user 2 with a Google account alone
abbrev ana : User
ana = record (user 1) { email = "ana@example.org" }

abbrev ben : User
ben = record (user 2) { email = "ben@example.org"; google_sub = some "sub-1" }

abbrev only : List User → Session memory
only users = record { db = record sample { users = users }; pending = []; failed_logins = [] }

has_code :
    (is_verified : Bool) (mail nonce : String)
    → HasCode (google is_verified mail) settings (request_from nonce) "c"
has_code is_verified mail nonce = record { code_given = refl; no_error = refl }

bound :
    (is_verified : Bool) (mail : String)
    → IsBound (google is_verified mail) settings (request_from "n") "c"
unfolding extract_nonce
bound is_verified mail = record {
  has_code = has_code is_verified mail "n";
  state = "n";
  nonce = "n";
  state_given = refl;
  signed = refl;
  cookie_given = refl;
  nonempty = λ h. cc;
  ascii = refl;
}

its_exchange :
    (is_verified : Bool) (mail : String)
    → IsExchanged (google is_verified mail) settings (request_from "n") "c" "token"
its_exchange is_verified mail = record {
  answer = token_answer;
  given = some "token";
  answered = refl;
  accepted = refl;
  parsed = refl;
  its_token = refl;
}

vouched :
    (mail : String)
    → mail ≢ ""
    → IsVouched (google true mail) settings (request_from "n") "c" "sub-1" mail
vouched mail given = record {
  is_bound = bound true mail;
  claims = record { email_verified = true; sub = some "sub-1"; email = some mail; name = none };
  token = "token";
  exchanged = its_exchange true mail;
  checked = refl;
  email_verified = refl;
  sub_given = refl;
  email_given = refl;
  has_sub = λ h. cc;
  has_email = given;
}

-- what comes after a text of this length
after : String → String → String
after String.[] t = t
after (String.◌∷◌ c s) String.[] = ""
after (String.◌∷◌ c s) (String.◌∷◌ d t) = after s t

initiate-then_callback_example :
    ((request_from "n").nonce_cookie ≡ some "n"
      → run
          (oauth_google_callback plain
            (google true "ana@example.org")
            settings
            draw
            (request_from "n"))
          (only (ana ∷ []))
        ≡ run
            (exchanged plain (google true "ana@example.org") settings draw (ok token_answer))
            (only (ana ∷ [])))
    × ((cookie : String)
        → (request_from "n").nonce_cookie ≡ some cookie
        → ◌≢◌ {A = String} "n" cookie
        → is_ascii cookie ≡ true
        → run
            (oauth_google_callback plain
              (google true "ana@example.org")
              settings
              draw
              (request_from "n"))
            (only (ana ∷ []))
          ≡ (err (http 400 "Invalid state"), only (ana ∷ [])))
unfolding make_state build_auth_url oauth_google_initiate after string_eq
initiate-then_callback_example =
    initiate-then_callback plain (google true "ana@example.org") settings draw (request_from "n")
      "n" "c" (only (ana ∷ [])) (λ key text. refl) (λ url. some (after google_auth_url url))
      (λ params value h. rw h refl) (λ h. cc) refl (has_code true "ana@example.org" "n") refl

callback-forged_example :
    run
      (oauth_google_callback plain
        (google true "ana@example.org")
        settings
        draw
        (request_from "nn"))
      (only (ana ∷ []))
    ≡ (err (http 400 "Invalid state"), only (ana ∷ []))
unfolding extract_nonce
callback-forged_example =
    callback-forged plain (google true "ana@example.org") settings draw (request_from "nn") "c"
      (only (ana ∷ [])) (has_code true "ana@example.org" "nn")
      (other_browser "n" "n" "nn" refl refl refl (λ h. cc) refl refl)

callback-rejected_example :
    run
      (oauth_google_callback plain
        (google false "ana@example.org")
        settings
        draw
        (request_from "n"))
      (only (ana ∷ []))
    ≡ (
      ok (
          to_page plain
            (google false "ana@example.org")
            settings
            draw
            "/register?error=oauth_failed"),
      only (ana ∷ []),
    )
callback-rejected_example =
    callback-rejected plain (google false "ana@example.org") settings draw (request_from "n") "c"
      (only (ana ∷ [])) (bound false "ana@example.org")
      (unverified_email "token"
        (record {
          email_verified = false;
          sub = some "sub-1";
          email = some "ana@example.org";
          name = none;
        })
        (its_exchange false "ana@example.org") refl refl)

ana_given : ◌≢◌ {A = String} "ana@example.org" ""
ana_given h = cc

callback-ambiguous_example :
    (run
        (oauth_google_callback plain
          (google true "ana@example.org")
          settings
          draw
          (request_from "n"))
        (only (ana ∷ ben ∷ []))
      ≡ (err multiple_results_found, only (ana ∷ ben ∷ [])))
    × (error_status multiple_results_found ≡ 500)
unfolding string_eq nat_eq option_eq
callback-ambiguous_example =
    callback-ambiguous memory-IsEngine plain (google true "ana@example.org") settings draw
      (request_from "n") "c" "sub-1" "ana@example.org" (only (ana ∷ ben ∷ []))
      (vouched "ana@example.org" ana_given) (omega arith) (omega arith)

callback-signs_in_example :
    let (answer, s') =
      run
        (oauth_google_callback plain
          (google true "new@example.org")
          settings
          draw
          (request_from "n"))
        (only (ben ∷ [])) in
    (answer ≡ ok (record { location = "http://localhost:3000/dashboard"; session = some "t" }))
    × (run (require_auth plain (some "t") 200) s'
        ≡ ((if ltb 200 (100 + 7 * 86400) then ok ben else err (http 401 "Not authenticated")), s'))
unfolding string_eq nat_eq option_eq
callback-signs_in_example =
    callback-signs_in memory-IsEngine plain (google true "new@example.org") settings draw
      (request_from "n") "c" "sub-1" "new@example.org" (only (ben ∷ []))
      (vouched "new@example.org" (λ h. cc)) ben refl refl refl (λ h. cc) 200

callback-links_example :
    let (answer, s') =
      run
        (oauth_google_callback plain
          (google true "ana@example.org")
          settings
          draw
          (request_from "n"))
        (only (ana ∷ [])) in
    (answer ≡ ok (record { location = "http://localhost:3000/dashboard"; session = some "t" }))
    × (tally (λ u. u.google_sub == some "sub-1") s'.db.users ≡ 1)
    × (tally (λ u. is_user 1 u && u.google_sub == some "sub-1") s'.db.users ≡ 1)
    × ((q : Option String → Bool)
        → tally (λ u. q u.password_hash) s'.db.users
          ≡ tally (λ u. q u.password_hash) (only (ana ∷ [])).db.users)
unfolding string_eq nat_eq option_eq
callback-links_example =
    callback-links memory-IsEngine plain (google true "ana@example.org") settings draw
      (request_from "n") "c" "sub-1" "ana@example.org" (only (ana ∷ []))
      (vouched "ana@example.org" ana_given) ana refl refl refl refl refl
