-- ===== src/Auth/OAuth/Callback.antt =====
-- What a callback from Google answers, and what it leaves.
use shared_todos.Common.{
  ◌≤◌, String, ◌≡◌, refl, ◌∙◌, ◌≢◌, ◌⊎◌, true, false, Option, none, some, List, [], ◌∷◌, nat_eq,
  string_eq, option_eq, is_ascii, get_or, ==_refl, count, count_split, not, ◌&&◌, ◌==◌, arith,
}
use shared_todos.Http.{ok, err, http, value_error, multiple_results_found, error_status}
use shared_todos.Db.{Engine, IsEngine, tally, Session, ◌>>=◌, run, moved_to, scalar_one_or_none}
use shared_todos.Db.Tally.{length-select, tally_mono}
use shared_todos.Config.{Settings}
use shared_todos.Auth.Csrf.{compare_digest}
use shared_todos.Auth.Secrets.{Crypto}
use shared_todos.Auth.OAuth.{
  Claims, TokenAnswer, Google, OAuthDraw, CallbackRequest, extract_nonce, is_account, to_page,
  oauth_google_callback, find_user, name_of,
}

module _ (g : Google) (settings : Settings) (request : CallbackRequest) where
  -- Google says yes, and the request has a code
  pub record HasCode (code : String) : Type 0 where
    pub code_given : request.code ≡ some code
    pub no_error : get_or "" request.error ≡ ""

  -- The state is missing, or not signed, or not of this browser.
  pub data IsForged : Type 0 where
    no_state : request.state ≡ none → IsForged
    bad_signature :
        (state : String)
        → request.state ≡ some state
        → extract_nonce g settings state ≡ none
        → IsForged
    no_cookie :
        (state nonce : String)
        → request.state ≡ some state
        → extract_nonce g settings state ≡ some nonce
        → get_or "" request.nonce_cookie ≡ ""
        → IsForged
    other_browser :
        (state nonce cookie : String)
        → request.state ≡ some state
        → extract_nonce g settings state ≡ some nonce
        → request.nonce_cookie ≡ some cookie
        → nonce ≢ cookie
        → is_ascii nonce ≡ true
        → is_ascii cookie ≡ true
        → IsForged

  -- the state is signed, and its nonce is the cookie's
  pub record IsBound (code : String) : Type 0 where
    pub has_code : HasCode code
    pub state : String
    pub nonce : String
    pub state_given : request.state ≡ some state
    pub signed : extract_nonce g settings state ≡ some nonce
    pub cookie_given : request.nonce_cookie ≡ some nonce
    pub nonempty : nonce ≢ ""
    pub ascii : is_ascii nonce ≡ true

  -- Google takes the code, and its answer holds this ID token; no token is the empty text
  pub record IsExchanged (code token : String) : Type 0 where
    pub answer : TokenAnswer
    pub given : Option String
    pub answered : g.exchange code ≡ ok answer
    pub accepted : answer.status ≡ 200
    pub parsed : answer.id_token ≡ ok given
    pub its_token : get_or "" given ≡ token

  -- The exchange has another status, or the check of the token raises a ValueError, or the claims
  -- are not enough.
  pub data IsRejected (code : String) : Type 0 where
    exchange_failed :
        (answer : TokenAnswer) → g.exchange code ≡ ok answer → answer.status ≢ 200 → IsRejected code
    bad_token :
        (token message : String)
        → IsExchanged code token
        → g.verify_token token settings.google_client_id ≡ err (value_error message)
        → IsRejected code
    unverified_email :
        (token : String) (claims : Claims)
        → IsExchanged code token
        → g.verify_token token settings.google_client_id ≡ ok claims
        → claims.email_verified ≡ false
        → IsRejected code
    missing_claim :
        (token : String) (claims : Claims)
        → IsExchanged code token
        → g.verify_token token settings.google_client_id ≡ ok claims
        → (get_or "" claims.sub ≡ "") ⊎ (get_or "" claims.email ≡ "")
        → IsRejected code

  -- Google vouches for a user with this id and this email.
  pub record IsVouched (code sub email : String) : Type 0 where
    pub is_bound : IsBound code
    pub claims : Claims
    pub token : String
    pub exchanged : IsExchanged code token
    pub checked : g.verify_token token settings.google_client_id ≡ ok claims
    pub email_verified : claims.email_verified ≡ true
    pub sub_given : claims.sub ≡ some sub
    pub email_given : claims.email ≡ some email
    pub has_sub : sub ≢ ""
    pub has_email : email ≢ ""

module _ ⦃e : Engine⦄ (c : Crypto) (g : Google) (settings : Settings) (d : OAuthDraw e)
    (request : CallbackRequest) (code : String) (s : Session e) where
  -- A callback with a code and no error, whose state is missing, not signed, or not of this browser
  -- (no cookie, or another nonce where both are ASCII), answers 400 and changes nothing, whatever
  -- Google would say.
  pub callback-forged :
      HasCode g settings request code
      → IsForged g settings request
      → run (oauth_google_callback c g settings d request) s
        ≡ (err (http 400 "Invalid state"), moved_to s s.db)
  unfolding oauth_google_callback run ◌>>=◌ compare_digest
  callback-forged h (no_state a) = ground (arith, h.code_given, h.no_error)
  callback-forged h (bad_signature state a b) = ground (arith, h.code_given, h.no_error)
  callback-forged h (no_cookie state nonce a b k) = ground (arith, h.code_given, h.no_error)
  callback-forged h (other_browser state nonce cookie a b k n p q) =
      ground (arith, h.code_given, h.no_error)

  -- The callback of the browser that the state is bound to, with a code and no error, where Google
  -- answers the exchange with another status than 200, or the check of the token raises a ValueError,
  -- or the email is not verified, or the id or the email is missing: it is sent back to the
  -- registration, by the same redirect for each of these, and changes nothing.
  pub callback-rejected :
      IsBound g settings request code
      → IsRejected g settings request code
      → run (oauth_google_callback c g settings d request) s
        ≡ (ok (to_page c g settings d "/register?error=oauth_failed"), moved_to s s.db)
  unfolding oauth_google_callback run ◌>>=◌ compare_digest
  callback-rejected h (exchange_failed answer a b) = ground (arith, h.cookie_given, h.signed)
  callback-rejected h (bad_token token message x a) =
      ground (arith, h.cookie_given, h.signed, x.answered, x.accepted, x.parsed, x.its_token)
  callback-rejected h (unverified_email token claims x a b) =
      ground (arith, h.cookie_given, h.signed, x.answered, x.accepted, x.parsed, x.its_token)
  callback-rejected h (missing_claim token claims x a b) =
      ground (arith, h.cookie_given, h.signed, x.answered, x.accepted, x.parsed, x.its_token)

two_of_count :
    {A : Type 0} (xs : List A)
    → 2 ≤ count (λ _. true) xs
    → (x : A) × ((y : A) × ((zs : List A) × (xs ≡ x ∷ y ∷ zs)))
two_of_count [] h = absurd (omega arith)
two_of_count (x ∷ []) h = absurd (omega arith)
two_of_count (x ∷ y ∷ zs) h = (x, (y, (zs, refl)))

module _ ⦃e : Engine⦄ (laws : IsEngine e) (c : Crypto) (g : Google) (settings : Settings)
    (d : OAuthDraw e) (request : CallbackRequest) (code sub email : String) (s : Session e)
    (vouched : IsVouched g settings request code sub email) where
  pub oauth_google_callback-find_user :
      (name : String)
      → name ≡ name_of email vouched.claims
      → run (oauth_google_callback c g settings d request) s
        ≡ run (find_user c g settings d sub email name) s
  unfolding oauth_google_callback run ◌>>=◌ compare_digest
  oauth_google_callback-find_user name h =
      let b = vouched.is_bound in
      let x = vouched.exchanged in
      ground (
        arith,
        b.has_code.code_given,
        b.has_code.no_error,
        b.state_given,
        b.signed,
        b.cookie_given,
        b.nonempty,
        b.ascii,
        x.answered,
        x.accepted,
        x.parsed,
        x.its_token,
        vouched.checked,
        vouched.email_verified,
        vouched.sub_given,
        vouched.email_given,
        vouched.has_sub,
        vouched.has_email,
        ==_refl b.nonce,
      )

  rivals :
      1 ≤ tally (λ u. u.google_sub == some sub && not (u.email == email)) s.db.users
      → 1 ≤ tally (λ u. u.email == email && not (u.google_sub == some sub)) s.db.users
      → 2 ≤ tally (is_account sub email) s.db.users
  rivals by_sub by_email = omega (
    arith,
    by_sub,
    by_email,
    count_split (λ u. u.google_sub == some sub) (is_account sub email)
        (e.select (λ _. true) s.db.users),
    tally_mono (λ u. u.google_sub == some sub && not (u.email == email))
        (λ u. u.google_sub == some sub && is_account sub email u) s.db.users (λ u h. ground arith),
    tally_mono (λ u. u.email == email && not (u.google_sub == some sub))
        (λ u. not (u.google_sub == some sub) && is_account sub email u) s.db.users
        (λ u h. ground arith),
  )

  -- Google vouches for an id and an email. Where a user has the id with another email, and a user has
  -- the email without the id, the query of the callback finds two rows and raises: the request ends
  -- in a server error, and nothing changes.
  pub callback-ambiguous :
      1 ≤ tally (λ u. u.google_sub == some sub && not (u.email == email)) s.db.users
      → 1 ≤ tally (λ u. u.email == email && not (u.google_sub == some sub)) s.db.users
      → (run (oauth_google_callback c g settings d request) s
          ≡ (err multiple_results_found, moved_to s s.db))
        × (error_status multiple_results_found ≡ 500)
  unfolding find_user run ◌>>=◌ scalar_one_or_none
  callback-ambiguous by_sub by_email =
      let (u, (v, (rest, found))) = two_of_count (e.select (is_account sub email) s.db.users) (
        omega
          (arith, rivals by_sub by_email, length-select laws (is_account sub email) s.db.users)) in
      (
        oauth_google_callback-find_user (name_of email vouched.claims) refl ∙ ground (arith, found),
        refl,
      )
