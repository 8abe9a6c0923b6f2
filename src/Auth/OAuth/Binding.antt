-- ===== src/Auth/OAuth/Binding.antt =====
-- The two ends of a sign-in with Google: the redirect that starts it, and the callback that ends it.
use shared_todos.Common.{
  String, ◌≡◌, ◌≢◌, refl, ◌∙◌, true, Option, none, some, List, [], ◌∷◌, is_ascii, str_append,
  if◌then◌else◌, ◌==◌, ==_refl, string_eq, arith,
}
use shared_todos.Http.{err, http}
use shared_todos.Db.{Engine, Session, ◌>>=◌, run, moved_to}
use shared_todos.Config.{Settings}
use shared_todos.Auth.Csrf.{compare_digest}
use shared_todos.Auth.Secrets.{Crypto}
use shared_todos.Auth.OAuth.{
  Google, OAuthDraw, CallbackRequest, google_auth_url, make_state, extract_nonce, build_auth_url,
  oauth_google_initiate, exchanged, oauth_google_callback,
}
use shared_todos.Auth.OAuth.Callback.{HasCode, other_browser, callback-forged}

-- the value of a name among the parameters of a query
abbrev pub param : String → List (String × String) → Option String
param name [] = none
param name ((key, value) ∷ params) =
    let rest = param name params in if key == name then some value else rest

module _ ⦃e : Engine⦄ (c : Crypto) (g : Google) (settings : Settings) (d : OAuthDraw e)
    (request : CallbackRequest) (nonce code : String) (s : Session e) where
  its_signature :
      ((key text : String) → g.loads key (g.dumps key text) ≡ some text)
      → extract_nonce g settings (make_state g settings nonce) ≡ some nonce
  unfolding make_state extract_nonce
  its_signature signer = signer settings.secret_key nonce

  -- the redirect holds the signed nonce
  initiate-state :
      (state_of : String → Option String)
      → ((params : List (String × String)) (value : String)
          → param "state" params ≡ some value
          → state_of (str_append google_auth_url (g.urlencode params)) ≡ some value)
      → state_of (oauth_google_initiate g settings nonce).location
        ≡ some (make_state g settings nonce)
  unfolding oauth_google_initiate build_auth_url string_eq
  initiate-state state_of reads = reads _ (make_state g settings nonce) refl

  -- Where the signer gives back what it signed, and Google reads the `state` of the URL it is sent
  -- and hands it to the callback with a code and no error: the browser that started the sign-in, with
  -- the nonce's cookie, goes on to the exchange of the code. Another browser, with another cookie,
  -- has a 400 for an answer, and nothing changes. The drawn nonce is not empty; it and the other
  -- cookie are ASCII.
  pub initiate-then_callback :
      ((key text : String) → g.loads key (g.dumps key text) ≡ some text)
      → (state_of : String → Option String)
      → ((params : List (String × String)) (value : String)
          → param "state" params ≡ some value
          → state_of (str_append google_auth_url (g.urlencode params)) ≡ some value)
      → nonce ≢ ""
      → is_ascii nonce ≡ true
      → HasCode g settings request code
      → request.state ≡ state_of (oauth_google_initiate g settings nonce).location
      → (request.nonce_cookie ≡ some (oauth_google_initiate g settings nonce).nonce
          → run (oauth_google_callback c g settings d request) s
            ≡ run (exchanged c g settings d (g.exchange code)) s)
        × ((cookie : String)
            → request.nonce_cookie ≡ some cookie
            → nonce ≢ cookie
            → is_ascii cookie ≡ true
            → run (oauth_google_callback c g settings d request) s
              ≡ (err (http 400 "Invalid state"), moved_to s s.db))
  unfolding oauth_google_initiate oauth_google_callback run ◌>>=◌ compare_digest
  initiate-then_callback signer state_of reads nonempty ascii h sent =
      let given = sent ∙ initiate-state state_of reads in
      (
        λ cookie. ground (
          arith,
          h.code_given,
          h.no_error,
          given,
          its_signature signer,
          cookie,
          nonempty,
          ascii,
          ==_refl nonce,
        ),
        λ cookie its other plain. callback-forged c g settings d request code s h (
            other_browser (make_state g settings nonce) nonce cookie given (its_signature signer)
              its other ascii plain),
      )
