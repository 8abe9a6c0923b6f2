-- ===== src/Auth/OAuth.antt =====
-- app/auth/oauth.py: sign-in with Google. The signer of states, the encoding of a query, Google's
-- two answers and the check of an ID token are outside, the parameter `Google`.
pub mod Callback
pub mod Binding
pub mod Keeps
pub mod SignIn
pub mod Race
mod Tests
use shared_todos.Common.{
  ℕ, String, Bool, true, false, not, ◌||◌, Option, none, some, List, [], ◌∷◌, ◌==◌, nat_eq,
  string_eq, option_eq, get_or, before, str_append, if◌then◌else◌,
}
use shared_todos.Http.{Result, ok, err, http, value_error}
use shared_todos.Db.{
  Engine, User, Db, is_user, add_user, set_google_sub, Session, Tx, ◌>>=◌, ◌>>◌, pure, raise, lift,
  query, write, commit, meanwhile, raise_if, scalar_one_or_none, scalar_one,
}
use shared_todos.Config.{Settings}
use shared_todos.Auth.Csrf.{compare_digest}
use shared_todos.Auth.Secrets.{Crypto}
use shared_todos.Auth.Sessions.{create_session}

-- The claims of an ID token that the callback reads; is `email_verified` the value True?
pub record Claims : Type 0 where
  pub email_verified : Bool
  pub sub : Option String
  pub email : Option String
  pub name : Option String

-- Google's answer to the exchange of a code: its status, and the `id_token` of its JSON, whose
-- reading raises where the answer is no JSON or no object.
pub record TokenAnswer : Type 0 where
  pub status : ℕ
  pub id_token : Result (Option String)

pub record Google : Type 0 where
  -- `URLSafeSerializer(secret_key, salt="oauth-state")`: `dumps` and `loads`, a bad signature as none
  pub dumps : String → String → String
  pub loads : String → String → Option String
  pub urlencode : List (String × String) → String
  -- `http.post` with a code, which raises where there is no answer
  pub exchange : String → Result TokenAnswer
  -- `verify_token` with an ID token and the client's id
  pub verify_token : String → String → Result Claims

-- What a callback draws: the ids of a user and of a session, a token, the time.
pub record OAuthDraw (e : Engine) : Type 0 where
  pub user_id : ℕ
  pub session_id : ℕ
  pub raw_token : String
  pub now : ℕ
  -- what other requests commit between the query of the user and the commit
  pub others : Db e → Db e

-- the query and the cookie of a callback
pub record CallbackRequest : Type 0 where
  pub code : Option String
  pub state : Option String
  pub error : Option String
  pub nonce_cookie : Option String

-- a redirect, and the session cookie that it sets
pub record Redirect : Type 0 where
  pub location : String
  pub session : Option String

-- a redirect, and the nonce cookie that it sets
pub record Initiated : Type 0 where
  pub location : String
  pub nonce : String

-- `_GOOGLE_AUTH_URL`, and the mark before its query
abbrev pub google_auth_url : String
google_auth_url = "https://accounts.google.com/o/oauth2/v2/auth?"

module _ (g : Google) (settings : Settings) where
  unfoldable pub make_state : String → String
  make_state nonce = g.dumps settings.secret_key nonce

  unfoldable pub extract_nonce : String → Option String
  extract_nonce state = g.loads settings.secret_key state

  unfoldable pub build_auth_url : String → String
  build_auth_url state = str_append google_auth_url (
      g.urlencode (
        ("client_id", settings.google_client_id)
        ∷ ("redirect_uri", settings.google_redirect_uri)
        ∷ ("response_type", "code")
        ∷ ("scope", "openid email profile")
        ∷ ("state", state)
        ∷ ("access_type", "offline")
        ∷ []))

  -- the nonce is drawn
  unfoldable pub oauth_google_initiate : String → Initiated
  oauth_google_initiate nonce = record {
    location = build_auth_url (make_state nonce);
    nonce = nonce;
  }

-- `user.google_sub == google_sub) | (User.email == email)`
abbrev pub is_account : String → String → User → Bool
is_account sub email u = u.google_sub == some sub || u.email == email

-- `payload.get("name", email.split("@")[0] if email else "")`
abbrev pub name_of : String → Claims → String
name_of email claims = get_or (before 64 email) claims.name

module _ ⦃e : Engine⦄ (c : Crypto) (g : Google) (settings : Settings) (d : OAuthDraw e) where
  abbrev pub to_page : String → Redirect
  to_page page = record { location = str_append settings.frontend_url page; session = none }

  -- the redirect of each refusal after the code's exchange
  failed : Tx e Redirect
  failed = pure (to_page "/register?error=oauth_failed")

  sign_in : ℕ → Tx e Redirect
  sign_in user_id = do
    token ← create_session c user_id settings.session_ttl_days d.raw_token d.session_id d.now
    pure (record { location = str_append settings.frontend_url "/dashboard"; session = some token })

  abbrev pub google_user : String → String → String → User
  google_user sub email name = record {
    id = d.user_id;
    email = email;
    display_name = name;
    password_hash = none;
    google_sub = some sub;
    created_at = d.now;
    updated_at = d.now;
  }

  link : String → User → Option String → Tx e Redirect
  link sub user none = do
    write (set_google_sub user.id sub d.now)
    meanwhile d.others
    commit
    sign_in user.id
  link sub user (some linked) = sign_in user.id

  as_user : String → String → String → Option User → Tx e Redirect
  as_user sub email name none = do
    write (add_user (google_user sub email name))
    meanwhile d.others
    commit
    found ← query (λ db. e.select (is_user d.user_id) db.users)
    user ← lift (scalar_one found)
    sign_in user.id
  as_user sub email name (some user) = link sub user user.google_sub

  unfoldable pub find_user : String → String → String → Tx e Redirect
  unfolding as_user link sign_in
  find_user sub email name = do
    found ← query (λ db. e.select (is_account sub email) db.users)
    user ← lift (scalar_one_or_none found)
    as_user sub email name user

  with_claims : Claims → Tx e Redirect
  with_claims claims =
      if not claims.email_verified
      then failed
      else if sub == "" || email == ""
      then failed
      else find_user sub email (name_of email claims)
    where
      sub : String
      sub = get_or "" claims.sub

      email : String
      email = get_or "" claims.email

  -- `except ValueError`
  verified : Result Claims → Tx e Redirect
  verified (ok claims) = with_claims claims
  verified (err (value_error x)) = failed
  verified (err x) = raise x

  with_token : Result (Option String) → Tx e Redirect
  with_token (ok token) = verified (g.verify_token (get_or "" token) settings.google_client_id)
  with_token (err x) = raise x

  pub exchanged : Result TokenAnswer → Tx e Redirect
  exchanged (ok answer) = if answer.status == 200 then with_token answer.id_token else failed
  exchanged (err x) = raise x

  bound : String → String → Option String → Tx e Redirect
  bound code cookie_nonce none = raise (http 400 "Invalid state")
  bound code cookie_nonce (some nonce) = do
    raise_if (cookie_nonce == "") (http 400 "Invalid state")
    same ← lift (compare_digest nonce cookie_nonce)
    raise_if (not same) (http 400 "Invalid state")
    exchanged (g.exchange code)

  by_state : String → String → Option String → Tx e Redirect
  by_state code cookie_nonce none = raise (http 400 "Invalid state")
  by_state code cookie_nonce (some state) = bound code cookie_nonce (extract_nonce g settings state)

  by_code : CallbackRequest → Option String → Tx e Redirect
  by_code request none = pure (to_page "/register?error=oauth_cancelled")
  by_code request (some code) =
      if not (get_or "" request.error == "")
      then pure (to_page "/register?error=oauth_cancelled")
      else by_state code (get_or "" request.nonce_cookie) request.state

  unfoldable pub oauth_google_callback : CallbackRequest → Tx e Redirect
  unfolding by_code by_state bound exchanged with_token verified with_claims failed
  oauth_google_callback request = by_code request request.code
