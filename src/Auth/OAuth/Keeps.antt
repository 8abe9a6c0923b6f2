-- ===== src/Auth/OAuth/Keeps.antt =====
-- What every accepted write keeps, a callback from Google keeps.
use shared_todos.Common.{ℕ, String, Option, none, some, not, ◌||◌, ◌==◌, get_or, string_eq}
use shared_todos.Http.{Result, ok, err, value_error}
use shared_todos.Db.{Engine, User, Db}
use shared_todos.Db.Keeps.{
  Keeps, Keeps-bind, Keeps-if, Keeps-write-then, Keeps-raise_if-then, Keeps-lift, Keeps-query,
  Keeps-pure, Keeps-raise, IsStable, Keeps-commit-then, Keeps-meanwhile-then,
}
use shared_todos.Config.{Settings}
use shared_todos.Auth.Secrets.{Crypto}
use shared_todos.Auth.Sessions.Keeps.{Keeps-create_session}
use shared_todos.Auth.OAuth.{
  Claims, TokenAnswer, Google, OAuthDraw, CallbackRequest, failed, sign_in, link, as_user, name_of,
  find_user, with_claims, verified, with_token, exchanged, bound, by_state, by_code,
  oauth_google_callback,
}

module _ ⦃e : Engine⦄ (P : Db e → Type 0) (stable : IsStable P) (c : Crypto) (g : Google)
    (settings : Settings) (d : OAuthDraw e) (hold : (db : Db e) → P db → P (d.others db)) where
  Keeps-sign_in : (user_id : ℕ) → Keeps P (sign_in c g settings d user_id)
  unfolding sign_in
  Keeps-sign_in user_id =
      Keeps-bind _ _ (Keeps-create_session P stable c _ _ _ _ _) λ token. Keeps-pure _

  Keeps-link :
      (sub : String) (user : User) (old : Option String)
      → Keeps P (link c g settings d sub user old)
  unfolding link
  Keeps-link sub user none =
      Keeps-write-then _ _
        (Keeps-meanwhile-then _ _ hold (Keeps-commit-then P stable _ (Keeps-sign_in user.id)))
  Keeps-link sub user (some old) = Keeps-sign_in user.id

  Keeps-as_user :
      (sub email name : String) (user : Option User)
      → Keeps P (as_user c g settings d sub email name user)
  unfolding as_user
  Keeps-as_user sub email name none = Keeps-write-then _ _ (
      Keeps-meanwhile-then _ _ hold (
        Keeps-commit-then P stable _ (
          Keeps-bind _ _ (Keeps-query _)
            λ found. Keeps-bind _ _ (Keeps-lift _) λ user. Keeps-sign_in user.id)))
  Keeps-as_user sub email name (some user) = Keeps-link sub user user.google_sub

  Keeps-find_user : (sub email name : String) → Keeps P (find_user c g settings d sub email name)
  unfolding find_user
  Keeps-find_user sub email name =
      Keeps-bind _ _ (Keeps-query _)
        λ found. Keeps-bind _ _ (Keeps-lift _) (Keeps-as_user sub email name)

  Keeps-with_claims : (claims : Claims) → Keeps P (with_claims c g settings d claims)
  unfolding with_claims failed
  Keeps-with_claims claims =
      Keeps-if (not claims.email_verified) (failed c g settings d) _ (Keeps-pure _) (
        Keeps-if (get_or "" claims.sub == "" || get_or "" claims.email == "")
          (failed c g settings d)
          (find_user c g settings d (get_or "" claims.sub) (get_or "" claims.email)
            (name_of (get_or "" claims.email) claims))
          (Keeps-pure _) (Keeps-find_user _ _ _))

  Keeps-verified : (r : Result Claims) → Keeps P (verified c g settings d r)
  unfolding verified failed
  Keeps-verified (ok claims) = Keeps-with_claims claims
  Keeps-verified (err (value_error x)) = Keeps-pure _
  Keeps-verified (err _) = Keeps-raise _

  Keeps-with_token : (token : Result (Option String)) → Keeps P (with_token c g settings d token)
  unfolding with_token
  Keeps-with_token (ok token) = Keeps-verified _
  Keeps-with_token (err x) = Keeps-raise _

  Keeps-exchanged : (answer : Result TokenAnswer) → Keeps P (exchanged c g settings d answer)
  unfolding exchanged failed
  Keeps-exchanged (ok answer) = Keeps-if _ _ _ (Keeps-with_token _) (Keeps-pure _)
  Keeps-exchanged (err x) = Keeps-raise _

  Keeps-bound :
      (code cookie : String) (nonce : Option String)
      → Keeps P (bound c g settings d code cookie nonce)
  unfolding bound
  Keeps-bound code cookie none = Keeps-raise _
  Keeps-bound code cookie (some nonce) =
      Keeps-raise_if-then _ _ _
        (Keeps-bind _ _ (Keeps-lift _) λ same. Keeps-raise_if-then _ _ _ (Keeps-exchanged _))

  Keeps-by_state :
      (code cookie : String) (state : Option String)
      → Keeps P (by_state c g settings d code cookie state)
  unfolding by_state
  Keeps-by_state code cookie none = Keeps-raise _
  Keeps-by_state code cookie (some state) = Keeps-bound code cookie _

  Keeps-by_code :
      (request : CallbackRequest) (code : Option String)
      → Keeps P (by_code c g settings d request code)
  unfolding by_code
  Keeps-by_code request none = Keeps-pure _
  Keeps-by_code request (some code) = Keeps-if _ _ _ (Keeps-pure _) (Keeps-by_state code _ _)

  pub Keeps-oauth_google_callback :
      (request : CallbackRequest) → Keeps P (oauth_google_callback c g settings d request)
  unfolding oauth_google_callback
  Keeps-oauth_google_callback request = Keeps-by_code request request.code
