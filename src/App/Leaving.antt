-- ===== src/App/Leaving.antt =====
-- A browser that logs out, and whoever has kept its cookies.
use shared_todos.Common.{
  ℕ, String, ◌≡◌, ◌≢◌, refl, ◌∙◌, true, none, some, is_ascii, string_eq, arith,
}
use shared_todos.Http.{ok, err, http}
use shared_todos.Db.{Engine, IsEngine, Session, run, run-answered, moved_to}
use shared_todos.Config.{Settings}
use shared_todos.Auth.RateLimiter
use shared_todos.Auth.Cookies.{
  Jar, session_cookie_name, csrf_cookie_name, delete_cookie, keep_cookies,
}
use shared_todos.Auth.Secrets.{Crypto}
use shared_todos.Auth.Sessions.Lifetime.{closed, invalidate_session-closed, closed-refuses}
use shared_todos.Auth.Login.{logout}
use shared_todos.Auth.OAuth.{Google}
use shared_todos.App.{Endpoint, logout_call, Draws, logged_out, cookies_of}
use shared_todos.App.Service.{endpoint, respond}
use shared_todos.App.Gate.{needs_auth, respond-call_next, endpoint-unknown}
use shared_todos.App.Browser.{visit, dispatch-visit}

-- the jar after a logout
emptied :
    (settings : Settings) (csrf_token : String) (jar : Jar)
    → keep_cookies (cookies_of settings csrf_token logged_out) jar session_cookie_name ≡ none
unfolding cookies_of keep_cookies delete_cookie string_eq
emptied settings csrf_token jar = refl

module _ ⦃e : Engine⦄ (laws : IsEngine e) (c : Crypto) (g : Google) (settings : Settings)
    (show_id : ℕ → String) (jar : Jar) (client : RateLimiter.Request) (d : Draws) (s : Session e)
    (token csrf_token : String) where
  logout-closed :
      token ≢ "" → run (logout c (some token)) s ≡ (ok tt, moved_to s (closed laws c token s))
  unfolding logout
  logout-closed there = ground (arith, there, invalidate_session-closed laws c token s)

  module _ (signed_in : jar session_cookie_name ≡ some token) (there : token ≢ "")
      (checked : jar csrf_cookie_name ≡ some csrf_token) (ascii : is_ascii csrf_token ≡ true) where
    its_logout :
        run (logout c (jar session_cookie_name)) s ≡ (ok tt, moved_to s (closed laws c token s))
    its_logout = rw signed_in (logout-closed there)

    left :
        respond c g settings show_id (visit jar client logout_call) d s
        ≡ (ok logged_out, moved_to s (closed laws c token s))
    unfolding endpoint
    left =
        respond-call_next c g settings show_id (visit jar client logout_call) d s
          (dispatch-visit show_id jar client logout_call csrf_token checked ascii)
        ∙ run-answered (λ _. logged_out) _ s its_logout

    -- A browser with a session, whose CSRF cookie is ASCII, logs out: the answer takes the session's
    -- cookie from it. Whoever has kept the cookies, and sends them at any later time, with the right
    -- CSRF header, to the lists, their items and shares, or the session's user, has a 401 for an
    -- answer and changes nothing.
    pub logout-then_request :
        (client' : RateLimiter.Request) (later : Draws) (target : Endpoint)
        → needs_auth target ≡ true
        → let (answer, s') = respond c g settings show_id (visit jar client logout_call) d s in
          (answer ≡ ok logged_out)
          × (keep_cookies (cookies_of settings d.csrf_token logged_out) jar session_cookie_name
              ≡ none)
          × (respond c g settings show_id (visit jar client' target) later s'
              ≡ (err (http 401 "Not authenticated"), s'))
    logout-then_request client' later target behind = rw left (
      refl,
      emptied settings d.csrf_token jar,
      respond-call_next c g settings show_id (visit jar client' target) later _
            (dispatch-visit show_id jar client' target csrf_token checked ascii)
          ∙ endpoint-unknown laws c g settings show_id (visit jar client' target) later _ target
              behind (rw signed_in (closed-refuses laws c token s later.now)),
    )
