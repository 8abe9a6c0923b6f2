-- ===== src/App/Single.antt =====
-- Which requests never end in MultipleResultsFound: all but the callback from Google.
use shared_todos.Common.{ℕ, String, ◌≡◌, ◌≢◌, refl, Bool, true, false, arith}
use shared_todos.Http.{err, multiple_results_found}
use shared_todos.Db.{Engine, IsEngine, Session}
use shared_todos.Db.Single.{
  Single, Single-pure, Single-raise, Single-bind, Single-answer, Single-raise_if-then,
  Single-lift-then, Single-query-then, Single-run, ambiguous,
}
use shared_todos.Db.Invariant.Sound.{IsSound, apply-IsSound}
use shared_todos.Config.{Settings}
use shared_todos.Auth.Csrf
use shared_todos.Auth.Csrf.{
  Verdict, call_next, token_missing, token_mismatch, compare_digest, dispatch,
}
use shared_todos.Auth.Secrets.{Crypto}
use shared_todos.Auth.Sessions.Keeps.{Keeps-require_auth}
use shared_todos.Auth.Sessions.Single.{Single-require_auth}
use shared_todos.Auth.Login.Single.{Single-login, Single-logout, Single-get_session_info}
use shared_todos.Auth.Register.Single.{Single-register}
use shared_todos.Auth.PasswordReset.Single.{
  Single-password_reset_request, Single-password_reset_validate, Single-password_reset_complete,
}
use shared_todos.Auth.OAuth.{Google}
use shared_todos.Lists.{list_lists}
use shared_todos.Routes.Single.{Single-create_list, Single-request}
use shared_todos.App.{
  Endpoint, health, register_call, login_call, logout_call, session_call, reset_request_call,
  reset_validate_call, reset_complete_call, google_call, callback_call, create_list_call,
  list_lists_call, list_call, Incoming, Draws,
}
use shared_todos.App.Service.{endpoint, by_verdict, handled, respond}
use shared_todos.App.Keeps.{committing-Keeps}
use shared_todos.App.Reachable.{Reachable, Reachable-IsSound}

abbrev pub is_callback : Endpoint → Bool
is_callback (callback_call code state error) = true
is_callback _ = false

-- the middleware raises nothing but a TypeError
ambiguous-dispatch : (request : Csrf.Request) → ambiguous (dispatch request) ≡ false
unfolding dispatch compare_digest
ambiguous-dispatch request = ground arith

module _ ⦃e : Engine⦄ (laws : IsEngine e) (c : Crypto) (g : Google) (settings : Settings)
    (show_id : ℕ → String) (incoming : Incoming) (d : Draws) where
  Single-endpoint :
      (target : Endpoint)
      → is_callback target ≡ false
      → Single IsSound (endpoint c g settings show_id incoming d target)
  unfolding endpoint list_lists
  Single-endpoint health n = Single-pure _
  Single-endpoint (register_call body) n = Single-raise_if-then _ _ _ refl (
      Single-answer _ _
        (Single-register laws c _ _ _ _ (committing-Keeps IsSound (apply-IsSound laws) d.others)))
  Single-endpoint (login_call body) n = Single-answer _ _ (Single-login laws c _ _ _)
  Single-endpoint logout_call n = Single-answer _ _ (Single-logout laws c _)
  Single-endpoint session_call n = Single-answer _ _ (Single-get_session_info laws c _ _)
  Single-endpoint (reset_request_call email) n =
      Single-answer _ _ (Single-password_reset_request laws c _ _ _ _ _)
  Single-endpoint (reset_validate_call token) n =
      Single-answer _ _ (Single-password_reset_validate laws c _ _)
  Single-endpoint (reset_complete_call body) n = Single-raise_if-then _ _ _ refl (
      Single-answer _ _ (
        Single-password_reset_complete laws c _ _ _ _
          (committing-Keeps IsSound (apply-IsSound laws) d.others)))
  Single-endpoint google_call n = Single-pure _
  Single-endpoint (callback_call code state error) n = cc
  Single-endpoint (create_list_call body) n =
      Single-bind _ _ (Keeps-require_auth IsSound (apply-IsSound laws) c _ _)
        (Single-require_auth laws c _ _)
        λ user.
          Single-raise_if-then _ _ _ refl (Single-answer _ _ (Single-create_list laws _ _ _ _))
  Single-endpoint list_lists_call n =
      Single-bind _ _ (Keeps-require_auth IsSound (apply-IsSound laws) c _ _)
        (Single-require_auth laws c _ _)
        λ user.
          Single-answer _ _
            (Single-query-then _ _ λ owned. Single-query-then _ _ λ shared. Single-pure _)
  Single-endpoint (list_call list_id call) n =
      Single-bind _ _ (Keeps-require_auth IsSound (apply-IsSound laws) c _ _)
        (Single-require_auth laws c _ _)
        λ user. Single-answer _ _ (
          Single-request laws call list_id user.id _
            (committing-Keeps IsSound (apply-IsSound laws) d.others))

  Single-by_verdict :
      (verdict : Verdict)
      → is_callback incoming.endpoint ≡ false
      → Single IsSound (by_verdict c g settings show_id incoming d verdict)
  unfolding by_verdict
  Single-by_verdict call_next n = Single-endpoint incoming.endpoint n
  Single-by_verdict token_missing n = Single-raise _ refl
  Single-by_verdict token_mismatch n = Single-raise _ refl

  Single-respond :
      is_callback incoming.endpoint ≡ false
      → Single IsSound (respond c g settings show_id incoming d)
  unfolding respond handled
  Single-respond n =
      Single-run (handled c g settings show_id incoming d)
        (Single-lift-then _ _ (ambiguous-dispatch _) λ verdict. Single-by_verdict verdict n)

  -- In every state that requests can lead to, no request but a callback from Google ends in the server
  -- error of a query that was to find one row and found several.
  pub respond-Reachable :
      (s : Session e)
      → is_callback incoming.endpoint ≡ false
      → Reachable c g settings show_id s
      → (respond c g settings show_id incoming d s).0 ≢ err multiple_results_found
  respond-Reachable s n r twice =
      let single = (Single-respond n).at s (Reachable-IsSound laws c g settings show_id s r) in
      ground (arith, single, twice)
