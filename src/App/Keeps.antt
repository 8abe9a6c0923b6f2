-- ===== src/App/Keeps.antt =====
-- What every accepted write keeps, every request to the application keeps.
use shared_todos.Common.{ℕ, String, List, arith}
use shared_todos.Db.{Engine, Db, Write}
use shared_todos.Db.Keeps.{
  Keeps, Keeps-bind, Keeps-raise_if-then, Keeps-lift, Keeps-pure, Keeps-raise, Keeps-run,
  keeps_rules, IsStable, apply_all-Ensures,
}
use shared_todos.Config.{Settings}
use shared_todos.Auth.Csrf.{Verdict, call_next, token_missing, token_mismatch}
use shared_todos.Auth.Secrets.{Crypto}
use shared_todos.Auth.Sessions.Keeps.{Keeps-require_auth}
use shared_todos.Auth.Login.Keeps.{Keeps-login, Keeps-logout, Keeps-get_session_info}
use shared_todos.Auth.Register.Keeps.{Keeps-register}
use shared_todos.Auth.PasswordReset.Keeps.{
  Keeps-password_reset_request, Keeps-password_reset_validate, Keeps-password_reset_complete,
}
use shared_todos.Auth.OAuth.{Google}
use shared_todos.Auth.OAuth.Keeps.{Keeps-oauth_google_callback}
use shared_todos.Lists.{list_lists}
use shared_todos.Routes.Keeps.{Keeps-create_list, Keeps-request}
use shared_todos.App.{
  Endpoint, health, register_call, login_call, logout_call, session_call, reset_request_call,
  reset_validate_call, reset_complete_call, google_call, callback_call, create_list_call,
  list_lists_call, list_call, Incoming, Draws,
}
use shared_todos.App.Service.{committing, endpoint, by_verdict, handled, respond}

module _ ⦃e : Engine⦄ (P : Db e → Type 0) (stable : IsStable P) where
  pub committing-Keeps : (ws : List Write) (db : Db e) → P db → P (committing ws db)
  committing-Keeps ws db h = ground (arith, apply_all-Ensures P stable ws db h)

module _ ⦃e : Engine⦄ (P : Db e → Type 0) (stable : IsStable P) (c : Crypto) (g : Google)
    (settings : Settings) (show_id : ℕ → String) (incoming : Incoming) (d : Draws) where
  Keeps-endpoint : (target : Endpoint) → Keeps P (endpoint c g settings show_id incoming d target)
  unfolding endpoint list_lists
  Keeps-endpoint health = Keeps-pure _
  Keeps-endpoint (register_call body) = Keeps-raise_if-then _ _ _ (
      Keeps-bind _ _ (Keeps-register P stable c _ _ _ _ (committing-Keeps P stable d.others))
        λ answer. Keeps-pure _)
  Keeps-endpoint (login_call body) =
      Keeps-bind _ _ (Keeps-login P stable c _ _ _) λ answer. Keeps-pure _
  Keeps-endpoint logout_call = Keeps-bind _ _ (Keeps-logout P stable c _) λ _. Keeps-pure _
  Keeps-endpoint session_call =
      Keeps-bind _ _ (Keeps-get_session_info P stable c _ _) λ user. Keeps-pure _
  Keeps-endpoint (reset_request_call email) =
      Keeps-bind _ _ (Keeps-password_reset_request P stable c _ _ _ _ _) λ mail. Keeps-pure _
  Keeps-endpoint (reset_validate_call token) =
      Keeps-bind _ _ (Keeps-password_reset_validate P stable c _ _) λ valid. Keeps-pure _
  Keeps-endpoint (reset_complete_call body) = Keeps-raise_if-then _ _ _ (
      Keeps-bind _ _
        (Keeps-password_reset_complete P stable c _ _ _ _ (committing-Keeps P stable d.others))
        λ _. Keeps-pure _)
  Keeps-endpoint google_call = Keeps-pure _
  Keeps-endpoint (callback_call code state error) =
      Keeps-bind _ _
        (Keeps-oauth_google_callback P stable c g _ _ (committing-Keeps P stable d.others) _)
        λ redirect. Keeps-pure _
  Keeps-endpoint (create_list_call body) =
      Keeps-bind _ _ (Keeps-require_auth P stable c _ _) λ user.
        Keeps-raise_if-then _ _ _
          (Keeps-bind _ _ (Keeps-create_list P stable _ _ _ _) λ lst. Keeps-pure _)
  Keeps-endpoint list_lists_call =
      Keeps-bind _ _ (Keeps-require_auth P stable c _ _)
        λ user. Keeps-bind _ _ (search keeps_rules) λ lists. Keeps-pure _
  Keeps-endpoint (list_call list_id call) =
      Keeps-bind _ _ (Keeps-require_auth P stable c _ _) λ user.
        Keeps-bind _ _
          (Keeps-request P stable call list_id user.id _ (committing-Keeps P stable d.others))
          λ response. Keeps-pure _

  Keeps-by_verdict :
      (verdict : Verdict) → Keeps P (by_verdict c g settings show_id incoming d verdict)
  unfolding by_verdict
  Keeps-by_verdict call_next = Keeps-endpoint incoming.endpoint
  Keeps-by_verdict token_missing = Keeps-raise _
  Keeps-by_verdict token_mismatch = Keeps-raise _

  pub Keeps-respond : Keeps P (respond c g settings show_id incoming d)
  unfolding respond handled
  Keeps-respond =
      Keeps-run (handled c g settings show_id incoming d)
        (Keeps-bind _ _ (Keeps-lift _) Keeps-by_verdict)
