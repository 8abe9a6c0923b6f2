-- ===== src/Auth/Email.antt =====
-- app/auth/email.py: what is handed to the mail server.
use shared_todos.Common.{ℕ, String, Bool, false, str_append}
use shared_todos.Config.{Settings}

-- an `EmailMessage`, and the arguments of `aiosmtplib.send`
pub record Outgoing : Type 0 where
  pub sender : String
  pub to_email : String
  pub subject : String
  pub content : String
  pub hostname : String
  pub port : ℕ
  pub start_tls : Bool

abbrev pub reset_url : Settings → String → String
reset_url settings token =
    str_append settings.frontend_url (str_append "/reset-password?token=" token)

unfoldable pub send_password_reset_email : Settings → String → String → Outgoing
send_password_reset_email settings to_email token = record {
  sender = "noreply@shared-todos.local";
  to_email = to_email;
  subject = "Reset your password";
  content =
      str_append
        "Click the link below to reset your password. This link expires in 1 hour and can only be used once.\n\n"
        (str_append (reset_url settings token) "\n");
  hostname = settings.smtp_host;
  port = settings.smtp_port;
  start_tls = false;
}
