-- ===== src/Auth.antt =====
-- app/auth: who a caller is.
pub mod RateLimiter
pub mod Csrf
pub mod Secrets
pub mod Email
pub mod Cookies
pub mod Sessions
pub mod Login
pub mod Register
pub mod PasswordReset
pub mod OAuth
pub mod Sample
mod Tests
