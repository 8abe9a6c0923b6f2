-- ===== src/Auth/RateLimiter.antt =====
-- app/auth/rate_limiter.py: failed logins by address. A time is a number of seconds.
pub mod Window
use shared_todos.Common.{
  ℕ, ◌+◌, String, ◌≡◌, Bool, true, false, ◌||◌, ◌&&◌, Option, none, some, List, [], ◌∷◌, ◌++◌, ◌==◌,
  string_eq, nat_eq, ltb, leb, keep, length, if◌then◌else◌, char_code, before,
}
use shared_todos.Http.{too_many_requests, Result, ok, err, http}
use shared_todos.Config.{Settings}

-- `_store`
abbrev pub Store : Type 0
Store = List (String × List ℕ)

-- `_store.get(ip, [])`
unfoldable pub get : String → Store → List ℕ
get ip [] = []
get ip ((j, attempts) ∷ store) = if j == ip then attempts else get ip store

-- `_store[ip] = …`
unfoldable pub put : String → List ℕ → Store → Store
put ip attempts [] = (ip, attempts) ∷ []
put ip attempts ((j, old) ∷ store) =
    if j == ip then (j, attempts) ∷ store else (j, old) ∷ put ip attempts store

-- `_store.pop(ip, None)`
unfoldable pub pop : String → Store → Store
pop ip [] = []
pop ip ((j, old) ∷ store) = let rest = pop ip store in if j == ip then rest else (j, old) ∷ rest

pub record Request : Type 0 where
  pub forwarded_for : Option String
  pub client_host : Option String

-- `str.isspace` on the characters that a header can hold
abbrev is_space : ℕ → Bool
is_space c = leb 9 c && leb c 13 || leb 28 c && leb c 32 || c == 133 || c == 160

abbrev lstrip : String → String
lstrip String.[] = String.[]
lstrip (String.◌∷◌ c s) =
    let rest = lstrip s in if is_space (char_code c) then rest else String.◌∷◌ c s

abbrev rstrip : String → String
rstrip String.[] = String.[]
rstrip (String.◌∷◌ c s) =
    let rest = rstrip s in
    if rest == "" && is_space (char_code c) then String.[] else String.◌∷◌ c rest

abbrev or_unknown : Option String → String
or_unknown none = "unknown"
or_unknown (some host) = host

-- `forwarded.split(",")[0].strip()`: a comma is 44
abbrev forwarded_or : Option String → String → String
forwarded_or none host = host
forwarded_or (some forwarded) host =
    if forwarded == "" then host else rstrip (lstrip (before 44 forwarded))

unfoldable pub client_ip : Bool → Request → String
client_ip false request = or_unknown request.client_host
client_ip true request = forwarded_or request.forwarded_for (or_unknown request.client_host)

-- `now - t < window`
abbrev pub within : ℕ → ℕ → ℕ → Bool
within window now t = ltb now (t + window)

unfoldable pub record_failed_login : Settings → String → ℕ → Store → Store
record_failed_login settings ip now store =
    put ip (keep (within settings.rate_limit_login_window_seconds now) (get ip store) ++ now ∷ [])
      store

unfoldable pub check_login_rate_limit : Settings → String → ℕ → Store → Result (Unit {0})
check_login_rate_limit settings ip now store =
    let recent = keep (within settings.rate_limit_login_window_seconds now) (get ip store) in
    if leb settings.rate_limit_login_attempts (length recent)
    then err (
        too_many_requests "Too many failed login attempts. Please try again later."
          settings.rate_limit_login_window_seconds)
    else ok tt

unfoldable pub reset_failed_logins : String → Store → Store
reset_failed_logins = pop
