-- ===== src/Auth/Register.antt =====
-- app/auth/router.py: register. The answer carries the body and the session token of the cookie.
pub mod Outcomes
pub mod Keeps
pub mod Single
pub mod Race
use shared_todos.Common.{
  ℕ, String, Bool, true, false, Option, none, some, List, [], ◌∷◌, leb, str_length, before, ◌==◌,
  string_eq, nat_eq,
}
use shared_todos.Http.{Result, ok, err}
use shared_todos.Db.{
  Engine, User, Db, is_user, has_email, add_user, Session, Tx, ◌>>=◌, ◌>>◌, pure, lift, query,
  write, meanwhile, commit, scalar_one_or_none, scalar_one,
}
use shared_todos.Config.{Settings}
use shared_todos.Auth.Secrets.{Crypto, hash_password}
use shared_todos.Auth.Sessions.{create_session}
use shared_todos.Auth.Login.{UserOut, user_out}

pub record RegisterRequest : Type 0 where
  pub email : String
  pub password : String

-- `Field(min_length=12)`; that the email is one is the schema's library to say
unfoldable pub RegisterRequest_accepts : RegisterRequest → Bool
RegisterRequest_accepts body = leb 12 (str_length body.password)

pub record Registered : Type 0 where
  pub user : Option UserOut
  pub message : String
  pub session : String

-- What a registration draws: the id of the user and of the session, a salt, the token, the time.
pub record RegisterDraw : Type 0 where
  pub user_id : ℕ
  pub session_id : ℕ
  pub salt : String
  pub raw_token : String
  pub now : ℕ

module _ ⦃e : Engine⦄ (c : Crypto) (settings : Settings) (body : RegisterRequest)
    (d : RegisterDraw) where
  abbrev pub new_user : User
  new_user = record {
    id = d.user_id;
    email = body.email;
    -- `body.email.split("@")[0]`
    display_name = before 64 body.email;
    password_hash = some (hash_password c d.salt body.password);
    google_sub = none;
    created_at = d.now;
    updated_at = d.now;
  }

  -- `others` is what other requests commit between the look for the email and the commit.
  register_new : (Db e → Db e) → Tx e Registered
  register_new others = do
    write (add_user new_user)
    meanwhile others
    commit
    found ← query (λ db. e.select (is_user d.user_id) db.users)
    user ← lift (scalar_one found)
    token ← create_session c user.id settings.session_ttl_days d.raw_token d.session_id d.now
    pure (record {
      user = some (user_out user);
      message = "Account created successfully.";
      session = token;
    })

  -- the answer for an email that is taken, whose cookie is a token of no session
  decoy : Tx e Registered
  decoy = pure (record {
    user = none;
    message = "If this email is available, your account has been created.";
    session = d.raw_token;
  })

  by_existing : (Db e → Db e) → Option User → Tx e Registered
  by_existing others none = register_new others
  by_existing others (some user) = decoy

  unfoldable pub register : (Db e → Db e) → Tx e Registered
  unfolding by_existing decoy register_new
  register others = do
    found ← query (λ db. e.select (has_email body.email) db.users)
    existing ← lift (scalar_one_or_none found)
    by_existing others existing
