-- ===== src/App/Reachable.antt =====
-- Whatever requests come, in whatever order, the database of app/models keeps its promises.
use shared_todos.Common.{ℕ, String, ◌≡◌, Bool, List, arith}
use shared_todos.Db.{
  Engine, IsEngine, tally, User, ListRow, Item, Share, SessionRow, PasswordResetToken, Db, Session,
  Write,
}
use shared_todos.Db.Invariant.Sound.{IsSound, apply-IsSound}
use shared_todos.Config.{Settings}
use shared_todos.Auth.Secrets.{Crypto}
use shared_todos.Auth.OAuth.{Google}
use shared_todos.App.{Incoming, Draws}
use shared_todos.App.Service.{committing, respond}
use shared_todos.App.Keeps.{committing-Keeps, Keeps-respond}

module _ ⦃e : Engine⦄ where
  -- a database that the migrations have just made
  pub record IsEmpty (db : Db e) : Type 0 where
    pub users : (p : User → Bool) → tally p db.users ≡ 0
    pub lists : (p : ListRow → Bool) → tally p db.lists ≡ 0
    pub items : (p : Item → Bool) → tally p db.items ≡ 0
    pub shares : (p : Share → Bool) → tally p db.shares ≡ 0
    pub sessions : (p : SessionRow → Bool) → tally p db.sessions ≡ 0
    pub reset_tokens : (p : PasswordResetToken → Bool) → tally p db.reset_tokens ≡ 0

  IsEmpty-IsSound : (db : Db e) → IsEmpty db → IsSound db
  IsEmpty-IsSound db h = record {
    consistent = record {
      list_ids = λ i. omega (arith, h.lists _);
      item_ids = λ i. omega (arith, h.items _);
      share_keys = λ l u. omega (arith, h.shares _);
      roles = h.shares _;
      lists_of_items = λ i _. h.items _;
      lists_of_shares = λ i _. h.shares _;
    };
    accountable = record {
      user_ids = λ i. omega (arith, h.users _);
      emails = λ m. omega (arith, h.users _);
      subs = λ m. omega (arith, h.users _);
      methods = h.users _;
      session_hashes = λ m. omega (arith, h.sessions _);
      reset_hashes = λ m. omega (arith, h.reset_tokens _);
      owners = λ i _. h.lists _;
      sessions_of_users = λ i _. h.sessions _;
      tokens_of_users = λ i _. h.reset_tokens _;
      session_ids = λ i. omega (arith, h.sessions _);
      reset_ids = λ i. omega (arith, h.reset_tokens _);
      shares_of_users = λ i _. h.shares _;
    };
  }

module _ ⦃e : Engine⦄ (c : Crypto) (g : Google) (settings : Settings) (show_id : ℕ → String) where
  -- the states that a server can be in after the requests that came
  pub data Reachable : Session e → Type 0 where
    deployed : (s : Session e) → IsEmpty s.db → Reachable s
    answered :
        (incoming : Incoming) (d : Draws) (s : Session e)
        → Reachable s
        → Reachable (respond c g settings show_id incoming d s).1
    -- what other processes write
    elsewhere :
        (ws : List Write) (s : Session e)
        → Reachable s
        → Reachable (record s { db = committing ws s.db })

module _ ⦃e : Engine⦄ (laws : IsEngine e) (c : Crypto) (g : Google) (settings : Settings)
    (show_id : ℕ → String) where
  -- From an empty database, after any requests with any headers, cookies and bodies, and any writes
  -- that other processes have the server accept in between: the ids of users, lists, items, sessions
  -- and reset tokens, the emails, Google ids and token hashes are unique, every user can sign in
  -- somehow, roles are valid, a user has at most one share of a list, and what a row refers to is
  -- there: the owner of a list, the list of an item, the list and the user of a share, the user of a
  -- session or a reset token.
  pub Reachable-IsSound : (s : Session e) → Reachable c g settings show_id s → IsSound s.db
  Reachable-IsSound _ (deployed s h) = IsEmpty-IsSound s.db h
  Reachable-IsSound _ (answered incoming d s r) =
      (Keeps-respond IsSound (apply-IsSound laws) c g settings show_id incoming d).at s
        (Reachable-IsSound s r)
  Reachable-IsSound _ (elsewhere ws s r) =
      committing-Keeps IsSound (apply-IsSound laws) ws s.db (Reachable-IsSound s r)
