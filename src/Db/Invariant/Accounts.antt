-- ===== src/Db/Invariant/Accounts.antt =====
-- What the schema promises of users, and of the lists, sessions and reset tokens that are theirs.
pub mod Users
use shared_todos.Common.{
  ℕ, String, ◌+◌, ◌≤◌, ◌≡◌, refl, ◌∙◌, Bool, true, false, not, ◌&&◌, some, ◌==◌, nat_eq, string_eq,
  option_eq, ◌≢◌, arith, is_some, ==_refl, count_split, Bool-cases, inl, inr, if◌then◌else◌, Option,
  eq_of_==, ◌||◌, and_left,
}
use shared_todos.Db.Server.{Engine, IsEngine, tally}
use shared_todos.Db.Models.{User, ListRow, SessionRow, PasswordResetToken, Item, Share}
use shared_todos.Db.Schema.{
  Db, is_user, has_email, has_token_hash, has_auth_method, clashes_user, clashes_session,
  clashes_reset_token,
}
use shared_todos.Db.Tally.{tally_mono, tally_none}
use shared_todos.Db.Invariant.{tally-update_same, tally-update_le, tally-delete_le}

abbrev pub has_sub : String → User → Bool
has_sub sub u = u.google_sub == some sub

abbrev pub is_lost : User → Bool
is_lost u = not (has_auth_method u)

module _ ⦃e : Engine⦄ where
  -- Ids, emails, Google ids and token hashes are unique, every user can sign in somehow, and what
  -- refers to a user refers to one that is there.
  pub record IsAccountable (db : Db e) : Type 0 where
    pub user_ids : (i : ℕ) → tally (is_user i) db.users ≤ 1
    pub emails : (email : String) → tally (has_email email) db.users ≤ 1
    pub subs : (sub : String) → tally (has_sub sub) db.users ≤ 1
    pub methods : tally is_lost db.users ≡ 0
    pub session_hashes : (hash : String) → tally (has_token_hash hash) db.sessions ≤ 1
    pub reset_hashes : (hash : String) → tally (λ t. t.token_hash == hash) db.reset_tokens ≤ 1
    pub owners :
        (i : ℕ) → tally (is_user i) db.users ≡ 0 → tally (λ l. l.owner_id == i) db.lists ≡ 0
    pub sessions_of_users :
        (i : ℕ) → tally (is_user i) db.users ≡ 0 → tally (λ s. s.user_id == i) db.sessions ≡ 0
    pub tokens_of_users :
        (i : ℕ) → tally (is_user i) db.users ≡ 0 → tally (λ t. t.user_id == i) db.reset_tokens ≡ 0
    pub session_ids : (i : ℕ) → tally (λ s. s.id == i) db.sessions ≤ 1
    pub reset_ids : (i : ℕ) → tally (λ t. t.id == i) db.reset_tokens ≤ 1
    pub shares_of_users :
        (i : ℕ) → tally (is_user i) db.users ≡ 0 → tally (λ s. s.user_id == i) db.shares ≡ 0

module _ ⦃e : Engine⦄ (laws : IsEngine e) (db : Db e) (h : IsAccountable db) where
  pub add_list-IsAccountable :
      (l : ListRow)
      → tally (is_user l.owner_id) db.users ≢ 0
      → IsAccountable (record db { lists = e.insert l db.lists })
  add_list-IsAccountable l known = record {
    session_ids = h.session_ids;
    reset_ids = h.reset_ids;
    shares_of_users = h.shares_of_users;
    user_ids = h.user_ids;
    emails = h.emails;
    subs = h.subs;
    methods = h.methods;
    session_hashes = h.session_hashes;
    sessions_of_users = h.sessions_of_users;
    reset_hashes = h.reset_hashes;
    tokens_of_users = h.tokens_of_users;
    owners = λ i gone.
        ground (arith, laws.tally-insert (λ x. x.owner_id == i) l db.lists, h.owners i gone, known);
  }

  pub keep_lists-IsAccountable :
      (lists : e.Table ListRow) (items : e.Table Item) (shares : e.Table Share)
      → ((i : ℕ) → tally (λ l. l.owner_id == i) lists ≤ tally (λ l. l.owner_id == i) db.lists)
      → ((i : ℕ) → tally (λ s. s.user_id == i) shares ≤ tally (λ s. s.user_id == i) db.shares)
      → IsAccountable (record db { lists = lists; items = items; shares = shares })
  keep_lists-IsAccountable lists items shares less fewer = record {
    session_ids = h.session_ids;
    reset_ids = h.reset_ids;
    shares_of_users = λ i gone. omega (arith, fewer i, h.shares_of_users i gone);
    user_ids = h.user_ids;
    emails = h.emails;
    subs = h.subs;
    methods = h.methods;
    session_hashes = h.session_hashes;
    sessions_of_users = h.sessions_of_users;
    reset_hashes = h.reset_hashes;
    tokens_of_users = h.tokens_of_users;
    owners = λ i gone. omega (arith, less i, h.owners i gone);
  }

  pub add_session-IsAccountable :
      (s : SessionRow)
      → tally (clashes_session s) db.sessions ≡ 0
      → tally (is_user s.user_id) db.users ≢ 0
      → IsAccountable (record db { sessions = e.insert s db.sessions })
  add_session-IsAccountable s fresh known = record {
    session_ids = λ i. ground (
      arith,
      laws.tally-insert (λ v. v.id == i) s db.sessions,
      h.session_ids i,
      fresh,
      tally_mono (λ v. v.id == s.id) (clashes_session s) db.sessions (λ v k. ground arith),
    );
    reset_ids = h.reset_ids;
    shares_of_users = h.shares_of_users;
    user_ids = h.user_ids;
    emails = h.emails;
    subs = h.subs;
    methods = h.methods;
    owners = h.owners;
    reset_hashes = h.reset_hashes;
    tokens_of_users = h.tokens_of_users;
    session_hashes = λ hash. ground (
      arith,
      laws.tally-insert (has_token_hash hash) s db.sessions,
      h.session_hashes hash,
      fresh,
      tally_mono (has_token_hash s.token_hash) (clashes_session s) db.sessions
          (λ v k. ground arith),
    );
    sessions_of_users = λ i gone. ground (
      arith,
      laws.tally-insert (λ v. v.user_id == i) s db.sessions,
      h.sessions_of_users i gone,
      known,
    );
  }

  pub delete_sessions-IsAccountable :
      (p : SessionRow → Bool) → IsAccountable (record db { sessions = e.delete p db.sessions })
  delete_sessions-IsAccountable p = record {
    session_ids =
        λ i. omega (arith, tally-delete_le laws (λ v. v.id == i) p db.sessions, h.session_ids i);
    reset_ids = h.reset_ids;
    shares_of_users = h.shares_of_users;
    user_ids = h.user_ids;
    emails = h.emails;
    subs = h.subs;
    methods = h.methods;
    owners = h.owners;
    reset_hashes = h.reset_hashes;
    tokens_of_users = h.tokens_of_users;
    session_hashes = λ hash.
        omega
          (arith, tally-delete_le laws (has_token_hash hash) p db.sessions, h.session_hashes hash);
    sessions_of_users = λ i gone. omega (
      arith,
      tally-delete_le laws (λ v. v.user_id == i) p db.sessions,
      h.sessions_of_users i gone,
    );
  }

  pub add_reset_token-IsAccountable :
      (t : PasswordResetToken)
      → tally (clashes_reset_token t) db.reset_tokens ≡ 0
      → tally (is_user t.user_id) db.users ≢ 0
      → IsAccountable (record db { reset_tokens = e.insert t db.reset_tokens })
  add_reset_token-IsAccountable t fresh known = record {
    session_ids = h.session_ids;
    reset_ids = λ i. ground (
      arith,
      laws.tally-insert (λ v. v.id == i) t db.reset_tokens,
      h.reset_ids i,
      fresh,
      tally_mono (λ v. v.id == t.id) (clashes_reset_token t) db.reset_tokens (λ v k. ground arith),
    );
    shares_of_users = h.shares_of_users;
    user_ids = h.user_ids;
    emails = h.emails;
    subs = h.subs;
    methods = h.methods;
    owners = h.owners;
    session_hashes = h.session_hashes;
    sessions_of_users = h.sessions_of_users;
    reset_hashes = λ hash. ground (
      arith,
      laws.tally-insert (λ v. v.token_hash == hash) t db.reset_tokens,
      h.reset_hashes hash,
      fresh,
      tally_mono (λ v. v.token_hash == t.token_hash) (clashes_reset_token t) db.reset_tokens
          (λ v k. ground arith),
    );
    tokens_of_users = λ i gone. ground (
      arith,
      laws.tally-insert (λ v. v.user_id == i) t db.reset_tokens,
      h.tokens_of_users i gone,
      known,
    );
  }

  -- a share of a user that is there
  pub add_share-IsAccountable :
      (s : Share)
      → tally (is_user s.user_id) db.users ≢ 0
      → IsAccountable (record db { shares = e.insert s db.shares })
  add_share-IsAccountable s known = record {
    user_ids = h.user_ids;
    emails = h.emails;
    subs = h.subs;
    methods = h.methods;
    owners = h.owners;
    session_hashes = h.session_hashes;
    sessions_of_users = h.sessions_of_users;
    reset_hashes = h.reset_hashes;
    tokens_of_users = h.tokens_of_users;
    session_ids = h.session_ids;
    reset_ids = h.reset_ids;
    shares_of_users = λ i gone. ground (
      arith,
      laws.tally-insert (λ v. v.user_id == i) s db.shares,
      h.shares_of_users i gone,
      known,
    );
  }

  pub set_used_at-IsAccountable :
      (i now : ℕ)
      → IsAccountable (record db {
        reset_tokens =
            e.update (λ t. t.id == i) (λ t. record t { used_at = some now }) db.reset_tokens;
      })
  set_used_at-IsAccountable i now = record {
    session_ids = h.session_ids;
    reset_ids = λ j. omega (arith, same (λ t. t.id == j) (λ t. refl), h.reset_ids j);
    shares_of_users = h.shares_of_users;
    user_ids = h.user_ids;
    emails = h.emails;
    subs = h.subs;
    methods = h.methods;
    owners = h.owners;
    session_hashes = h.session_hashes;
    sessions_of_users = h.sessions_of_users;
    reset_hashes =
        λ hash. omega (arith, same (λ t. t.token_hash == hash) (λ t. refl), h.reset_hashes hash);
    tokens_of_users = λ u gone. same (λ t. t.user_id == u) (λ t. refl) ∙ h.tokens_of_users u gone;
  }
    where
      same :
          (q : PasswordResetToken → Bool)
          → ((t : PasswordResetToken) → q (record t { used_at = some now }) ≡ q t)
          → tally q
              (e.update (λ t. t.id == i) (λ t. record t { used_at = some now }) db.reset_tokens)
            ≡ tally q db.reset_tokens
      same q k =
          tally-update_same laws q (λ t. t.id == i) (λ t. record t { used_at = some now })
            db.reset_tokens (λ t _. k t)
