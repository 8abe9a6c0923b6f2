-- ===== src/Db/Invariant/Accounts/Users.antt =====
-- The accounts under the writes of users.
use shared_todos.Common.{
  ℕ, String, ◌+◌, ◌≤◌, ◌≡◌, refl, ◌∙◌, Bool, true, false, not, ◌&&◌, some, ◌==◌, nat_eq, string_eq,
  option_eq, ◌≢◌, arith, is_some, ==_refl, count_split, Bool-cases, inl, inr, if◌then◌else◌, Option,
  eq_of_==, ◌||◌, and_left,
}
use shared_todos.Db.Server.{Engine, IsEngine, tally}
use shared_todos.Db.Models.{User}
use shared_todos.Db.Schema.{Db, is_user, has_email, has_auth_method, clashes_user}
use shared_todos.Db.Tally.{tally_mono, tally_none}
use shared_todos.Db.Invariant.{tally-update_same, tally-update_le}
use shared_todos.Db.Invariant.Accounts.{has_sub, is_lost, IsAccountable}

-- a test of the one or the other of two users
unpicked :
    (b : Bool) (u v : User) (q : User → Bool)
    → (not b && q (if b then u else v)) ≡ true
    → (not b && q v) ≡ true
unpicked true u v q h = h
unpicked false u v q h = h

unpicked_test :
    (b : Bool) (u v : User) (q : User → Bool)
    → (not b && q (if b then u else v)) ≡ true
    → q v ≡ true
unpicked_test true u v q h = cc
unpicked_test false u v q h = h

picked :
    (b : Bool) (u v : User) (q : User → Bool) → q u ≡ false → (b && q (if b then u else v)) ≡ false
picked true u v q h = h
picked false u v q h = refl

some-other : (sub other : String) → sub ≢ other → (some sub == some other) ≡ false
some-other sub other differ = ground arith

or_third : (a b c : Bool) → c ≡ true → (a || b || c) ≡ true
or_third a b c h = ground arith

clashes_user_of_subs :
    (sub mine theirs : Option String)
    → mine ≡ sub
    → theirs ≡ sub
    → is_some sub ≡ true
    → (is_some mine && theirs == mine) ≡ true
clashes_user_of_subs sub mine theirs p q there = rw (p, is_some) (rw q (rw there (==_refl sub)))

clashes_user_of_sub :
    (sub : String) (u v : User)
    → has_sub sub u ≡ true
    → has_sub sub v ≡ true
    → clashes_user u v ≡ true
clashes_user_of_sub sub u v mine theirs =
    or_third (v.id == u.id) (v.email == u.email)
      (is_some u.google_sub && v.google_sub == u.google_sub)
      (clashes_user_of_subs (some sub) u.google_sub v.google_sub
        (eq_of_== u.google_sub (some sub) mine) (eq_of_== v.google_sub (some sub) theirs) refl)

module _ ⦃e : Engine⦄ (laws : IsEngine e) (db : Db e) (h : IsAccountable db) where
  pub add_user-IsAccountable :
      (u : User)
      → has_auth_method u ≡ true
      → tally (clashes_user u) db.users ≡ 0
      → IsAccountable (record db { users = e.insert u db.users })
  add_user-IsAccountable u method fresh = record {
    session_ids = h.session_ids;
    reset_ids = h.reset_ids;
    shares_of_users = λ i gone. h.shares_of_users i (omega (arith, added (is_user i)));
    user_ids = λ i.
        ground (arith, added (is_user i), h.user_ids i, new (is_user u.id) (λ v k. ground arith));
    emails = λ m.
        ground
          (arith, added (has_email m), h.emails m, new (has_email u.email) (λ v k. ground arith));
    subs = λ sub. elim (Bool-cases (has_sub sub u)) [
      | inl same ↦
          omega
            (arith, only sub same, new (has_sub sub) (λ v k. clashes_user_of_sub sub u v same k))
      | inr other ↦ omega (arith, unmoved sub other, h.subs sub)
    ];
    methods = ground (arith, added is_lost, h.methods);
    session_hashes = h.session_hashes;
    reset_hashes = h.reset_hashes;
    owners = λ i gone. h.owners i (omega (arith, added (is_user i)));
    sessions_of_users = λ i gone. h.sessions_of_users i (omega (arith, added (is_user i)));
    tokens_of_users = λ i gone. h.tokens_of_users i (omega (arith, added (is_user i)));
  }
    where
      added :
          (q : User → Bool)
          → tally q (e.insert u db.users) ≡ (if q u then 1 else 0) + tally q db.users
      added q = laws.tally-insert q u db.users

      only :
          (sub : String)
          → has_sub sub u ≡ true
          → tally (has_sub sub) (e.insert u db.users) ≡ 1 + tally (has_sub sub) db.users
      only sub same = rw (added (has_sub sub)) (rw same)

      unmoved :
          (sub : String)
          → has_sub sub u ≡ false
          → tally (has_sub sub) (e.insert u db.users) ≡ tally (has_sub sub) db.users
      unmoved sub other = rw (added (has_sub sub)) (rw other (omega arith))

      new :
          (q : User → Bool)
          → ((v : User) → q v ≡ true → clashes_user u v ≡ true)
          → tally q db.users ≡ 0
      new q within = omega (arith, fresh, tally_mono q (clashes_user u) db.users within)

  -- an UPDATE of users that keeps ids and emails
  set_user-IsAccountable :
      (i : ℕ) (f : User → User)
      → ((v : User) → (f v).id ≡ v.id)
      → ((v : User) → (f v).email ≡ v.email)
      → ((sub : String) → tally (has_sub sub) (e.update (is_user i) f db.users) ≤ 1)
      → ((v : User) → has_auth_method v ≡ true → has_auth_method (f v) ≡ true)
      → IsAccountable (record db { users = e.update (is_user i) f db.users })
  set_user-IsAccountable i f id email subs method = record {
    session_ids = h.session_ids;
    reset_ids = h.reset_ids;
    shares_of_users =
        λ j gone. h.shares_of_users j (omega (arith, same (is_user j) (λ v. rw (id v) refl)));
    user_ids = λ j. omega (arith, same (is_user j) (λ v. rw (id v) refl), h.user_ids j);
    emails = λ m. omega (arith, same (has_email m) (λ v. rw (email v) refl), h.emails m);
    subs = subs;
    methods = omega (
      arith,
      h.methods,
      tally-update_le laws is_lost (is_user i) f db.users (λ v _ k. ground (arith, method v)),
    );
    session_hashes = h.session_hashes;
    reset_hashes = h.reset_hashes;
    owners = λ j gone. h.owners j (omega (arith, same (is_user j) (λ v. rw (id v) refl)));
    sessions_of_users =
        λ j gone. h.sessions_of_users j (omega (arith, same (is_user j) (λ v. rw (id v) refl)));
    tokens_of_users =
        λ j gone. h.tokens_of_users j (omega (arith, same (is_user j) (λ v. rw (id v) refl)));
  }
    where
      same :
          (q : User → Bool)
          → ((v : User) → q (f v) ≡ q v)
          → tally q (e.update (is_user i) f db.users) ≡ tally q db.users
      same q k = tally-update_same laws q (is_user i) f db.users (λ v _. k v)

  pub set_password_hash-IsAccountable :
      (i : ℕ) (hash : String) (now : ℕ)
      → IsAccountable (record db {
        users =
            e.update
              (is_user i)
              (λ u. record u { password_hash = some hash; updated_at = now })
              db.users;
      })
  set_password_hash-IsAccountable i hash now =
      set_user-IsAccountable i (λ u. record u { password_hash = some hash; updated_at = now })
        (λ v. refl) (λ v. refl)
        (λ sub. omega (
          arith,
          tally-update_same laws (has_sub sub) (is_user i)
              (λ u. record u { password_hash = some hash; updated_at = now }) db.users
              (λ v _. refl),
          h.subs sub,
        ))
        (λ v _. refl)

  pub set_google_sub-IsAccountable :
      (i : ℕ) (sub : String) (now : ℕ)
      → tally (λ v. not (v.id == i) && v.google_sub == some sub) db.users ≡ 0
      → IsAccountable (record db {
        users =
            e.update
              (is_user i)
              (λ u. record u { google_sub = some sub; updated_at = now })
              db.users;
      })
  set_google_sub-IsAccountable i sub now no_rival =
      set_user-IsAccountable i (λ u. record u { google_sub = some sub; updated_at = now })
        (λ v. refl) (λ v. refl) one_each (λ v _. ground arith)
    where
      linked : User → User
      linked u = record u { google_sub = some sub; updated_at = now }

      after : String → User → Bool
      after sub' v = has_sub sub' (if is_user i v then linked v else v)

      mine : String → User → Bool
      mine sub' v = is_user i v && after sub' v

      split :
          (sub' : String)
          → tally (has_sub sub') (e.update (is_user i) linked db.users)
            ≡ tally (mine sub') db.users + tally (λ v. not (is_user i v) && after sub' v) db.users
      split sub' =
          laws.tally-update (has_sub sub') (is_user i) linked db.users
          ∙ count_split (is_user i) (after sub') (e.select (λ _. true) db.users)

      -- the row that is linked, and a row of the same Google id
      one_each : (sub' : String) → tally (has_sub sub') (e.update (is_user i) linked db.users) ≤ 1
      one_each sub' = elim (string_eq.dec sub sub') [
        | yes same ↦ omega (
          arith,
          split sub',
          h.user_ids i,
          no_rival,
          tally_mono (mine sub') (is_user i) db.users (λ v. and_left (is_user i v) (after sub' v)),
          tally_mono (λ v. not (is_user i v) && after sub' v)
              (λ v. not (v.id == i) && v.google_sub == some sub) db.users
              (λ v k. rw same (unpicked (is_user i v) (linked v) v (has_sub sub') k)),
        )
        | no differ ↦ omega (
          arith,
          split sub',
          h.subs sub',
          tally_none (mine sub') db.users
              (λ v. picked (is_user i v) (linked v) v (has_sub sub') (some-other sub sub' differ)),
          tally_mono (λ v. not (is_user i v) && after sub' v) (has_sub sub') db.users
              (λ v k. unpicked_test (is_user i v) (linked v) v (has_sub sub') k),
        )
      ]
