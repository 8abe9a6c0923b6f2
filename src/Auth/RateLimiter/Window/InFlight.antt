-- ===== src/Auth/RateLimiter/Window/InFlight.antt =====
-- How many passwords an address can try when its logins overlap: app/auth/router.py asks the limiter
-- before it looks the account up, and records the failure after that. In between, other logins run.
use shared_todos.Common.{
  ℕ, suc, ◌+◌, ◌≤◌, ◌<◌, String, ◌≡◌, refl, true, false, List, [], ◌∷◌, ◌==◌, string_eq, count,
  count_mono, count-append, arith, ==_refl,
}
use shared_todos.Config.{Settings, fields_accept}
use shared_todos.Auth.RateLimiter.{Store, get, within}
use shared_todos.Auth.RateLimiter.Window.{
  Event, failed, succeeded, time, apply_event, Agrees, after, apply_event-Agrees,
}
use shared_todos.Auth.RateLimiter.Window.Guesses.{address, let_through, span, room, later-Agrees}

-- The limiter, with two things about one address that it does not store: how many of its logins are
-- past the check and not yet recorded, and the times of its wrong passwords since it last logged in.
pub record Traffic : Type 0 where
  pub store : Store
  pub waiting : ℕ
  pub wrong : List ℕ

-- What can happen to the limiter by a time, when an address never has more than `most` logins
-- between the check and the record.
pub data Overlapping (settings : Settings) (ip : String) (most : ℕ) : ℕ → Traffic → Type 0 where
  idle : Overlapping settings ip most 0 (record { store = []; waiting = 0; wrong = [] })
  begins :
      {now waiting : ℕ} {store : Store} {wrong : List ℕ} (t : ℕ)
      → now ≤ t
      → waiting < most
      → let_through settings (failed ip t) store ≡ true
      → Overlapping settings ip most now
          (record { store = store; waiting = waiting; wrong = wrong })
      → Overlapping settings ip most t
          (record { store = store; waiting = suc waiting; wrong = wrong })
  fails :
      {now waiting : ℕ} {store : Store} {wrong : List ℕ} (t : ℕ)
      → now ≤ t
      → Overlapping settings ip most now
          (record { store = store; waiting = suc waiting; wrong = wrong })
      → Overlapping settings ip most t (record {
        store = apply_event settings (failed ip t) store;
        waiting = waiting;
        wrong = after settings ip (failed ip t) wrong;
      })
  succeeds :
      {now waiting : ℕ} {store : Store} {wrong : List ℕ} (t : ℕ)
      → now ≤ t
      → Overlapping settings ip most now
          (record { store = store; waiting = suc waiting; wrong = wrong })
      → Overlapping settings ip most t (record {
        store = apply_event settings (succeeded ip t) store;
        waiting = waiting;
        wrong = after settings ip (succeeded ip t) wrong;
      })
  -- the request ends in another error, which records nothing
  raises :
      {now waiting : ℕ} {store : Store} {wrong : List ℕ} (t : ℕ)
      → now ≤ t
      → Overlapping settings ip most now
          (record { store = store; waiting = suc waiting; wrong = wrong })
      → Overlapping settings ip most t (record { store = store; waiting = waiting; wrong = wrong })
  elsewhere :
      {now waiting : ℕ} {store : Store} {wrong : List ℕ} (ev : Event)
      → now ≤ time ev
      → (address ev == ip) ≡ false
      → Overlapping settings ip most now
          (record { store = store; waiting = waiting; wrong = wrong })
      → Overlapping settings ip most (time ev) (record {
        store = apply_event settings ev store;
        waiting = waiting;
        wrong = after settings ip ev wrong;
      })

module _ (settings : Settings) (ip : String) (most : ℕ) where
  abbrev pub most_wrong : ℕ
  most_wrong = settings.rate_limit_login_attempts + most

  -- a login that waits still has a place in every window that is not over
  pub record IsRoomy (now : ℕ) (s : Traffic) : Type 0 where
    pub agrees : Agrees settings ip now s.store s.wrong
    few : s.waiting ≤ most
    bound : (a : ℕ) → count (span settings a) s.wrong < most_wrong
    place :
        (a : ℕ)
        → now < a + settings.rate_limit_login_window_seconds
        → count (span settings a) s.wrong + s.waiting < most_wrong

  -- a window that is open at `t` holds no more than the limiter counts at `t`
  open_le :
      (a t : ℕ) (ts : List ℕ)
      → t < a + settings.rate_limit_login_window_seconds
      → count (span settings a) ts ≤ count (within settings.rate_limit_login_window_seconds t) ts
  open_le a t ts h = count_mono _ _ ts λ u k. ground arith

  module _ (now t : ℕ) (later : now ≤ t) (store : Store) (waiting : ℕ) (wrong : List ℕ) where
    begins-IsRoomy :
        waiting < most
        → let_through settings (failed ip t) store ≡ true
        → IsRoomy now (record { store = store; waiting = waiting; wrong = wrong })
        → IsRoomy t (record { store = store; waiting = suc waiting; wrong = wrong })
    begins-IsRoomy h through r = record {
      agrees = later-Agrees settings ip now t store wrong later r.agrees;
      few = omega (arith, h);
      bound = r.bound;
      place = λ a k. omega (
        arith,
        h,
        open_le a t wrong k,
        room settings ip t store wrong (later-Agrees settings ip now t store wrong later r.agrees)
            through,
      );
    }

    fails-IsRoomy :
        IsRoomy now (record { store = store; waiting = suc waiting; wrong = wrong })
        → IsRoomy t (record {
          store = apply_event settings (failed ip t) store;
          waiting = waiting;
          wrong = after settings ip (failed ip t) wrong;
        })
    fails-IsRoomy r = record {
      agrees = apply_event-Agrees settings ip (failed ip t) now store wrong later r.agrees;
      few = omega (arith, r.few);
      bound = λ a.
          ground (
            arith,
            ==_refl ip,
            count-append (span settings a) wrong (t ∷ []),
            r.bound a,
            r.place a,
          );
      place = λ a k. ground (
        arith,
        ==_refl ip,
        count-append (span settings a) wrong (t ∷ []),
        r.place a (omega (arith, k)),
      );
    }

    raises-IsRoomy :
        IsRoomy now (record { store = store; waiting = suc waiting; wrong = wrong })
        → IsRoomy t (record { store = store; waiting = waiting; wrong = wrong })
    raises-IsRoomy r = record {
      agrees = later-Agrees settings ip now t store wrong later r.agrees;
      few = omega (arith, r.few);
      bound = r.bound;
      place = λ a k. omega (arith, r.place a (omega (arith, k, later)));
    }

    succeeds-IsRoomy :
        IsRoomy now (record { store = store; waiting = suc waiting; wrong = wrong })
        → IsRoomy t (record {
          store = apply_event settings (succeeded ip t) store;
          waiting = waiting;
          wrong = after settings ip (succeeded ip t) wrong;
        })
    succeeds-IsRoomy r = record {
      agrees = apply_event-Agrees settings ip (succeeded ip t) now store wrong later r.agrees;
      few = omega (arith, r.few);
      bound = λ a. ground (arith, ==_refl ip, r.few);
      place = λ a k. ground (arith, ==_refl ip, r.few);
    }

  elsewhere-IsRoomy :
      (now : ℕ) (ev : Event) (store : Store) (waiting : ℕ) (wrong : List ℕ)
      → now ≤ time ev
      → (address ev == ip) ≡ false
      → IsRoomy now (record { store = store; waiting = waiting; wrong = wrong })
      → IsRoomy (time ev) (record {
        store = apply_event settings ev store;
        waiting = waiting;
        wrong = after settings ip ev wrong;
      })
  elsewhere-IsRoomy now (failed j t) store waiting wrong h other r = record {
    agrees = apply_event-Agrees settings ip (failed j t) now store wrong h r.agrees;
    few = r.few;
    bound = λ a. ground (arith, other, r.bound a);
    place = λ a k. ground (arith, other, r.place a (omega (arith, k)));
  }
  elsewhere-IsRoomy now (succeeded j t) store waiting wrong h other r = record {
    agrees = apply_event-Agrees settings ip (succeeded j t) now store wrong h r.agrees;
    few = r.few;
    bound = λ a. ground (arith, other, r.bound a);
    place = λ a k. ground (arith, other, r.place a (omega (arith, k)));
  }

  pub Overlapping-IsRoomy :
      {now : ℕ} {s : Traffic}
      → 1 ≤ settings.rate_limit_login_attempts
      → Overlapping settings ip most now s
      → IsRoomy now s
  unfolding get
  Overlapping-IsRoomy some_ idle = record {
    agrees = record { at = λ _ _. refl };
    few = omega arith;
    bound = λ a. omega (arith, some_);
    place = λ a k. omega (arith, some_);
  }
  Overlapping-IsRoomy some_ (begins {now} {waiting} {store} {wrong} t h k through o) =
      begins-IsRoomy now t h store waiting wrong k through (Overlapping-IsRoomy some_ o)
  Overlapping-IsRoomy some_ (fails {now} {waiting} {store} {wrong} t h o) =
      fails-IsRoomy now t h store waiting wrong (Overlapping-IsRoomy some_ o)
  Overlapping-IsRoomy some_ (raises {now} {waiting} {store} {wrong} t h o) =
      raises-IsRoomy now t h store waiting wrong (Overlapping-IsRoomy some_ o)
  Overlapping-IsRoomy some_ (succeeds {now} {waiting} {store} {wrong} t h o) =
      succeeds-IsRoomy now t h store waiting wrong (Overlapping-IsRoomy some_ o)
  Overlapping-IsRoomy some_ (elsewhere {now} {waiting} {store} {wrong} ev h other o) =
      elsewhere-IsRoomy now ev store waiting wrong h other (Overlapping-IsRoomy some_ o)

  -- Under settings that load, and with at most `most` logins of an address between the check and the
  -- record: whatever comes, in the order of the times, in any window fewer wrong passwords of the
  -- address are looked at, since it last logged in, than the limit and `most` together. With logins
  -- one at a time that is the limit.
  pub wrong_lt :
      {now : ℕ} {s : Traffic}
      → fields_accept settings ≡ true
      → Overlapping settings ip most now s
      → (start : ℕ)
      → count (span settings start) s.wrong < settings.rate_limit_login_attempts + most
  unfolding fields_accept
  wrong_lt valid o start = (Overlapping-IsRoomy (ground (arith, valid)) o).bound start
