-- ===== src/Auth/RateLimiter/Window.antt =====
-- The limiter against the whole history of logins: what it evicts would never have counted.
pub mod Guesses
pub mod InFlight
pub mod Overshoot
use shared_todos.Common.{
  ℕ, ◌≤◌, String, ◌≡◌, refl, List, [], ◌∷◌, ◌++◌, ◌==◌, string_eq, leb, keep, length, if◌then◌else◌,
  arith, keep-append,
}
use shared_todos.Http.{too_many_requests, ok, err, http}
use shared_todos.Config.{Settings}
use shared_todos.Auth.RateLimiter.{
  Store, get, put, pop, within, record_failed_login, check_login_rate_limit, reset_failed_logins,
}

get-put :
    (j ip : String) (ts : List ℕ) (store : Store)
    → get j (put ip ts store) ≡ (if ip == j then ts else get j store)
unfolding get put
get-put j ip ts [] = refl
get-put j ip ts (_ ∷ store) = ground (arith, get-put j ip ts store)

get-pop :
    (j ip : String) (store : Store) → get j (pop ip store) ≡ (if ip == j then [] else get j store)
unfolding get pop
get-pop j ip [] = ground arith
get-pop j ip (_ ∷ store) = ground (arith, get-pop j ip store)

-- what happens to the limiter: a failed login of an address, at a time, or a successful one
pub data Event : Type 0 where
  failed : String → ℕ → Event
  succeeded : String → ℕ → Event

abbrev pub time : Event → ℕ
time (failed ip t) = t
time (succeeded ip t) = t

-- time does not run backwards
abbrev pub Chronological : ℕ → List Event → Type 0
Chronological start [] = Unit {0}
Chronological start (ev ∷ events) = (start ≤ time ev) × Chronological (time ev) events

abbrev pub last_time : ℕ → List Event → ℕ
last_time start [] = start
last_time start (ev ∷ events) = last_time (time ev) events

abbrev pub apply_event : Settings → Event → Store → Store
apply_event settings (failed ip t) store = record_failed_login settings ip t store
apply_event settings (succeeded ip t) store = reset_failed_logins ip store

unfoldable pub replay : Settings → List Event → Store → Store
replay settings [] store = store
replay settings (ev ∷ events) store = replay settings events (apply_event settings ev store)

-- The specification keeps every failure since the address last logged in.
unfoldable pub failures : String → List Event → List ℕ → List ℕ
failures ip [] sofar = sofar
failures ip (failed j t ∷ events) sofar =
    failures ip events (if j == ip then sofar ++ t ∷ [] else sofar)
failures ip (succeeded j t ∷ events) sofar = failures ip events (if j == ip then [] else sofar)

module _ (settings : Settings) (ip : String) where
  abbrev window : ℕ
  window = settings.rate_limit_login_window_seconds

  -- what is evicted at one time is outside the window ever after
  keep-evict :
      (now later : ℕ) (ts : List ℕ)
      → now ≤ later
      → keep (within window later) (keep (within window now) ts) ≡ keep (within window later) ts
  keep-evict now later [] h = refl
  keep-evict now later (t ∷ ts) h = ground (arith, keep-evict now later ts h)

  -- the store and the specification, as seen at any time from `start` on
  record Agrees (start : ℕ) (store : Store) (sofar : List ℕ) : Type 0 where
    at :
        (now : ℕ)
        → start ≤ now
        → keep (within window now) (get ip store) ≡ keep (within window now) sofar

  abbrev after : Event → List ℕ → List ℕ
  after (failed j t) sofar = if j == ip then sofar ++ t ∷ [] else sofar
  after (succeeded j t) sofar = if j == ip then [] else sofar

  apply_event-Agrees :
      (ev : Event) (start : ℕ) (store : Store) (sofar : List ℕ)
      → start ≤ time ev
      → Agrees start store sofar
      → Agrees (time ev) (apply_event settings ev store) (after ev sofar)
  unfolding record_failed_login reset_failed_logins
  apply_event-Agrees (failed j t) start store sofar h a = record {
    at = λ now k. ground (
      arith,
      get-put ip j (keep (within window t) (get j store) ++ t ∷ []) store,
      keep-append (within window now) (keep (within window t) (get ip store)) (t ∷ []),
      keep-append (within window now) sofar (t ∷ []),
      keep-evict t now (get ip store) k,
      a.at now (omega arith),
    );
  }
  apply_event-Agrees (succeeded j t) start store sofar h a = record {
    at = λ now k. ground (arith, get-pop ip j store, a.at now (omega arith));
  }

  replay-Agrees :
      (events : List Event) (start : ℕ) (store : Store) (sofar : List ℕ)
      → Chronological start events
      → Agrees start store sofar
      → Agrees (last_time start events) (replay settings events store) (failures ip events sofar)
  unfolding replay failures
  replay-Agrees [] start store sofar c a = a
  replay-Agrees (failed j t ∷ events) start store sofar (h, c) a =
      replay-Agrees events t _ _ c (apply_event-Agrees (failed j t) start store sofar h a)
  replay-Agrees (succeeded j t ∷ events) start store sofar (h, c) a =
      replay-Agrees events t _ _ c (apply_event-Agrees (succeeded j t) start store sofar h a)

  -- the failures of the address since its last successful login, as recent as the window asks
  abbrev pub recent_failures : List Event → ℕ → List ℕ
  recent_failures events now = keep (within window now) (failures ip events [])

  -- After any logins, in the order of their times, the limiter refuses an address exactly when its
  -- failures since its last successful login, and within the window, have reached the limit: the
  -- eviction of old failures never changes the answer.
  pub check-after_replay :
      (events : List Event) (now : ℕ)
      → Chronological 0 events
      → last_time 0 events ≤ now
      → check_login_rate_limit settings ip now (replay settings events []) ≡ (
          if leb settings.rate_limit_login_attempts (length (recent_failures events now))
          then err (
              too_many_requests "Too many failed login attempts. Please try again later."
                settings.rate_limit_login_window_seconds)
          else ok tt)
  unfolding check_login_rate_limit get
  check-after_replay events now c h =
      rw ((replay-Agrees events 0 [] [] c (record { at = λ _ _. refl })).at now h)
