-- ===== src/Auth/RateLimiter/Window/Guesses.antt =====
-- How many passwords an address can try, and that it is not shut out for good. Here each login is
-- checked and recorded at one time, and one comes after the other.
use shared_todos.Common.{
  ℕ, ◌+◌, ◌≤◌, ◌<◌, String, ◌≡◌, refl, ◌∙◌, Bool, true, false, ◌&&◌, List, [], ◌∷◌, ◌++◌, ◌==◌,
  string_eq, ltb, leb, keep, keep-append, length, count, count_mono, count-append, if◌then◌else◌,
  arith, Bool-cases, inl, inr, subst, eq_of_==,
}
use shared_todos.Http.{Result, ok, err}
use shared_todos.Config.{Settings, fields_accept}
use shared_todos.Auth.RateLimiter.{Store, get, within, check_login_rate_limit}
use shared_todos.Auth.RateLimiter.Window.{
  Event, failed, succeeded, time, Chronological, last_time, apply_event, replay, failures, Agrees,
  after, apply_event-Agrees, check-after_replay,
}

abbrev pub address : Event → String
address (failed ip t) = ip
address (succeeded ip t) = ip

abbrev pub is_ok : Result (Unit {0}) → Bool
is_ok (ok u) = true
is_ok (err x) = false

-- does the limiter let the login through to the password?
abbrev pub let_through : Settings → Event → Store → Bool
let_through settings ev store = is_ok (check_login_rate_limit settings (address ev) (time ev) store)

-- The times of the wrong passwords of an address that were looked at, since it last logged in.
unfoldable pub tried : Settings → String → List Event → Store → List ℕ → List ℕ
tried settings ip [] store sofar = sofar
tried settings ip (ev ∷ events) store sofar =
    let looked_at =
      tried settings ip events (apply_event settings ev store) (after settings ip ev sofar) in
    let refused = tried settings ip events store sofar in
    if let_through settings ev store then looked_at else refused

-- the times of a window that starts at `start`
abbrev pub span : Settings → ℕ → ℕ → Bool
span settings start t = leb start t && ltb t (start + settings.rate_limit_login_window_seconds)

pub length-keep : (p : ℕ → Bool) (ts : List ℕ) → length (keep p ts) ≡ count p ts
length-keep p [] = refl
length-keep p (t ∷ ts) = ground (arith, length-keep p ts)

module _ (settings : Settings) (ip : String) where
  record IsBounded (start : ℕ) (store : Store) (sofar : List ℕ) : Type 0 where
    agrees : Agrees settings ip start store sofar
    bound : (a : ℕ) → count (span settings a) sofar ≤ settings.rate_limit_login_attempts

  pub later-Agrees :
      (start now : ℕ) (store : Store) (sofar : List ℕ)
      → start ≤ now
      → Agrees settings ip start store sofar
      → Agrees settings ip now store sofar
  later-Agrees start now store sofar h a = record { at = λ n k. a.at n (omega arith) }

  -- below the limit there is room for one more
  pub room :
      (t : ℕ) (store : Store) (sofar : List ℕ)
      → Agrees settings ip t store sofar
      → let_through settings (failed ip t) store ≡ true
      → count (within settings.rate_limit_login_window_seconds t) sofar
        < settings.rate_limit_login_attempts
  unfolding check_login_rate_limit
  room t store sofar a through = ground (
    arith,
    through,
    a.at t (omega arith),
    length-keep (within settings.rate_limit_login_window_seconds t) (get ip store),
    length-keep (within settings.rate_limit_login_window_seconds t) sofar,
  )

  -- a window that reaches up to `t` holds no more than the limiter counts at `t`
  pub span_mono :
      (a t : ℕ) (sofar : List ℕ)
      → span settings a t ≡ true
      → count (span settings a) sofar
        ≤ count (within settings.rate_limit_login_window_seconds t) sofar
  span_mono a t sofar h = count_mono _ _ sofar λ u k. ground arith

  bound_one :
      (t : ℕ) (store : Store) (sofar : List ℕ)
      → IsBounded t store sofar
      → let_through settings (failed ip t) store ≡ true
      → (a : ℕ) → count (span settings a) (sofar ++ t ∷ []) ≤ settings.rate_limit_login_attempts
  bound_one t store sofar b through a = elim (Bool-cases (span settings a t)) [
    | inl within_ ↦ ground (
      arith,
      count-append (span settings a) sofar (t ∷ []),
      span_mono a t sofar within_,
      room t store sofar b.agrees through,
      within_,
    )
    | inr outside ↦
        ground (arith, count-append (span settings a) sofar (t ∷ []), b.bound a, outside)
  ]

  bound_after :
      (ev : Event) (store : Store) (sofar : List ℕ)
      → IsBounded (time ev) store sofar
      → let_through settings ev store ≡ true
      → (a : ℕ)
      → count (span settings a) (after settings ip ev sofar) ≤ settings.rate_limit_login_attempts
  bound_after (failed j t) store sofar b through a = elim (Bool-cases (j == ip)) [
    | inl same ↦
        let own =
          subst (λ i. let_through settings (failed i t) store ≡ true) (eq_of_== j ip same)
            through in
        ground (arith, bound_one t store sofar b own a, same)
    | inr other ↦ ground (arith, b.bound a, other)
  ]
  bound_after (succeeded j t) store sofar b through a = ground (arith, b.bound a)

  tried-IsBounded :
      (events : List Event) (start : ℕ) (store : Store) (sofar : List ℕ)
      → Chronological start events
      → IsBounded start store sofar
      → (a : ℕ)
      → count (span settings a) (tried settings ip events store sofar)
        ≤ settings.rate_limit_login_attempts
  unfolding tried
  tried-IsBounded [] start store sofar c b a = b.bound a
  tried-IsBounded (ev ∷ events) start store sofar (h, c) b a =
      let now : IsBounded (time ev) store sofar = record {
        agrees = later-Agrees start (time ev) store sofar h b.agrees;
        bound = b.bound;
      } in
      elim (Bool-cases (let_through settings ev store)) [
        | inl through ↦ rw through (
            tried-IsBounded events (time ev) (apply_event settings ev store)
              (after settings ip ev sofar) c
              (record {
                agrees = apply_event-Agrees settings ip ev start store sofar h b.agrees;
                bound = bound_after ev store sofar now through;
              })
              a)
        | inr refused ↦ rw refused (tried-IsBounded events (time ev) store sofar c now a)
      ]

  -- Whatever logins come, from whatever addresses, in the order of their times: in any window an
  -- address has at most the limit's number of wrong passwords looked at since it last logged in.
  pub tried_le :
      (events : List Event) (start : ℕ)
      → Chronological 0 events
      → count (span settings start) (tried settings ip events [] [])
        ≤ settings.rate_limit_login_attempts
  unfolding get
  tried_le events start c =
      tried-IsBounded events 0 [] [] c
        (record { agrees = record { at = λ _ _. refl }; bound = λ a. omega arith }) start

  time_le :
      (events : List Event) (start : ℕ)
      → Chronological start events
      → start ≤ last_time start events
  time_le [] start c = omega arith
  time_le (ev ∷ events) start (h, c) = omega (arith, h, time_le events (time ev) c)

  -- what is older than a window is not counted
  aged :
      (now : ℕ) (events : List Event) (start : ℕ) (sofar : List ℕ)
      → Chronological start events
      → last_time start events + settings.rate_limit_login_window_seconds ≤ now
      → keep (within settings.rate_limit_login_window_seconds now) sofar ≡ []
      → keep (within settings.rate_limit_login_window_seconds now) (failures ip events sofar) ≡ []
  unfolding failures
  aged now [] start sofar c h old = old
  aged now (failed j t ∷ events) start sofar (below, c) h old =
      aged now events t (after settings ip (failed j t) sofar) c h (
        ground (
          arith,
          old,
          time_le events t c,
          h,
          keep-append (within settings.rate_limit_login_window_seconds now) sofar (t ∷ []),
        ))
  aged now (succeeded j t ∷ events) start sofar (below, c) h old =
      aged now events t (after settings ip (succeeded j t) sofar) c h (ground (arith, old))

  -- Under settings that load, a window after the last login of anybody the limiter lets an address
  -- through again, whatever it did before.
  pub check-again :
      (events : List Event) (now : ℕ)
      → fields_accept settings ≡ true
      → Chronological 0 events
      → last_time 0 events + settings.rate_limit_login_window_seconds ≤ now
      → check_login_rate_limit settings ip now (replay settings events []) ≡ ok tt
  unfolding fields_accept
  check-again events now valid c h =
      check-after_replay settings ip events now c (omega (arith, h))
      ∙ ground (arith, valid, aged now events 0 [] c h refl)
