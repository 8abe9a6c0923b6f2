-- ===== src/Auth/RateLimiter/Window/Overshoot.antt =====
-- How far logins that overlap get past the limit: the bound on wrong passwords is reached.
use shared_todos.Common.{
  ℕ, zero, suc, ◌+◌, ◌-◌, ◌≤◌, ◌<◌, String, ◌≡◌, refl, subst, true, List, [], ◌∷◌, string_eq, count,
  count-append, arith, ==_refl,
}
use shared_todos.Config.{Settings, fields_accept}
use shared_todos.Auth.RateLimiter.{Store, get, within, check_login_rate_limit}
use shared_todos.Auth.RateLimiter.Window.{failed, apply_event, after}
use shared_todos.Auth.RateLimiter.Window.Guesses.{let_through, span, length-keep}
use shared_todos.Auth.RateLimiter.Window.InFlight.{
  Traffic, Overlapping, idle, begins, fails, Overlapping-IsRoomy,
}

module _ (settings : Settings) (ip : String) (most : ℕ)
    (valid : fields_accept settings ≡ true) where
  some_attempts : 1 ≤ settings.rate_limit_login_attempts
  unfolding fields_accept
  some_attempts = ground (arith, valid)

  some_time : 1 ≤ settings.rate_limit_login_window_seconds
  unfolding fields_accept
  some_time = ground (arith, valid)

  -- at time 0, with so many wrong passwords looked at and so many logins past the check
  record At (looked_at waiting : ℕ) : Type 0 where
    store : Store
    wrong : List ℕ
    reached :
        Overlapping settings ip most 0 (record { store = store; waiting = waiting; wrong = wrong })
    recent : count (within settings.rate_limit_login_window_seconds 0) wrong ≡ looked_at
    spanned : count (span settings 0) wrong ≡ looked_at

  at_start : At 0 0
  at_start = record { store = []; wrong = []; reached = idle; recent = refl; spanned = refl }

  -- below the limit the check lets a login through
  passes :
      {n w : ℕ} (a : At n w)
      → n < settings.rate_limit_login_attempts
      → let_through settings (failed ip 0) a.store ≡ true
  unfolding check_login_rate_limit
  passes a h = ground (
    arith,
    h,
    a.recent,
    (Overlapping-IsRoomy settings ip most some_attempts a.reached).agrees.at 0 (omega arith),
    length-keep (within settings.rate_limit_login_window_seconds 0) (get ip a.store),
    length-keep (within settings.rate_limit_login_window_seconds 0) a.wrong,
  )

  begun : {n w : ℕ} → n < settings.rate_limit_login_attempts → w < most → At n w → At n (suc w)
  begun h k a = record {
    store = a.store;
    wrong = a.wrong;
    reached = begins 0 (omega arith) k (passes a h) a.reached;
    recent = a.recent;
    spanned = a.spanned;
  }

  done : {n w : ℕ} → At n (suc w) → At (suc n) w
  done a = record {
    store = apply_event settings (failed ip 0) a.store;
    wrong = after settings ip (failed ip 0) a.wrong;
    reached = fails 0 (omega arith) a.reached;
    recent = ground (
      arith,
      ==_refl ip,
      a.recent,
      some_time,
      count-append (within settings.rate_limit_login_window_seconds 0) a.wrong (0 ∷ []),
    );
    spanned =
        ground (
          arith,
          ==_refl ip,
          a.spanned,
          some_time,
          count-append (span settings 0) a.wrong (0 ∷ []),
        );
  }

  -- one login after the other, up to the last that the limit leaves
  in_turn : (n : ℕ) → 1 ≤ most → n < settings.rate_limit_login_attempts → At n 0
  in_turn zero k h = at_start
  in_turn (suc n) k h = done (begun (omega (arith, h)) k (in_turn n k (omega (arith, h))))

  -- then so many at once
  at_once : {n : ℕ} (w : ℕ) → n < settings.rate_limit_login_attempts → w ≤ most → At n 0 → At n w
  at_once zero h k a = a
  at_once (suc w) h k a = begun h k (at_once w h (omega (arith, k)) a)

  all_done : {n : ℕ} (w total : ℕ) → n + w ≡ total → At n w → At total 0
  all_done {n} zero total h a = subst (λ k. At k 0) (omega (arith, h)) a
  all_done {n} (suc w) total h a = all_done w total (omega (arith, h)) (done a)

  -- Under settings that load, and with at most `most` logins of an address between the check and the
  -- record, where `most` is at least one: some schedule of logins ends with as many wrong passwords
  -- of the address looked at in one window as the limit and `most` together, less one.
  pub wrong_lt-sharp :
      1 ≤ most
      → (s : Traffic) × Overlapping settings ip most 0 s
        × (suc (count (span settings 0) s.wrong) ≡ settings.rate_limit_login_attempts + most)
  wrong_lt-sharp k =
      let last = settings.rate_limit_login_attempts - 1 in
      let a = all_done most (last + most) refl (
        at_once most (omega (arith, some_attempts)) (omega arith)
          (in_turn last k (omega (arith, some_attempts)))) in
      (_, a.reached, omega (arith, a.spanned, some_attempts))
