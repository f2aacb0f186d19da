-- ===== src/CircuitBreaker/History.antt =====
-- The breaker against the history of its calls.
use kvm_switcher.Prelude.{
  ℕ, suc, ◌+◌, ◌≤◌, ◌<◌, ◌≡◌, ◌↔◌, ◌⊎◌, false, ltb, leb, ◌&&◌, if◌then◌else◌, List, [], ◌∷◌, arith,
}
use kvm_switcher.CircuitBreaker.{
  Breaker, State, closed, open_, half_open, new, state_at, allow, record_success, record_failure,
}

pub data Call : Type 0 where
  succeeds fails asks : Call

unfoldable pub step : Breaker → ℕ × Call → Breaker
unfolding allow record_success record_failure
step b (t, succeeds) = record_success b
step b (t, fails) = record_failure t b
step b (t, asks) = (allow t b).0

-- A history has its latest call first.
unfoldable pub run : Breaker → List (ℕ × Call) → Breaker
run b [] = b
run b (c ∷ h) = step (run b h) c

-- The failures since the last success, and the time of the last failure.
abbrev pub consecutive : List (ℕ × Call) → ℕ
consecutive [] = 0
consecutive ((t, succeeds) ∷ h) = 0
consecutive ((t, fails) ∷ h) = suc (consecutive h)
consecutive ((t, asks) ∷ h) = consecutive h

abbrev pub last_failed : List (ℕ × Call) → ℕ
last_failed [] = 0
last_failed ((t, succeeds) ∷ h) = last_failed h
last_failed ((t, fails) ∷ h) = t
last_failed ((t, asks) ∷ h) = last_failed h

-- No call is later than `now`, nor than the call after it.
abbrev pub Before : ℕ → List (ℕ × Call) → Type 0
Before now [] = Unit {0}
Before now ((t, c) ∷ h) = (t ≤ now) × Before t h

-- The state that a history calls for: tripped by `threshold` failures with no success since, it is
-- open until a reset timeout after the last of them, and half open from then on.
abbrev pub expected : ℕ → ℕ → ℕ → List (ℕ × Call) → State
expected threshold reset now h =
    if ltb 0 (consecutive h) && leb threshold (consecutive h)
    then (if ltb now (last_failed h + reset) then open_ else half_open)
    else closed

-- What each state says of the counters; `now` is a time that the clock has reached.
abbrev Agrees : ℕ → Breaker → State → Type 0
Agrees now b closed = (b.failures ≡ 0) ⊎ (b.failures < b.threshold)
Agrees now b open_ = (b.threshold ≤ b.failures) × (0 < b.failures)
Agrees now b half_open =
    (b.last_failure + b.reset_timeout ≤ now) × (b.threshold ≤ b.failures) × (0 < b.failures)

pub record Inv (threshold reset now : ℕ) (h : List (ℕ × Call)) (b : Breaker) : Type 0 where
  pub same_threshold : b.threshold ≡ threshold
  pub same_reset : b.reset_timeout ≡ reset
  pub counted : b.failures ≡ consecutive h
  pub dated : b.last_failure ≡ last_failed h
  pub agrees : Agrees now b b.state

module _ (th rs : ℕ) where
  step-Inv :
      (t now : ℕ) (h : List (ℕ × Call)) (c : Call) (b : Breaker)
      → t ≤ now
      → Inv th rs t h b
      → Inv th rs now ((t, c) ∷ h) (step b (t, c))
  unfolding step
  step-Inv t now h succeeds b l v = ground arith
  step-Inv t now h fails b l v = ground arith
  step-Inv t now h asks b l v = ground arith

  run-Inv : (now : ℕ) (h : List (ℕ × Call)) → Before now h → Inv th rs now h (run (new th rs) h)
  unfolding run new
  run-Inv now [] m = ground arith
  run-Inv now ((t, c) ∷ h) m = step-Inv t now h c (run (new th rs) h) m.0 (run-Inv t h m.1)

  -- After any history in the order of the clock, a request is refused exactly when there have been
  -- failures since the last success, at least `threshold` of them, and the last failure is less than
  -- the reset timeout ago.
  pub allow-run :
      (now : ℕ) (h : List (ℕ × Call))
      → Before now h
      → ((allow now (run (new th rs) h)).1 ≡ false)
        ↔ ((0 < consecutive h) × (th ≤ consecutive h) × (now < last_failed h + rs))
  unfolding allow
  allow-run now h m = ground (arith, run-Inv now h m)

  -- The state that is reported is the one that the history calls for.
  pub state_at-run :
      (now : ℕ) (h : List (ℕ × Call))
      → Before now h
      → (state_at now (run (new th rs) h)).1 ≡ expected th rs now h
  unfolding state_at
  state_at-run now h m = ground (arith, run-Inv now h m)
