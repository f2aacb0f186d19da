-- ===== src/CircuitBreaker/Tests.antt =====
-- Runs of the breaker, and its theorems at concrete inputs.
use kvm_switcher.Prelude.{ℕ, ◌+◌, ◌≤◌, ◌<◌, ◌≡◌, ◌↔◌, refl, false, List, [], ◌∷◌, arith}
use kvm_switcher.CircuitBreaker.{
  new, allow, state_at, record_failure, record_success, half_open, open_,
}
use kvm_switcher.CircuitBreaker.History.{
  Call, fails, asks, succeeds, run, step, consecutive, last_failed, allow-run,
}

-- Three failures, as the status poller's breakers allow, with a reset timeout of 60.
abbrev three_failures : List (ℕ × Call)
three_failures = (30, fails) ∷ (20, fails) ∷ (15, asks) ∷ (10, fails) ∷ (5, succeeds) ∷ []

opens : (state_at 40 (run (new 3 60) three_failures)).1 ≡ open_
unfolding run step new state_at record_failure record_success allow
opens = refl

recovers : (state_at 90 (run (new 3 60) three_failures)).1 ≡ half_open
unfolding run step new state_at record_failure record_success allow
recovers = refl

allow-run_example : ((allow 40 (run (new 3 60) three_failures)).1 ≡ false) ↔ (
    (0 < consecutive three_failures)
    × (3 ≤ consecutive three_failures)
    × (40 < last_failed three_failures + 60))
allow-run_example = allow-run 3 60 40 three_failures (omega arith)
