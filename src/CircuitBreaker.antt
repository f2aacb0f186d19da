-- ===== src/CircuitBreaker.antt =====
-- internal/circuitbreaker/breaker.go: the three-state circuit breaker.
-- Times and durations are numbers of nanoseconds; a method takes the clock's value `now`. The mutex
-- makes each method one step, so a method is a function to the new state.
pub mod History
mod Tests
use kvm_switcher.Prelude.{ℕ, zero, suc, ◌+◌, Bool, true, false, leb, ◌&&◌, if◌then◌else◌}

pub data State : Type 0 where
  closed open_ half_open : State

pub record Breaker : Type 0 where
  pub state : State
  pub failures : ℕ
  pub threshold : ℕ
  pub reset_timeout : ℕ
  pub last_failure : ℕ

unfoldable pub new : ℕ → ℕ → Breaker
new threshold reset_timeout = record {
  state = closed;
  failures = 0;
  threshold = threshold;
  reset_timeout = reset_timeout;
  last_failure = 0;
}

abbrev pub is_open : State → Bool
is_open open_ = true
is_open _ = false

-- `time.Since(b.lastFailure) >= b.resetTimeout`
unfoldable pub state_at : ℕ → Breaker → Breaker × State
state_at now b =
    let b' : Breaker =
      (if is_open b.state && leb (b.last_failure + b.reset_timeout) now
        then record b { state = half_open }
        else b) in
    (b', b'.state)

unfoldable pub allow : ℕ → Breaker → Breaker × Bool
unfolding state_at
allow now b = let (b', s) = state_at now b in (b', elim s [ open_ ↦ false | _ ↦ true ])

unfoldable pub record_success : Breaker → Breaker
record_success b = record b { failures = 0; state = closed }

unfoldable pub record_failure : ℕ → Breaker → Breaker
record_failure now b =
    let b' : Breaker = record b { failures = suc b.failures; last_failure = now } in
    if leb b.threshold (suc b.failures) then record b' { state = open_ } else b'
