-- ===== src/Status/Skips.antt =====
-- internal/api/status.go: which polls are left out.
use kvm_switcher.Prelude.{
  ◌∙◌, refl, string_eq, lookup-insert, beq_iff, lookup, ◌==◌, arith, suc, ◌+◌, ltb, ◌&&◌, ◌≤◌,
  if◌then◌else◌, ◌≡◌, ◌<◌, leb, Bool, List, String, ℕ, [], ◌∷◌, some, true, false,
}
use kvm_switcher.CircuitBreaker.{
  new, record_failure, record_success, state_at, allow, State, Breaker, closed, open_, half_open,
}
use kvm_switcher.Status.{
  get_breaker, DeviceStatus, answered, poll_status, reset_after, Poll, Poller, poll_server,
}

-- A poll within a minute of the last of at least three failures.
abbrev pub skips : ℕ × ℕ → ℕ → Bool
skips (failed, last) now = leb 3 failed && ltb now (last + reset_after)

abbrev pub counting : Poll → ℕ × ℕ → ℕ × ℕ
counting q (failed, last) =
    if skips (failed, last) q.asked_at
    then (failed, last)
    else if (answered q.reply).online
    then (0, last)
    else (suc failed, q.answered_at)

-- The failed polls since the last one that found the server online, and when the last of them failed; what
-- is skipped does not count. A history has its latest poll first.
unfoldable pub after : List Poll → ℕ × ℕ
after [] = (0, 0)
after (q ∷ h) = counting q (after h)

-- Each poll begins after the one before it was answered.
abbrev pub InOrder : ℕ → List Poll → Type 0
InOrder now [] = Unit {0}
InOrder now (q ∷ h) = (q.answered_at ≤ now) × (q.asked_at ≤ q.answered_at) × InOrder q.asked_at h

abbrev pub poll_all : String → List Poll → Poller → Poller
poll_all name [] p = p
poll_all name (q ∷ h) p = poll_status name q (poll_all name h p)

abbrev pub nothing_polled : Poller
nothing_polled = record { breakers = []; cache = [] }

abbrev Fits : ℕ → ℕ → ℕ → State → Type 0
Fits failed last now closed = failed < 3
Fits failed last now open_ = 3 ≤ failed
Fits failed last now half_open = (3 ≤ failed) × (last + reset_after ≤ now)

record Agrees (failed last now : ℕ) (b : Breaker) : Type 0 where
  three : b.threshold ≡ 3
  minute : b.reset_timeout ≡ reset_after
  counted : b.failures ≡ failed
  dated : 0 < failed → b.last_failure ≡ last
  fits : Fits failed last now b.state

poll_server-Agrees :
    (failed last now : ℕ) (q : Poll) (b : Breaker)
    → q.asked_at ≤ q.answered_at
    → q.answered_at ≤ now
    → Agrees failed last q.asked_at b
    → Agrees (counting q (failed, last)).0 (counting q (failed, last)).1 now (poll_server q b).0
unfolding poll_server allow state_at record_success record_failure
poll_server-Agrees failed last now q b o m a = ground arith

breaker_of :
    (name : String) (q : Poll) (p : Poller)
    → get_breaker name (poll_status name q p) ≡ (poll_server q (get_breaker name p)).0
unfolding get_breaker poll_status
breaker_of name q p =
    let i : (name == name) ≡ true = (beq_iff name name).1 refl in
    rw (get_breaker, poll_status, lookup-insert name name _ p.breakers, i) refl

later :
    (failed last t now : ℕ) (b : Breaker)
    → t ≤ now
    → Agrees failed last t b
    → Agrees failed last now b
later failed last t now b l a = ground arith

poll_all-Agrees :
    (name : String) (now : ℕ) (h : List Poll)
    → InOrder now h
    → Agrees (after h).0 (after h).1 now (get_breaker name (poll_all name h nothing_polled))
unfolding get_breaker lookup new after
poll_all-Agrees name now [] o = ground arith
poll_all-Agrees name now (q ∷ h) o = rw (breaker_of name q (poll_all name h nothing_polled)) (
    poll_server-Agrees (after h).0 (after h).1 now q
      (get_breaker name (poll_all name h nothing_polled)) o.1 o.0
      (poll_all-Agrees name q.asked_at h o.2))

abbrev unreachable : String
unreachable = "circuit breaker open: server unreachable"

-- What stands in the cache after a poll that was skipped, or was not.
abbrev pub Entry : Bool → Poll → DeviceStatus → Type 0
Entry true q status =
    (status.online ≡ false)
    × (status.message ≡ unreachable)
    × (status.circuit_breaker_state ≡ "open")
Entry false q status =
    (status.online ≡ (answered q.reply).online)
    × (status.details ≡ (answered q.reply).details)
    × (status.message ≡ (answered q.reply).message)

poll_server-Entry :
    (failed last : ℕ) (q : Poll) (b : Breaker)
    → Agrees failed last q.asked_at b
    → Entry (skips (failed, last) q.asked_at) q (poll_server q b).1
unfolding poll_server allow state_at record_success record_failure
poll_server-Entry failed last q b a = ground arith

-- After any history of polls of a server in the order of the clock, the next poll asks the server, and puts
-- its answer in the cache, unless there were at least three failures since it was last found online and the last
-- of them is less than a minute ago; then the server counts as offline.
pub poll_status-skips :
    (name : String) (h : List Poll) (q : Poll)
    → InOrder q.asked_at h
    → (status : DeviceStatus) × ((lookup name
            (poll_status name q (poll_all name h nothing_polled)).cache
          ≡ some status)
        × Entry (skips (after h) q.asked_at) q status)
unfolding poll_status
poll_status-skips name h q o =
    let i : (name == name) ≡ true = (beq_iff name name).1 refl in
    let p : Poller = poll_all name h nothing_polled in
    (
      (poll_server q (get_breaker name p)).1,
      (
        lookup-insert name name (poll_server q (get_breaker name p)).1 p.cache ∙ rw i refl,
        poll_server-Entry (after h).0 (after h).1 q (get_breaker name p)
            (poll_all-Agrees name q.asked_at h o),
      ),
    )
