-- ===== src/Status.antt =====
-- internal/api/status.go: the poller of the devices' status, its cache and its circuit breakers. The servers
-- of one poll are polled beside each other, each with a breaker and an entry of its own.
pub mod Skips
mod Tests
use kvm_switcher.Prelude.{
  negsuc, ◌*◌, ◌+◌, leb, pos, if◌then◌else◌, lookup, insert, ℤ, Option, String, List, Bool, ℕ, [],
  ◌∷◌, none, some, true, false,
}
use kvm_switcher.CircuitBreaker.{
  record_failure, record_success, half_open, new, state_at, open_, allow, closed, Breaker, State,
}
use kvm_switcher.Models.{ServerConfig}

-- `details` stands for the readings of the board.
pub record DeviceStatus : Type 0 where
  pub online : Bool
  pub details : String
  pub circuit_breaker_state : String
  pub last_updated : ℕ
  pub message : String

pub record Poller : Type 0 where
  pub breakers : List (String × Breaker)
  pub cache : List (String × DeviceStatus)

-- One poll of a server: when it began, when it was answered, and the answer; `none` after the deadline.
pub record Poll : Type 0 where
  pub asked_at : ℕ
  pub answered_at : ℕ
  pub reply : Option DeviceStatus

abbrev state_text : State → String
state_text closed = "closed"
state_text open_ = "open"
state_text half_open = "half-open"

abbrev pub reset_after : ℕ
reset_after = 60_000_000_000

unfoldable pub get_breaker : String → Poller → Breaker
get_breaker name p = elim (lookup name p.breakers) [ some b ↦ b | none ↦ new 3 reset_after ]

abbrev pub offline : String → DeviceStatus
offline msg = record {
  online = false;
  details = "";
  circuit_breaker_state = "";
  last_updated = 0;
  message = msg;
}

-- What the board's handler gives for its credentials, if there is one, or else whether the board answers at all.
unfoldable pub fetch_device_status :
    {C : Type 0} → Option C → Option (Option C → Option DeviceStatus) → Bool → DeviceStatus
fetch_device_status creds handler reachable =
    let plain : DeviceStatus =
      if reachable then record (offline "") { online = true } else offline "BMC unreachable" in
    elim handler [
      | none ↦ plain
      | some fetch ↦ elim (fetch creds) [ none ↦ plain | some status ↦ status ]
    ]

abbrev pub answered : Option DeviceStatus → DeviceStatus
answered none = offline "status poll timed out"
answered (some status) = status

-- The breaker of a server and the entry of the cache after a poll.
unfoldable pub poll_server : Poll → Breaker → Breaker × DeviceStatus
poll_server q b =
    let (asked, allowed) = allow q.asked_at b in
    let (shut, why) = state_at q.asked_at asked in
    let status : DeviceStatus = record (answered q.reply) { last_updated = q.answered_at } in
    let (before, old) = state_at q.answered_at asked in
    let counted : Breaker =
      if status.online then record_success before else record_failure q.answered_at before in
    let (after, state) = state_at q.answered_at counted in
    if allowed then (after, record status { circuit_breaker_state = state_text state }) else (
      shut,
      record (offline "circuit breaker open: server unreachable") {
        circuit_breaker_state = state_text why;
        last_updated = q.asked_at;
      },
    )

-- The goroutine of one server.
unfoldable pub poll_status : String → Poll → Poller → Poller
poll_status name q p =
    let (b, status) = poll_server q (get_breaker name p) in
    record { breakers = insert name b p.breakers; cache = insert name status p.cache }

unfoldable pub poll_statuses : List (String × Poll) → Poller → Poller
poll_statuses [] p = p
poll_statuses ((name, q) ∷ qs) p = poll_statuses qs (poll_status name q p)

-- A server is due once its interval has passed since the last poll.
abbrev pub is_due : ℕ → ℕ → ℤ → Bool
is_due now last (pos n) = leb (last + n * 1_000_000_000) now
is_due now last (negsuc n) = true

unfoldable pub due_servers : ℕ → List (String × ℕ) → List ServerConfig → List ServerConfig
due_servers now last [] = []
due_servers now last (s ∷ ss) =
    let rest = due_servers now last ss in
    let at : ℕ = elim (lookup s.name last) [ none ↦ 0 | some t ↦ t ] in
    if is_due now at s.poll_interval_seconds then s ∷ rest else rest

abbrev pub polled_at : ℕ → List ServerConfig → List (String × ℕ) → List (String × ℕ)
polled_at now [] last = last
polled_at now (s ∷ ss) last = polled_at now ss (insert s.name now last)

abbrev asked_of : (String → Poll) → List ServerConfig → List (String × Poll)
asked_of ask [] = []
asked_of ask (s ∷ ss) = (s.name, ask s.name) ∷ asked_of ask ss

-- A tick of `StartStatusPoller`, at the end of which it is `later`.
unfoldable pub poller_tick :
    ℕ
    → ℕ
    → (String → Poll)
    → List ServerConfig
    → Poller × List (String × ℕ)
    → Poller × List (String × ℕ)
poller_tick now later ask servers (p, last) =
    let due : List ServerConfig = due_servers now last servers in
    (poll_statuses (asked_of ask due) p, polled_at later due last)
