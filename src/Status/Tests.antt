-- ===== src/Status/Tests.antt =====
-- A server that fails three polls.
use kvm_switcher.Prelude.{arith, refl, ◌≡◌, lookup, ◌+◌, List, ℕ, [], ◌∷◌, none, some, true}
use kvm_switcher.Status.Skips.{poll_status-skips, Entry, nothing_polled, poll_all, skips, after}
use kvm_switcher.Status.{poll_status, offline, DeviceStatus, Poll}

abbrev late : ℕ → Poll
late t = record { asked_at = t; answered_at = t + 30_000_000_000; reply = none }

abbrev failing : List Poll
failing = late 80_000_000_000 ∷ late 40_000_000_000 ∷ late 0 ∷ []

abbrev next : Poll
next = record {
  asked_at = 120_000_000_000;
  answered_at = 121_000_000_000;
  reply = some (record (offline "") { online = true });
}

is_skipped : skips (after failing) next.asked_at ≡ true
unfolding after
is_skipped = refl

poll_status-skips_example :
    (status : DeviceStatus) × ((lookup "rack-1"
          (poll_status "rack-1" next (poll_all "rack-1" failing nothing_polled)).cache
        ≡ some status)
      × Entry (skips (after failing) next.asked_at) next status)
poll_status-skips_example = poll_status-skips "rack-1" failing next (omega arith)
