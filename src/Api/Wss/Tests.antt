-- ===== src/Api/Wss/Tests.antt =====
-- The proxy of a session at two viewers.
use kvm_switcher.Prelude.{
  string_eq, String, beq_iff, refl, ◌<◌, ◌≡◌, arith, lookup, insert, List, [], ◌∷◌, true, false,
  some, none,
}
use kvm_switcher.Api.Wss.Gated.{run-written_by, run, written_by, writes, connects, Event}
use kvm_switcher.Viewers.{add, has_control, new}
use kvm_switcher.Api.Wss.Stale.{leave-connect_viewer, IsCutOff}
use kvm_switcher.Api.Wss.{
  backend_ends, client_message, ensure_wss_proxy, leave, connect_viewer, WssClient, WssSession,
}

abbrev nothing : WssSession
nothing = record {
  proxies = λ n. record { open_backend = false; done = false; clients = [] };
  made = 0;
  current = none;
  connections = [];
  registry = new;
  forwarded = [];
}

abbrev one : WssSession
one = connect_viewer "c1" "v1" "a" "10.1.1.1" 1 true nothing

abbrev two : List Event
two = connects "c2" "v2" "b" "10.1.1.2" 2 true ∷ writes "c2" (1 ∷ []) ∷ writes "c1" (2 ∷ []) ∷ []

-- The second viewer's message is not forwarded, the first one's is.
two_forwarded : (run two one).forwarded ≡ ("v1", 2 ∷ []) ∷ []
unfolding connect_viewer ensure_wss_proxy client_message has_control add insert lookup new
two_forwarded = refl

run-written_by_example : written_by "v2" (run two one).forwarded ≡ written_by "v2" one.forwarded
unfolding connect_viewer ensure_wss_proxy client_message has_control add insert lookup new
run-written_by_example = run-written_by "v2" two one (refl, (refl, (refl, tt)))

abbrev client : WssClient
client = record { viewer = "v1"; proxy = 0; is_open = true; received = [] }

found :
    (lookup "c1" one.connections ≡ some client)
    × (one.current ≡ some 0)
    × ((one.proxies 0).clients ≡ "c1" ∷ [])
    × (0 < one.made)
unfolding connect_viewer ensure_wss_proxy insert lookup new
found = (refl, refl, refl, omega arith)

leave-connect_viewer_example :
    IsCutOff 1 "c2"
      (record { viewer = "v2"; proxy = 1; is_open = true; received = [] })
      (leave "c1" (connect_viewer "c2" "v2" "b" "10.1.1.2" 2 true (backend_ends 0 one)))
unfolding connect_viewer ensure_wss_proxy new
leave-connect_viewer_example =
    leave-connect_viewer "c1" client one found.0 found.1 found.2 found.3 "c2" "v2" "b" "10.1.1.2" 2
      (λ e. ground (arith, beq_iff {T = String} "c1" "c2"))
