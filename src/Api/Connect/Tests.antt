-- ===== src/Api/Connect/Tests.antt =====
-- Viewers that connect to a session with an iKVM bridge.
use kvm_switcher.Viewers.{add}
use kvm_switcher.Api.{find_server, log_audit, save, ApiServer}
use kvm_switcher.Prelude.{
  string_eq, String, beq_iff, insert, arith, contains, refl, ◌≡◌, lookup, [], ◌∷◌, none, some, true,
  false,
}
use kvm_switcher.Store.Memory.{put, get, memory_store}
use kvm_switcher.Viewers.{new}
use kvm_switcher.Api.Connect.Registering.{handle_kvm_websocket-Registered, registry_of, Registered}
use kvm_switcher.Viewers.Newcomer.{IsNew}
use kvm_switcher.Api.Viewing.{ensure_viewer_registry}
use kvm_switcher.Api.Connect.{ensure_ikvm_bridge, proxy_ikvm, handle_kvm_websocket, Visit, dropped}
use kvm_switcher.Session.{ikvm, connected, KvmSession}
use kvm_switcher.Api.Sample.{sample, session}

abbrev ready : KvmSession
ready = record session { status = connected; conn_mode = ikvm; ikvm_args = some "args" }

abbrev running : ApiServer memory_store
running = record sample { sessions = record { sessions = ("s1", ready) ∷ [] } }

-- The board cannot be reached.
abbrev visit : Visit
visit = record {
  user = none;
  ip = "10.1.1.1";
  viewer = "v1";
  now = 200;
  upgrades = true;
  reaches = false;
}

is_dropped : (handle_kvm_websocket memory_store "s1" visit [] running).1 ≡ dropped
unfolding handle_kvm_websocket proxy_ikvm ensure_ikvm_bridge ensure_viewer_registry get lookup
    insert save put log_audit find_server add new
is_dropped = refl

got : get "s1" running.sessions ≡ some ready
unfolding get lookup
got = refl

v1-IsNew : IsNew "v1" (registry_of memory_store "s1" running)
unfolding lookup new contains
v1-IsNew = record {
  unknown = refl;
  unordered = refl;
  other = λ e. ground (arith, beq_iff {T = String} "" "v1");
  empty = λ e. refl;
}

handle_kvm_websocket-Registered_example :
    Registered memory_store "s1" visit
      (registry_of memory_store "s1" running)
      (handle_kvm_websocket memory_store "s1" visit [] running)
handle_kvm_websocket-Registered_example =
    handle_kvm_websocket-Registered memory_store ready visit [] running got v1-IsNew
