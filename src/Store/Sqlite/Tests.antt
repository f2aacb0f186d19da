-- ===== src/Store/Sqlite/Tests.antt =====
-- Concrete histories of the store of internal/store/sessions.go.
use kvm_switcher.Prelude.{◌≡◌, refl, none, [], ◌∷◌, List, lookup, insert}
use kvm_switcher.Session.{KvmSession, connected, ikvm}
use kvm_switcher.Store.Sqlite.{get, put, persist_session, open_store}
use kvm_switcher.Store.Sqlite.Restart.{empty, get-run_restart, restarted}
use kvm_switcher.Store.Sqlite.Synced.{Call, puts, deletes, run, AllKeep}

abbrev one : KvmSession
one = record {
  id = "s1";
  server_name = "alpha";
  bmc_ip = "10.0.0.1";
  status = connected;
  conn_mode = ikvm;
  kvm_target = "";
  kvm_password = "";
  ikvm_args = none;
  created_at = 5_000_000_001;
  last_activity = 7_000_000_001;
  error = "";
}

abbrev calls : List Call
calls = puts one ∷ puts (record one { last_activity = 9_000_000_000 }) ∷ deletes "s2" ∷ []

calls_keep : AllKeep empty calls
unfolding lookup put persist_session insert
calls_keep = (tt, ((refl, refl, refl), tt))

get-run_restart_example :
    get "s1" (open_store (run empty calls).rows) ≡ restarted (get "s1" (run empty calls))
get-run_restart_example = get-run_restart "s1" calls calls_keep
