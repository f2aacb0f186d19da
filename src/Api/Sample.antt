-- ===== src/Api/Sample.antt =====
-- A server with one session, for tests.
use kvm_switcher.Prelude.{pos, [], ◌∷◌, some}
use kvm_switcher.Api.Sessions.{new_session}
use kvm_switcher.Api.{ApiServer}
use kvm_switcher.Session.{KvmSession}
use kvm_switcher.Config.Tests.{server, blank, no_oidc}
use kvm_switcher.Store.Memory.{memory_store}

abbrev pub session : KvmSession
session = new_session "s1" "rack-1" server 100

abbrev pub sample : ApiServer memory_store
sample = record {
  config = record {
    servers = server ∷ [];
    settings = record blank { iso_max_size_gb = pos 1 };
    oidc = no_oidc;
  };
  sessions = record { sessions = ("s1", session) ∷ [] };
  bmc_creds = [];
  bridges = [];
  vnc_bridges = [];
  wss_proxies = [];
  viewer_registries = [];
  proxies = [];
  audited = some [];
  logouts = [];
}
