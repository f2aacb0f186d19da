-- ===== src/Api/Tests.antt =====
-- Runs of the session handlers over the store in memory, and their theorems at concrete inputs.
use kvm_switcher.Prelude.{
  true, nat_eq, string_eq, lookup, insert, contains, ◌≡◌, refl, arith, [], none, ◌==◌, some, ◌≢◌,
  if◌then◌else◌, pos, ◌∷◌, Option, String, ℕ,
}
use kvm_switcher.Store.Memory.{get, put, find_by_server, list, memory_store}
use kvm_switcher.Api.Starting.{
  registered, is_transient_error, any_mentioned, mentions, begins, retry, with_retries,
  start_session, Reply, Board,
}
use kvm_switcher.Api.Deleted.{start_session-delete_session, status_of}
use kvm_switcher.Session.{disconnected, sessions_of, find_in, connected, SessionStatus, web_socket}
use kvm_switcher.Api.Sessions.{
  delete_session, active_count, commit, admit_to, admit, accepted, create_session, new_session,
  Request,
}
use kvm_switcher.Config.Env.{get_password}
use kvm_switcher.Api.Limits.{Step, here, then_step, Reach-Inv, Reach}
use kvm_switcher.Api.{save, find_server, log_audit, ApiServer, BmcCredentials, KvmConnectInfo}
use kvm_switcher.Api.Starting.Ends.{start_session-Finishes, Finishes, IsTelling}
use kvm_switcher.Models.{AppConfig}
use kvm_switcher.Api.Limits.Invariant.{Inv}
use kvm_switcher.Config.Tests.{server, blank, no_oidc}

abbrev config : AppConfig
config = record {
  servers = server ∷ [];
  settings = record blank {
    max_concurrent_sessions = pos 1;
    idle_timeout_minutes = pos 30;
    bmc_creds_ttl_minutes = pos 60;
  };
  oidc = no_oidc;
}

abbrev empty : ApiServer memory_store
empty = record {
  config = config;
  sessions = record { sessions = [] };
  bmc_creds = [];
  bridges = [];
  vnc_bridges = [];
  wss_proxies = [];
  viewer_registries = [];
  proxies = [];
  audited = some [];
  logouts = [];
}

abbrev anyone : Request
anyone = record { server_name = some "rack-1"; user = none; ip = "10.1.1.1" }

abbrev credentials : BmcCredentials
credentials = record {
  session_cookie = "c";
  csrf_token = "";
  kvm_token = "";
  web_cookie = "";
  username = "root";
  privilege = pos 4;
  extended_priv = pos 0;
  extra = [];
}

abbrev info : KvmConnectInfo
info = record {
  mode = web_socket;
  ikvm_args = none;
  target_url = "wss://10.0.0.7/kvm";
  target_addr = "";
  vnc_password = "";
}

-- The first attempt runs into a time limit, the second one succeeds.
abbrev login : ℕ → Reply (BmcCredentials × Option KvmConnectInfo)
login n = if n == 1 then Reply.fails "dial tcp: I/O Timeout" else Reply.ok (credentials, some info)

abbrev board : Board
board = record {
  authenticate = λ cfg password. login;
  create_web_session = λ cfg password n. Reply.ok credentials;
  fetch_kvm_token = λ cfg c. Reply.ok info;
}

login-tells : (n : ℕ) (c : BmcCredentials) → login n ≢ Reply.ok (c, none)
login-tells n c = ground arith

board-IsTelling : IsTelling board
board-IsTelling cfg password n c = login-tells n c

abbrev env : String → String
env name = "secret"

abbrev one : ApiServer memory_store
one = (create_session memory_store anyone "s1" 100 empty).0

status_in : Option (ApiServer memory_store) → Option SessionStatus
status_in none = none
status_in (some a) = elim (lookup "s1" a.sessions.sessions) [ none ↦ none | some s ↦ some s.status ]

-- A session is created, and its start connects it at the second attempt.
created_connects :
    status_in
      (start_session memory_store env board 200 (new_session "s1" "rack-1" server 100) server one)
    ≡ some connected
unfolding status_in start_session get_password with_retries retry is_transient_error any_mentioned
    mentions begins contains save lookup insert put create_session admit admit_to commit find_server
    find_by_server list find_in sessions_of active_count log_audit
created_connects = refl

start_session-Finishes_example :
    Finishes memory_store
      (new_session "s1" "rack-1" server 100)
      one
      (start_session memory_store env board 200 (new_session "s1" "rack-1" server 100) server one)
start_session-Finishes_example =
    start_session-Finishes memory_store env board 200 (new_session "s1" "rack-1" server 100) server
      one board-IsTelling

empty-Inv : Inv memory_store 1 empty
empty-Inv = record {
  limited = refl;
  named = tt;
  distinct = tt;
  fits = record { total = ground arith; single = λ name. ground arith };
}

reached : Reach memory_store empty one
unfolding lookup create_session admit admit_to commit find_server find_by_server list find_in
    sessions_of active_count log_audit save put insert
reached =
    then_step here
      (Step.creates anyone "s1" 100 (accepted (new_session "s1" "rack-1" server 100)) refl refl)

Reach-Inv_example : Inv memory_store 1 one
Reach-Inv_example = Reach-Inv memory_store 1 empty one reached empty-Inv

-- The session is deleted, and its start ends after that.
abbrev deleted : Option (ApiServer memory_store)
deleted = delete_session memory_store anyone "s1" one

abbrev after_delete : ApiServer memory_store
after_delete = elim deleted [ none ↦ one | some b ↦ b ]

got : get "s1" one.sessions ≡ some (new_session "s1" "rack-1" server 100)
unfolding get lookup insert put create_session admit admit_to commit find_server find_by_server list
    find_in sessions_of active_count log_audit save
got = refl

was_deleted : deleted ≡ some after_delete
unfolding delete_session get lookup insert put create_session admit admit_to commit find_server
    find_by_server list find_in sessions_of active_count log_audit save
was_deleted = refl

has_password : get_password env server ≡ some "secret"
unfolding get_password
has_password = refl

is_registered : registered server.board_type ≡ true
unfolding contains
is_registered = refl

logs_in : with_retries login ≡ Reply.ok (credentials, some info)
unfolding with_retries retry is_transient_error any_mentioned mentions begins
logs_in = refl

start_session-delete_session_example :
    (status_of memory_store "s1" after_delete ≡ some disconnected)
    × ((d : ApiServer memory_store) × ((start_session memory_store env board 200
              (record (new_session "s1" "rack-1" server 100) { status = disconnected })
              server
              after_delete
            ≡ some d)
          × (status_of memory_store "s1" d ≡ some connected)))
start_session-delete_session_example =
    start_session-delete_session memory_store env board 200 server anyone "s1" one after_delete
      (new_session "s1" "rack-1" server 100) "secret" credentials info got refl was_deleted
      has_password is_registered refl logs_in refl
