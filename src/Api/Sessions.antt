-- ===== src/Api/Sessions.antt =====
-- internal/api/handlers.go: the session handlers.
use kvm_switcher.Prelude.{
  ℕ, suc, ◌+◌, ◌-◌, ◌*◌, ℤ, pos, negsuc, String, Bool, true, Option, none, some, List, [], ◌∷◌,
  string_eq, lookup, erase, leb, if◌then◌else◌,
}
use kvm_switcher.Models.{ServerConfig, UserInfo}
use kvm_switcher.Session.{
  KvmSession, starting, connected, disconnected, error, unset, is_active, SessionStore,
}
use kvm_switcher.Viewers.{Registry, Viewer, ControlRequest, list, count, pending_request}
use kvm_switcher.Oidc.{Access, allows, denies, panics, user_can_access_server}
use kvm_switcher.Api.{
  ApiServer, BmcCredentials, find_server, log_audit, save, stop_ikvm_bridge, stop_vnc_bridge,
  stop_wss_proxy,
}
use kvm_switcher.Api.Starting.{registered}

pub data Response : Type 0 where
  fails : ℕ → String → Response
  found : KvmSession → Response
  accepted : KvmSession → Response
  panicked : Response

-- The loop that counts the sessions that are starting or connected.
unfoldable pub active_count : List KvmSession → ℕ
active_count [] = 0
active_count (s ∷ ss) = if is_active s.status then suc (active_count ss) else active_count ss

-- `n >= z`
abbrev pub at_least : ℕ → ℤ → Bool
at_least n (pos m) = leb m n
at_least n (negsuc m) = true

-- The idle time that is left, `timeout - time.Since(last)`, and 0 when it is negative.
abbrev pub remaining : ℤ → ℕ → ℕ → ℕ
remaining (pos m) last now = (last + m * 60_000_000_000) - now
remaining (negsuc m) last now = last - (now + suc m * 60_000_000_000)

abbrev pub email_of : Option UserInfo → String
email_of none = ""
email_of (some u) = u.email

-- What a request carries: the decoded body (none: it cannot be decoded), the user and the address.
pub record Request : Type 0 where
  pub server_name : Option String
  pub user : Option UserInfo
  pub ip : String

abbrev pub new_session : String → String → ServerConfig → ℕ → KvmSession
new_session id name cfg now = record {
  id = id;
  server_name = name;
  bmc_ip = cfg.bmc_ip;
  status = starting;
  conn_mode = unset;
  kvm_target = "";
  kvm_password = "";
  ikvm_args = none;
  created_at = now;
  last_activity = now;
  error = "";
}

-- What the checks of `CreateSession` come to: an answer, or a session to make for a server.
pub data Admission : Type 0 where
  answers : Response → Admission
  creates : String → ServerConfig → Admission

pub record ServerInfo : Type 0 where
  pub name : String
  pub bmc_ip : String
  pub bmc_port : ℤ
  pub board_type : String
  pub active_session_id : Option String

pub record SessionResponse : Type 0 where
  pub session : KvmSession
  pub idle_timeout_remaining : Option ℕ
  pub viewers : List Viewer
  pub viewer_count : ℕ
  pub pending_control_req : Option ControlRequest

abbrev pub idle_remaining : ℤ → KvmSession → ℕ → Option ℕ
idle_remaining timeout s now = elim s.status [
  | connected ↦ some (remaining timeout s.last_activity now)
  | starting ↦ none
  | disconnected ↦ none
  | error ↦ none
]

abbrev pub with_viewers : Option Registry → KvmSession → Option ℕ → SessionResponse
with_viewers none s left = record {
  session = s;
  idle_timeout_remaining = left;
  viewers = [];
  viewer_count = 0;
  pending_control_req = none;
}
with_viewers (some r) s left = record {
  session = s;
  idle_timeout_remaining = left;
  viewers = list r;
  viewer_count = count r;
  pending_control_req = pending_request r;
}

module _ (st : SessionStore) where
  -- From the check of the user's access on, whose result it takes.
  unfoldable pub admit_to : Access → String → ServerConfig → ApiServer st → Admission
  admit_to panics name cfg a = answers panicked
  admit_to denies name cfg a = answers (fails 403 "access denied to this server")
  admit_to allows name cfg a = elim (st.find_by_server name a.sessions) [
    | some s ↦ answers (found s)
    | none ↦
        if at_least (active_count (st.list a.sessions)) a.config.settings.max_concurrent_sessions
        then answers (fails 429 "maximum concurrent sessions reached")
        else creates name cfg
  ]

  -- The checks of `CreateSession`.
  unfoldable pub admit : Request → ApiServer st → Admission
  admit req a = elim req.server_name [
    | none ↦ answers (fails 400 "invalid request body")
    | some name ↦ elim (find_server name a.config.servers) [
      | none ↦ answers (fails 404 "server not found")
      | some cfg ↦
          admit_to
            (if a.config.oidc.enabled
              then user_can_access_server a.config.oidc req.user name
              else allows)
            name cfg a
    ]
  ]

  -- The rest of `CreateSession`, on the random name `id`. It also starts `startSession` on the session.
  unfoldable pub commit : Request → String → ℕ → Admission → ApiServer st → ApiServer st × Response
  commit req id now (answers r) a = (a, r)
  commit req id now (creates name cfg) a = (
    log_audit st
        (record {
          event_type = "session_create";
          user_email = email_of req.user;
          server_name = name;
          session_id = id;
          remote_addr = req.ip;
        })
        (save st (new_session id name cfg now) a),
    accepted (new_session id name cfg now),
  )

  unfoldable pub create_session : Request → String → ℕ → ApiServer st → ApiServer st × Response
  create_session req id now a = commit req id now (admit req a) a

  -- `none` is the answer that there is no such session.
  unfoldable pub get_session : String → ℕ → ApiServer st → Option SessionResponse
  get_session id now a = elim (st.get id a.sessions) [
    | none ↦ none
    | some s ↦ some (
        with_viewers (lookup id a.viewer_registries) s
          (idle_remaining a.config.settings.idle_timeout_minutes s now))
  ]

  unfoldable pub keep_alive_session : String → ℕ → ApiServer st → Option (ApiServer st)
  keep_alive_session id now a = elim (st.get id a.sessions) [
    | none ↦ none
    | some s ↦ some (save st (record s { last_activity = now }) a)
  ]

  -- The logout of a session from its board, which is told its credentials once.
  unfoldable pub logout : String → BmcCredentials → ApiServer st → ApiServer st
  logout name creds a = elim (find_server name a.config.servers) [
    | none ↦ a
    | some cfg ↦
        if registered cfg.board_type
        then record a { logouts = (cfg.name, creds) ∷ a.logouts }
        else a
  ]

  unfoldable pub drop_creds : String → String → ApiServer st → ApiServer st
  drop_creds id name a = elim (lookup id a.bmc_creds) [
    | none ↦ a
    | some e ↦ logout name e.creds (record a { bmc_creds = erase id a.bmc_creds })
  ]

  unfoldable pub stop_all : String → ApiServer st → ApiServer st
  stop_all id a = stop_wss_proxy st id (stop_vnc_bridge st id (stop_ikvm_bridge st id a))

  -- `none` is the answer that there is no such session.
  unfoldable pub delete_session : Request → String → ApiServer st → Option (ApiServer st)
  delete_session req id a = elim (st.get id a.sessions) [
    | none ↦ none
    | some s ↦ some (
        log_audit st
          (record {
            event_type = "session_delete";
            user_email = email_of req.user;
            server_name = s.server_name;
            session_id = id;
            remote_addr = req.ip;
          })
          (save st (record s { status = disconnected })
            (stop_all id (drop_creds id s.server_name a))))
  ]

  -- `ListServers` over the servers of a list; none where the check of the access panics.
  unfoldable pub list_servers :
      Option UserInfo → List ServerConfig → ApiServer st → Option (List ServerInfo)
  list_servers user [] a = some []
  list_servers user (cfg ∷ cfgs) a =
      let rest = list_servers user cfgs a in
      let access : Access =
        (if a.config.oidc.enabled
          then user_can_access_server a.config.oidc user cfg.name
          else allows) in
      let found : Option KvmSession = st.find_by_server cfg.name a.sessions in
      let info : ServerInfo = record {
        name = cfg.name;
        bmc_ip = cfg.bmc_ip;
        bmc_port = cfg.bmc_port;
        board_type = cfg.board_type;
        active_session_id = elim found [ none ↦ none | some s ↦ some s.id ];
      } in
      elim access [
        | panics ↦ none
        | denies ↦ rest
        | allows ↦ elim rest [ none ↦ none | some is ↦ some (info ∷ is) ]
      ]
