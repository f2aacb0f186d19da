-- ===== src/Api.antt =====
-- internal/api/handlers.go: the state of the API server, as far as the session handlers use it, and
-- what stops a session's connections (internal/api/websocket.go).
-- A handler runs from its start to its end at one moment, which is an argument; sessions are values
-- that are read from the store and set again, which is what a pointer into the store amounts to, since
-- the program never deletes a session from the store.
pub mod Sessions
pub mod Cleanup
pub mod Starting
mod Occupancy
mod Views
pub mod Limits
pub mod Deleted
pub mod Viewing
pub mod Commands
pub mod Wss
pub mod Ipmi
pub mod Connect
mod Tests
pub mod Sample
use kvm_switcher.Prelude.{
  ℕ, ℤ, String, Bool, true, false, Option, none, some, List, [], ◌∷◌, ◌==◌, string_eq, lookup,
  insert, erase, if◌then◌else◌,
}
use kvm_switcher.Models.{ServerConfig, AppConfig}
use kvm_switcher.Session.{KvmSession, KvmMode, SessionStore}
use kvm_switcher.Viewers.{Registry}

pub record BmcCredentials : Type 0 where
  pub session_cookie : String
  pub csrf_token : String
  pub kvm_token : String
  pub web_cookie : String
  pub username : String
  pub privilege : ℤ
  pub extended_priv : ℤ
  pub extra : List (String × String)

pub record BmcCredEntry : Type 0 where
  pub creds : BmcCredentials
  pub created_at : ℕ

pub record KvmConnectInfo : Type 0 where
  pub mode : KvmMode
  pub ikvm_args : Option String
  pub target_url : String
  pub target_addr : String
  pub vnc_password : String

-- `bmcProxyEntry`: the fields that sessions use.
pub record ProxyEntry : Type 0 where
  pub bmc_creds : Option BmcCredentials
  pub kvm_active : Bool

-- An audit entry without its details.
pub record AuditEntry : Type 0 where
  pub event_type : String
  pub user_email : String
  pub server_name : String
  pub session_id : String
  pub remote_addr : String

-- `bridges`, `vnc_bridges` and `wss_proxies` hold what runs under a session's name, by the name of its
-- server. `audited` and `logouts` are what was told to the audit backend, if there is one, and to the
-- boards, newest first.
pub record ApiServer (st : SessionStore) : Type 0 where
  pub config : AppConfig
  pub sessions : st.Store
  pub bmc_creds : List (String × BmcCredEntry)
  pub bridges : List (String × String)
  pub vnc_bridges : List (String × String)
  pub wss_proxies : List (String × String)
  pub viewer_registries : List (String × Registry)
  pub proxies : List (String × ProxyEntry)
  pub audited : Option (List AuditEntry)
  pub logouts : List (String × BmcCredentials)

-- The loop over the configured servers that stops at the first of that name.
unfoldable pub find_server : String → List ServerConfig → Option ServerConfig
find_server name [] = none
find_server name (s ∷ ss) =
    let rest = find_server name ss in if s.name == name then some s else rest

-- `getOrCreateProxy`: the entry is made when it is first asked for.
unfoldable pub proxy_of : String → List (String × ProxyEntry) → ProxyEntry
proxy_of name ps = elim (lookup name ps) [
  | none ↦ record { bmc_creds = none; kvm_active = false }
  | some p ↦ p
]

module _ (st : SessionStore) where
  unfoldable pub log_audit : AuditEntry → ApiServer st → ApiServer st
  log_audit e a = elim a.audited [ none ↦ a | some es ↦ record a { audited = some (e ∷ es) } ]

  unfoldable pub save : KvmSession → ApiServer st → ApiServer st
  save s a = record a { sessions = st.put s a.sessions }

  -- The kvm_active flag of the session's server is cleared, if the server is configured.
  unfoldable pub clear_active : String → ApiServer st → ApiServer st
  clear_active id a = elim (st.get id a.sessions) [
    | none ↦ a
    | some s ↦ elim (find_server s.server_name a.config.servers) [
      | none ↦ a
      | some cfg ↦ record a {
        proxies =
            insert cfg.name (record (proxy_of cfg.name a.proxies) { kvm_active = false }) a.proxies;
      }
    ]
  ]

  unfoldable pub stop_ikvm_bridge : String → ApiServer st → ApiServer st
  stop_ikvm_bridge id a = elim (lookup id a.bridges) [
    | none ↦ record a { bridges = erase id a.bridges }
    | some server ↦ clear_active id (record a { bridges = erase id a.bridges })
  ]

  unfoldable pub stop_vnc_bridge : String → ApiServer st → ApiServer st
  stop_vnc_bridge id a = record a { vnc_bridges = erase id a.vnc_bridges }

  unfoldable pub stop_wss_proxy : String → ApiServer st → ApiServer st
  stop_wss_proxy id a = record a { wss_proxies = erase id a.wss_proxies }
