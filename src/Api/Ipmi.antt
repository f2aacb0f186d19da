-- ===== src/Api/Ipmi.antt =====
-- internal/api/handlers.go: the web sessions on boards that the server keeps for its users (`ensureBMCSession` and
-- `CreateIPMISession`).
pub mod Untouched
mod Tests
use kvm_switcher.Prelude.{
  string_eq, ◌&&◌, not, ◌==◌, if◌then◌else◌, insert, Bool, Option, String, ℕ, [], ◌∷◌, none, some,
  true, false,
}
use kvm_switcher.Oidc.{allows, panics, user_can_access_server, denies, Access}
use kvm_switcher.Api.Sessions.{email_of}
use kvm_switcher.Config.Env.{get_password}
use kvm_switcher.Api.{log_audit, find_server, proxy_of, ApiServer, ProxyEntry, BmcCredentials}
use kvm_switcher.Models.{UserInfo, ServerConfig}
use kvm_switcher.Session.{SessionStore}
use kvm_switcher.Api.Starting.{Reply, ok, registered}

-- The credentials of a session, which are absent where Go has the nil pointer, or an error.
pub data Ensured : Type 0 where
  ensured : Option BmcCredentials → Ensured
  not_ensured : Ensured

pub data IpmiAnswer : Type 0 where
  denied : ℕ → String → IpmiAnswer
  ipmi : String → BmcCredentials → IpmiAnswer

module _ (st : SessionStore) where
  abbrev pub set_proxy : ServerConfig → ProxyEntry → ApiServer st → ApiServer st
  set_proxy cfg p a = record a { proxies = insert cfg.name p a.proxies }

  -- The old session is logged out, and `reply` is what the board says of a new one.
  abbrev pub renewed :
      ServerConfig → Reply BmcCredentials → ProxyEntry → ApiServer st → ApiServer st × Ensured
  renewed cfg reply p a =
      let out : ApiServer st = elim p.bmc_creds [
        | none ↦ a
        | some old ↦ record a { logouts = (cfg.name, old) ∷ a.logouts }
      ] in
      elim reply [
        | Reply.fails e ↦ (set_proxy cfg (record p { bmc_creds = none }) out, not_ensured)
        | Reply.ok creds ↦
            (set_proxy cfg (record p { bmc_creds = some creds }) out, ensured (some creds))
      ]

  unfoldable pub ensure_bmc_session :
      (String → String)
      → ServerConfig
      → Reply BmcCredentials
      → ApiServer st
      → ApiServer st × Ensured
  ensure_bmc_session env cfg reply a = elim (get_password env cfg) [
    | none ↦ (a, not_ensured)
    | some password ↦
        let p : ProxyEntry = proxy_of cfg.name a.proxies in
        if not (registered cfg.board_type)
        then (a, not_ensured)
        else if p.kvm_active
        then (set_proxy cfg p a, ensured p.bmc_creds)
        else renewed cfg reply p a
  ]

  -- The end of the handler. `none` is the panic of a nil dereference.
  abbrev pub answer_ipmi :
      ServerConfig → String → String → ApiServer st × Ensured → Option (ApiServer st × IpmiAnswer)
  answer_ipmi cfg email ip (a, not_ensured) = some (a, denied 502 "BMC authentication failed")
  answer_ipmi cfg email ip (a, ensured none) = none
  answer_ipmi cfg email ip (a, ensured (some creds)) = some (
    log_audit st
        (record {
          event_type = "ipmi_session";
          user_email = email;
          server_name = cfg.name;
          session_id = "";
          remote_addr = ip;
        })
        a,
    ipmi cfg.board_type creds,
  )

  abbrev pub ipmi_access : String → Option UserInfo → ApiServer st → Access
  ipmi_access name user a =
      if a.config.oidc.enabled then user_can_access_server a.config.oidc user name else allows

  unfoldable pub create_ipmi_session :
      (String → String)
      → String
      → Option UserInfo
      → String
      → Reply BmcCredentials
      → ApiServer st
      → Option (ApiServer st × IpmiAnswer)
  create_ipmi_session env name user ip reply a = elim (find_server name a.config.servers) [
    | none ↦ some (a, denied 404 "server not found")
    | some cfg ↦ elim (ipmi_access name user a) [
      | denies ↦ some (a, denied 403 "access denied")
      | panics ↦ none
      | allows ↦ answer_ipmi cfg (email_of user) ip (ensure_bmc_session env cfg reply a)
    ]
  ]

  -- The session manager's look at one server: whether it renews the session.
  unfoldable pub renews : ServerConfig → Option (Bool × String) → ApiServer st → Bool
  renews cfg status a = elim (proxy_of cfg.name a.proxies).bmc_creds [
    | none ↦ true
    | some creds ↦ if cfg.board_type == "dell_idrac8" then false else elim status [
      | none ↦ true
      | some (online, power_state) ↦ not (online && not (power_state == ""))
    ]
  ]
