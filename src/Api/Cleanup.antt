-- ===== src/Api/Cleanup.antt =====
-- cmd/server/main.go and internal/api/handlers.go: the cleanup of sessions and of credentials.
use kvm_switcher.Api.Sessions.{logout}
use kvm_switcher.Prelude.{
  ℕ, suc, ◌+◌, ◌*◌, ℤ, pos, negsuc, String, Bool, true, false, Option, none, some, List, [], ◌∷◌,
  string_eq, erase, ltb, if◌then◌else◌,
}
use kvm_switcher.Session.{KvmSession, starting, connected, disconnected, error, SessionStore}
use kvm_switcher.Api.{ApiServer, BmcCredEntry, save, stop_ikvm_bridge}

-- `time.Duration(minutes) * time.Minute`: `last` is before `now` less that, in nanoseconds.
abbrev pub older : ℕ → ℕ → ℤ → Bool
older last now (pos m) = ltb (last + m * 60_000_000_000) now
older last now (negsuc m) = ltb last (now + suc m * 60_000_000_000)

module _ (st : SessionStore) where
  -- One pass of `sessionCleanup` over the sessions of a list.
  unfoldable pub clean_idle : List KvmSession → ℕ → ApiServer st → ApiServer st
  clean_idle [] now a = a
  clean_idle (s ∷ ss) now a =
      let idle : Bool = older s.last_activity now a.config.settings.idle_timeout_minutes in
      clean_idle ss now (elim s.status [
        | connected ↦
            if idle
            then save st (record s { status = disconnected }) (stop_ikvm_bridge st s.id a)
            else a
        | starting ↦ a
        | disconnected ↦ a
        | error ↦ a
      ])

  -- Whether the session is gone or not active.
  abbrev is_over : Option KvmSession → Bool
  is_over none = true
  is_over (some s) = elim s.status [
    | disconnected ↦ true
    | error ↦ true
    | starting ↦ false
    | connected ↦ false
  ]

  abbrev pub is_stale : ℕ → ℤ → String → BmcCredEntry → ApiServer st → Bool
  is_stale now ttl id e a =
      if older e.created_at now ttl then is_over (st.get id a.sessions) else false

  -- `CleanupStaleBMCCreds` over the entries `es` of the map.
  unfoldable pub cleanup_stale_bmc_creds :
      ℕ → ℤ → List (String × BmcCredEntry) → ApiServer st → ApiServer st
  cleanup_stale_bmc_creds now ttl [] a = a
  cleanup_stale_bmc_creds now ttl ((id, e) ∷ es) a =
      let b : ApiServer st = record a { bmc_creds = erase id a.bmc_creds } in
      cleanup_stale_bmc_creds now ttl es (
        if is_stale now ttl id e a
        then elim (st.get id a.sessions) [ none ↦ b | some s ↦ logout st s.server_name e.creds b ]
        else a)

  -- A tick of `sessionCleanup`, without the hourly purge of the audit log.
  unfoldable pub session_cleanup : ℕ → ApiServer st → ApiServer st
  session_cleanup now a =
      let b : ApiServer st = clean_idle (st.list a.sessions) now a in
      cleanup_stale_bmc_creds now b.config.settings.bmc_creds_ttl_minutes b.bmc_creds b
