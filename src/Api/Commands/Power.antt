-- ===== src/Api/Commands/Power.antt =====
-- internal/api/handlers.go: the handler for the power of a server.
use kvm_switcher.Api.Commands.{done, told, handled, rejected, CommandAnswer, Bridges, Commander}
use kvm_switcher.Prelude.{
  string_eq, false, ◌==◌, true, if◌then◌else◌, lookup, none, some, is_some, Bool, Option, String,
}
use kvm_switcher.Ikvm.Bridge.{send_power_command, Bridge}
use kvm_switcher.Api.{find_server, ApiServer}
use kvm_switcher.Session.{SessionStore}

module _ (st : SessionStore) where
  abbrev pub power_code : String → Option (Bridge → Option String × Bridge)
  power_code action =
      if action == "off"
      then some (send_power_command 0)
      else if action == "on"
      then some (send_power_command 1)
      else if action == "cycle"
      then some (send_power_command 2)
      else if action == "reset"
      then some (send_power_command 3)
      else if action == "soft_reset"
      then some (send_power_command 5)
      else none

  -- The cold reset of the board by `ipmitool`, whose result is `resets`.
  abbrev pub bmc_reset :
      String → Commander → Bool → Bridges → ApiServer st → (Bridges × ApiServer st) × CommandAnswer
  bmc_reset id c resets bs a = elim (st.get id a.sessions) [
    | none ↦ ((bs, a), rejected 404 "session not found")
    | some s ↦ elim (find_server s.server_name a.config.servers) [
      | none ↦ ((bs, a), rejected 404 "server config not found")
      | some cfg ↦
          if resets
          then ((bs, told st "kvm_bmc_reset" "" c.remote_addr id a), done)
          else ((bs, a), rejected 500 "BMC cold reset failed")
    ]
  ]

  abbrev pub power_by :
      String
      → Option String
      → Commander
      → Bridges
      → ApiServer st
      → (Bridges × ApiServer st) × CommandAnswer
  power_by id body c bs a =
      handled st "kvm_power_control" "" c.remote_addr
        "invalid action: must be on/off/cycle/reset/soft_reset/bmc_reset" id body power_code bs a

  unfoldable pub kvm_power_control :
      String
      → Option String
      → Commander
      → Bool
      → Bridges
      → ApiServer st
      → (Bridges × ApiServer st) × CommandAnswer
  kvm_power_control id body c resets bs a = elim (is_some (lookup id bs)) [
    | false ↦ power_by id body c bs a
    | true ↦ elim body [
      | none ↦ power_by id none c bs a
      | some action ↦
          if action == "bmc_reset"
          then bmc_reset id c resets bs a
          else power_by id (some action) c bs a
    ]
  ]
