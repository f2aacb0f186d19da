-- ===== src/Api/Ipmi/Tests.antt =====
-- A request for an IPMI session while an iKVM bridge runs.
use kvm_switcher.Prelude.{contains, refl, lookup, ◌≡◌, String, [], ◌∷◌, none, true}
use kvm_switcher.Config.Env.{get_password}
use kvm_switcher.Api.Ipmi.Untouched.{Untouched}
use kvm_switcher.Api.Ipmi.{ensure_bmc_session, create_ipmi_session}
use kvm_switcher.Api.{proxy_of, find_server, ApiServer}
use kvm_switcher.Api.Sample.{sample}
use kvm_switcher.Store.Memory.{memory_store}
use kvm_switcher.Api.Starting.{Reply}

abbrev bridged : ApiServer memory_store
bridged = record sample {
  proxies = ("rack-1", record { bmc_creds = none; kvm_active = true }) ∷ [];
}

abbrev env : String → String
env name = "secret"

-- The session's credentials are the nil pointer: after a failed renewal, say.
panics_there :
    create_ipmi_session memory_store env "rack-1" none "10.1.1.1" (Reply.fails "timeout") bridged
    ≡ none
unfolding create_ipmi_session ensure_bmc_session find_server proxy_of lookup get_password contains
panics_there = refl
