-- ===== src/Api/Ipmi/Untouched.antt =====
-- internal/api/handlers.go: a board's session that an iKVM bridge uses.
use kvm_switcher.Api.Ipmi.{denied, ipmi, IpmiAnswer}
use kvm_switcher.Prelude.{string_eq, ◌≡◌, Option, none, some}
use kvm_switcher.Api.{proxy_of, ApiServer}
use kvm_switcher.Models.{ServerConfig}
use kvm_switcher.Session.{SessionStore}

-- The answer is an error, or has the credentials of the board's session.
abbrev pub Tells : (st : SessionStore) → ServerConfig → ApiServer st → IpmiAnswer → Type 0
Tells st cfg a (denied code msg) = code ≡ 502
Tells st cfg a (ipmi kind creds) =
    (kind ≡ cfg.board_type) × ((proxy_of cfg.name a.proxies).bmc_creds ≡ some creds)

-- The board's session stays as it is; a panic comes of its absence only.
abbrev pub Untouched :
    (st : SessionStore) → ServerConfig → ApiServer st → Option (ApiServer st × IpmiAnswer) → Type 0
Untouched st cfg a none = (proxy_of cfg.name a.proxies).bmc_creds ≡ none
Untouched st cfg a (some (b, answer)) =
    ((b.logouts ≡ a.logouts)
      × ((proxy_of cfg.name b.proxies ≡ proxy_of cfg.name a.proxies) × (b.sessions ≡ a.sessions)))
    × Tells st cfg a answer
