-- ===== src/Config/Validate/Correct.antt =====
-- What a configuration that passes `validate` satisfies, and that nothing else is asked.
use kvm_switcher.Prelude.{
  ℕ, suc, ◌≡◌, ◌≢◌, ◌↔◌, ◌⊎◌, String, Bool, true, false, Option, none, some, List, [], ◌∷◌,
  string_eq, contains, All, eq_iff, arith,
}
use kvm_switcher.Models.{ServerConfig, OidcConfig, RoleMapping, AppConfig}
use kvm_switcher.Config.Validate.{
  Outcome, ok, err, panics, check_server, check_servers, check_mapped, check_mappings, check_oidc,
  validate, names_of, is_empty, when, ◌>>◌,
}

-- The required fields of a server entry.
pub record IsComplete (s : ServerConfig) : Type 0 where
  pub named : s.name ≢ ""
  pub addressed : s.bmc_ip ≢ ""
  pub typed : s.board_type ≢ ""
  pub user : s.username ≢ ""
  pub credential : s.credential_env ≢ ""

-- Complete entries whose names differ from one another and from those in `seen`.
abbrev pub AllFresh : List String → List ServerConfig → Type 0
AllFresh seen [] = Unit {0}
AllFresh seen (s ∷ ss) = IsComplete s × (contains s.name seen ≡ false) × AllFresh (s.name ∷ seen) ss

abbrev pub Known : List String → String → Type 0
Known known srv = (srv ≡ "*") ⊎ (contains srv known ≡ true)

abbrev pub MapsKnown : List String → String × Option RoleMapping → Type 0
MapsKnown known (role, none) = ⊥
MapsKnown known (role, some m) = All (Known known) m.servers

pub record IsUsable (servers : List ServerConfig) (o : OidcConfig) : Type 0 where
  pub issuer : o.issuer_url ≢ ""
  pub client : o.client_id ≢ ""
  pub secret : o.client_secret_env ≢ ""
  pub redirect : o.redirect_url ≢ ""
  pub some_role : o.role_mappings ≢ []
  pub mapped : All (MapsKnown (names_of servers)) o.role_mappings

abbrev pub UsableIf : Bool → List ServerConfig → OidcConfig → Type 0
UsableIf true servers o = IsUsable servers o
UsableIf false servers o = Unit {0}

pub record IsValid (cfg : AppConfig) : Type 0 where
  pub nonempty : cfg.servers ≢ []
  pub fresh : AllFresh [] cfg.servers
  pub usable : UsableIf cfg.oidc.enabled cfg.servers cfg.oidc

check_server_lem :
    (i : ℕ) (seen : List String) (s : ServerConfig)
    → (check_server i seen s ≡ ok) ↔ (IsComplete s × (contains s.name seen ≡ false))
unfolding check_server
check_server_lem i seen s = ground (
  arith,
  eq_iff s.name "",
  eq_iff s.bmc_ip "",
  eq_iff s.board_type "",
  eq_iff s.username "",
  eq_iff s.credential_env "",
)

>>-ok : (a b : Outcome) → ((a >> b) ≡ ok) ↔ ((a ≡ ok) × (b ≡ ok))
>>-ok ok b = ground arith
>>-ok (err e) b = ground arith
>>-ok panics b = ground arith

check_servers_lem :
    (i : ℕ) (seen : List String) (ss : List ServerConfig)
    → (check_servers i seen ss ≡ ok) ↔ AllFresh seen ss
unfolding check_servers
check_servers_lem i seen [] = ground arith
check_servers_lem i seen (s ∷ ss) = ground (
  arith,
  >>-ok (check_server i seen s) (check_servers (suc i) (s.name ∷ seen) ss),
  check_server_lem i seen s,
  check_servers_lem (suc i) (s.name ∷ seen) ss,
)

check_mapped_lem :
    (known : List String) (role : String) (srvs : List String)
    → (check_mapped known role srvs ≡ ok) ↔ All (Known known) srvs
unfolding check_mapped
check_mapped_lem known role [] = ground arith
check_mapped_lem known role (srv ∷ srvs) =
    ground (arith, eq_iff srv "*", check_mapped_lem known role srvs)

check_mappings_lem :
    (known : List String) (ms : List (String × Option RoleMapping))
    → (check_mappings known ms ≡ ok) ↔ All (MapsKnown known) ms
unfolding check_mappings
check_mappings_lem known [] = ground arith
check_mappings_lem known ((role, none) ∷ ms) = ground arith
check_mappings_lem known ((role, some m) ∷ ms) = ground (
  arith,
  >>-ok (check_mapped known role m.servers) (check_mappings known ms),
  check_mapped_lem known role m.servers,
  check_mappings_lem known ms,
)

is_empty_iff {ℓ} : {A : Type ℓ} (xs : List A) → (is_empty xs ≡ true) ↔ (xs ≡ [])
is_empty_iff [] = ground arith
is_empty_iff (x ∷ xs) = ground arith

check_oidc_lem :
    (servers : List ServerConfig) (o : OidcConfig)
    → (check_oidc servers o ≡ ok) ↔ IsUsable servers o
unfolding check_oidc
check_oidc_lem servers o = ground (
  arith,
  eq_iff o.issuer_url "",
  eq_iff o.client_id "",
  eq_iff o.client_secret_env "",
  eq_iff o.redirect_url "",
  is_empty_iff o.role_mappings,
  check_mappings_lem (names_of servers) o.role_mappings,
)

when_lem :
    (b : Bool) (servers : List ServerConfig) (o : OidcConfig)
    → (when b (check_oidc servers o) ≡ ok) ↔ UsableIf b servers o
when_lem true servers o = check_oidc_lem servers o
when_lem false servers o = ground arith

-- `validate` accepts exactly the valid configurations: at least one server; every server entry
-- complete and no name twice; and, where OIDC is enabled, its settings present, at least one role,
-- no role without a mapping, and every mapped server configured or the wildcard.
pub validate-IsValid : (cfg : AppConfig) → (validate cfg ≡ ok) ↔ IsValid cfg
unfolding validate
validate-IsValid cfg = ground (
  arith,
  is_empty_iff cfg.servers,
  >>-ok (check_servers 0 [] cfg.servers) (when cfg.oidc.enabled (check_oidc cfg.servers cfg.oidc)),
  check_servers_lem 0 [] cfg.servers,
  when_lem cfg.oidc.enabled cfg.servers cfg.oidc,
)

check_mapped-ne-panics :
    (known : List String) (role : String) (srvs : List String)
    → check_mapped known role srvs ≢ panics
unfolding check_mapped
check_mapped-ne-panics known role [] = ground arith
check_mapped-ne-panics known role (srv ∷ srvs) =
    ground (arith, check_mapped-ne-panics known role srvs)
