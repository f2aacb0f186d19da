-- ===== src/Config/Validate.antt =====
-- `validate`: the checks on a parsed configuration, in the order of the code.
pub mod Correct
use kvm_switcher.Prelude.{
  ℕ, suc, String, Bool, true, false, Option, none, some, List, [], ◌∷◌, ◌==◌, string_eq, ◌&&◌, ◌||◌,
  not, contains, map,
}
use kvm_switcher.Models.{ServerConfig, OidcConfig, RoleMapping, AppConfig}

-- One constructor for each message.
pub data Error : Type 0 where
  no_servers : Error
  name_required : ℕ → Error
  duplicate_name : ℕ → String → Error
  bmc_ip_required board_type_required username_required credential_env_required : String → Error
  issuer_url_required client_id_required client_secret_env_required : Error
  redirect_url_required role_mapping_required : Error
  unknown_server : String → String → Error

-- `panics` is a nil pointer that is dereferenced.
pub data Outcome : Type 0 where
  ok : Outcome
  err : Error → Outcome
  panics : Outcome

infixl 5 ◌>>◌
abbrev pub ◌>>◌ : Outcome → Outcome → Outcome
ok >> k = k
err e >> k = err e
panics >> k = panics

-- `if failed { return e }`
abbrev pub reject : Bool → Error → Outcome
reject true e = err e
reject false e = ok

unfoldable pub check_server : ℕ → List String → ServerConfig → Outcome
check_server i seen s = do
  reject (s.name == "") (name_required i)
  reject (contains s.name seen) (duplicate_name i s.name)
  reject (s.bmc_ip == "") (bmc_ip_required s.name)
  reject (s.board_type == "") (board_type_required s.name)
  reject (s.username == "") (username_required s.name)
  reject (s.credential_env == "") (credential_env_required s.name)

-- `seen` holds the names of the servers before index `i`.
unfoldable pub check_servers : ℕ → List String → List ServerConfig → Outcome
unfolding check_server
check_servers i seen [] = ok
check_servers i seen (s ∷ ss) = check_server i seen s >> check_servers (suc i) (s.name ∷ seen) ss

unfoldable pub names_of : List ServerConfig → List String
names_of [] = []
names_of (s ∷ ss) = s.name ∷ names_of ss

unfoldable pub check_mapped : List String → String → List String → Outcome
check_mapped known role [] = ok
check_mapped known role (srv ∷ ss) =
    reject (not (srv == "*") && not (contains srv known)) (unknown_server role srv)
    >> check_mapped known role ss

unfoldable pub check_mappings : List String → List (String × Option RoleMapping) → Outcome
check_mappings known [] = ok
check_mappings known ((role, none) ∷ ms) = panics
check_mappings known ((role, some m) ∷ ms) =
    check_mapped known role m.servers >> check_mappings known ms

abbrev pub is_empty {ℓ} : {A : Type ℓ} → List A → Bool
is_empty [] = true
is_empty (x ∷ xs) = false

unfoldable pub check_oidc : List ServerConfig → OidcConfig → Outcome
check_oidc servers o = do
  reject (o.issuer_url == "") issuer_url_required
  reject (o.client_id == "") client_id_required
  reject (o.client_secret_env == "") client_secret_env_required
  reject (o.redirect_url == "") redirect_url_required
  reject (is_empty o.role_mappings) role_mapping_required
  check_mappings (names_of servers) o.role_mappings

abbrev pub when : Bool → Outcome → Outcome
when true k = k
when false k = ok

unfoldable pub validate : AppConfig → Outcome
validate cfg = do
  reject (is_empty cfg.servers) no_servers
  check_servers 0 [] cfg.servers
  when cfg.oidc.enabled (check_oidc cfg.servers cfg.oidc)
