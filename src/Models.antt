-- ===== src/Models.antt =====
-- internal/models/models.go: the configuration types. A Go int is an integer; a pointer to a bool is
-- an optional one; a map is an association list in the order in which a `range` visits it.
use kvm_switcher.Prelude.{ℤ, String, Bool, Option, List}

pub record ServerConfig : Type 0 where
  pub name : String
  pub bmc_ip : String
  pub bmc_port : ℤ
  pub board_type : String
  pub username : String
  pub credential_env : String
  pub tls_skip_verify : Option Bool
  pub poll_interval_seconds : ℤ

pub record Settings : Type 0 where
  pub max_concurrent_sessions : ℤ
  pub session_timeout_minutes : ℤ
  pub idle_timeout_minutes : ℤ
  pub listen_address : String
  pub cors_origins : List String
  pub rate_limit_rpm : ℤ
  pub bmc_proxy_rate_limit_rpm : ℤ
  pub db_path : String
  pub audit_log : Option Bool
  pub metrics_enabled : Bool
  pub bmc_creds_ttl_minutes : ℤ
  pub audit_retention_days : ℤ
  pub iso_dir : String
  pub iso_max_size_gb : ℤ
  pub iso_serve_address : String
  pub nfs_enabled : Option Bool
  pub nfs_port : ℤ

pub record RoleMapping : Type 0 where
  pub servers : List String

-- `map[string]*RoleMapping`: a role with an empty YAML value has the nil pointer, `none`.
pub record OidcConfig : Type 0 where
  pub enabled : Bool
  pub issuer_url : String
  pub client_id : String
  pub client_secret_env : String
  pub redirect_url : String
  pub scopes : List String
  pub role_claim : String
  pub role_mappings : List (String × Option RoleMapping)

pub record AppConfig : Type 0 where
  pub servers : List ServerConfig
  pub settings : Settings
  pub oidc : OidcConfig

pub record UserInfo : Type 0 where
  pub email : String
  pub name : String
  pub roles : List String
