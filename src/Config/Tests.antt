-- ===== src/Config/Tests.antt =====
-- Runs of the configuration, and its theorems at concrete inputs.
use kvm_switcher.Prelude.{
  ◌≡◌, ◌↔◌, refl, pos, negsuc, String, false, none, some, [], ◌∷◌, All, string_eq, ◌==◌,
  if◌then◌else◌, contains,
}
use kvm_switcher.Models.{ServerConfig, Settings, OidcConfig, AppConfig}
use kvm_switcher.Config.Validate.{
  Outcome, validate, check_servers, check_server, duplicate_name, err,
}
use kvm_switcher.Config.Validate.Correct.{IsValid, validate-IsValid}
use kvm_switcher.Config.Defaults.{set_defaults, default_settings}
use kvm_switcher.Config.Env.{atoi, split, apply_env_overrides, override_settings, int_from}
use kvm_switcher.Config.Loading.{load, load-IsSetUp}
use kvm_switcher.Config.SetUp.{IsSetUp, IsReachable}

atoi_negative : atoi "-42" ≡ some (negsuc 41)
unfolding atoi
atoi_negative = refl

atoi_mixed : atoi "4x" ≡ none
unfolding atoi
atoi_mixed = refl

atoi_wide : atoi "9223372036854775808" ≡ none
unfolding atoi
atoi_wide = refl

split_origins : split "http://a,,http://b" ≡ "http://a" ∷ "" ∷ "http://b" ∷ []
unfolding split
split_origins = refl

abbrev pub server : ServerConfig
server = record {
  name = "rack-1";
  bmc_ip = "10.0.0.7";
  bmc_port = pos 0;
  board_type = "dell_idrac9";
  username = "root";
  credential_env = "RACK_1";
  tls_skip_verify = none;
  poll_interval_seconds = negsuc 0;
}

abbrev pub blank : Settings
blank = record {
  max_concurrent_sessions = pos 0;
  session_timeout_minutes = pos 0;
  idle_timeout_minutes = pos 15;
  listen_address = "";
  cors_origins = [];
  rate_limit_rpm = pos 0;
  bmc_proxy_rate_limit_rpm = pos 0;
  db_path = "";
  audit_log = none;
  metrics_enabled = false;
  bmc_creds_ttl_minutes = pos 0;
  audit_retention_days = pos 0;
  iso_dir = "";
  iso_max_size_gb = pos 0;
  iso_serve_address = "";
  nfs_enabled = none;
  nfs_port = pos 0;
}

abbrev pub no_oidc : OidcConfig
no_oidc = record {
  enabled = false;
  issuer_url = "";
  client_id = "";
  client_secret_env = "";
  redirect_url = "";
  scopes = [];
  role_claim = "";
  role_mappings = [];
}

abbrev sample : AppConfig
sample = record { servers = server ∷ []; settings = blank; oidc = no_oidc }

abbrev env : String → String
env k = if k == "KVM_RATE_LIMIT_RPM" then "90" else ""

same_name_twice :
    validate (record sample { servers = server ∷ server ∷ [] }) ≡ err (duplicate_name 1 "rack-1")
unfolding validate check_servers check_server contains
same_name_twice = refl

validate-IsValid_example : (validate sample ≡ Outcome.ok) ↔ IsValid sample
validate-IsValid_example = validate-IsValid sample

abbrev loaded : AppConfig
loaded = apply_env_overrides env (set_defaults sample)

rate_overridden : loaded.settings.rate_limit_rpm ≡ pos 90
unfolding apply_env_overrides set_defaults default_settings override_settings int_from atoi
rate_overridden = refl

load-IsSetUp_example :
    IsValid sample
    × ((loaded.oidc ≡ no_oidc) × IsSetUp loaded.settings × All IsReachable loaded.servers)
unfolding apply_env_overrides set_defaults load validate check_servers check_server contains
load-IsSetUp_example = load-IsSetUp env sample loaded refl
