-- ===== src/Config/Defaults.antt =====
-- `setDefaults`: what an absent or non-positive setting becomes.
use kvm_switcher.Prelude.{
  ℤ, pos, is_pos, String, Bool, true, Option, none, some, List, [], ◌∷◌, ◌==◌, string_eq, ◌||◌,
  if◌then◌else◌,
}
use kvm_switcher.Models.{ServerConfig, Settings, AppConfig}

-- `if x <= 0 { x = d }`
abbrev pub or_int : ℤ → ℤ → ℤ
or_int d z = if is_pos z then z else d

abbrev pub or_text : String → String → String
or_text d s = if s == "" then d else s

abbrev pub or_list : List String → List String → List String
or_list d [] = d
or_list d (x ∷ xs) = x ∷ xs

abbrev pub or_flag : Bool → Option Bool → Option Bool
or_flag d none = some d
or_flag d (some b) = some b

abbrev pub default_port : String → ℤ
default_port board_type =
    if board_type == "dell_idrac8" || board_type == "dell_idrac9" then pos 443 else pos 80

unfoldable pub default_settings : Settings → Settings
default_settings s = record s {
  max_concurrent_sessions = or_int (pos 4) s.max_concurrent_sessions;
  session_timeout_minutes = or_int (pos 60) s.session_timeout_minutes;
  idle_timeout_minutes = or_int (pos 30) s.idle_timeout_minutes;
  listen_address = or_text "0.0.0.0:8080" s.listen_address;
  cors_origins = or_list ("*" ∷ []) s.cors_origins;
  rate_limit_rpm = or_int (pos 60) s.rate_limit_rpm;
  bmc_proxy_rate_limit_rpm = or_int (pos 300) s.bmc_proxy_rate_limit_rpm;
  db_path = or_text "data/kvm-switcher.db" s.db_path;
  audit_log = or_flag true s.audit_log;
  bmc_creds_ttl_minutes = or_int (pos 120) s.bmc_creds_ttl_minutes;
  audit_retention_days = or_int (pos 90) s.audit_retention_days;
  iso_dir = or_text "data/isos/" s.iso_dir;
  iso_max_size_gb = or_int (pos 10) s.iso_max_size_gb;
  nfs_port = or_int (pos 2049) s.nfs_port;
}

unfoldable pub default_server : ServerConfig → ServerConfig
default_server s = record s {
  bmc_port = or_int (default_port s.board_type) s.bmc_port;
  poll_interval_seconds = or_int (pos 30) s.poll_interval_seconds;
}

unfoldable pub default_servers : List ServerConfig → List ServerConfig
default_servers [] = []
default_servers (s ∷ ss) = default_server s ∷ default_servers ss

unfoldable pub set_defaults : AppConfig → AppConfig
set_defaults cfg = record cfg {
  servers = default_servers cfg.servers;
  settings = default_settings cfg.settings;
}
