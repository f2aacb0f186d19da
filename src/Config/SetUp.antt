-- ===== src/Config/SetUp.antt =====
-- internal/config/config.go: what the defaults and the environment leave set.
use kvm_switcher.Prelude.{
  ◌≡◌, ◌≢◌, refl, ℤ, pos, is_pos, String, Bool, true, false, Option, none, some, List, [], ◌∷◌,
  ◌==◌, string_eq, All, eq_iff, arith,
}
use kvm_switcher.Models.{ServerConfig, Settings}
use kvm_switcher.Config.Defaults.{
  or_int, or_text, or_list, or_flag, default_port, default_settings, default_server,
  default_servers,
}
use kvm_switcher.Config.Env.{int_from, split, flag_from, given, override_settings}

abbrev pub IsPos : ℤ → Type 0
IsPos z = is_pos z ≡ true

-- No number that the program divides by, waits for or listens on is zero or negative, and no path is
-- empty.
pub record IsSetUp (s : Settings) : Type 0 where
  pub sessions : IsPos s.max_concurrent_sessions
  pub session_timeout : IsPos s.session_timeout_minutes
  pub idle_timeout : IsPos s.idle_timeout_minutes
  pub listen : s.listen_address ≢ ""
  pub origins : s.cors_origins ≢ []
  pub rpm : IsPos s.rate_limit_rpm
  pub proxy_rpm : IsPos s.bmc_proxy_rate_limit_rpm
  pub db : s.db_path ≢ ""
  pub audit : s.audit_log ≢ none
  pub creds_ttl : IsPos s.bmc_creds_ttl_minutes
  pub retention : IsPos s.audit_retention_days
  pub isos : s.iso_dir ≢ ""
  pub iso_size : IsPos s.iso_max_size_gb
  pub nfs : IsPos s.nfs_port

abbrev pub IsReachable : ServerConfig → Type 0
IsReachable s = IsPos s.bmc_port × IsPos s.poll_interval_seconds

or_int-IsPos : (d z : ℤ) → IsPos d → IsPos (or_int d z)
or_int-IsPos d z h = ground arith

or_text-ne : (d s : String) → d ≢ "" → or_text d s ≢ ""
or_text-ne d s h = ground (arith, eq_iff s "")

or_list-ne : (d xs : List String) → d ≢ [] → or_list d xs ≢ []
or_list-ne d [] h = h
or_list-ne d (x ∷ xs) h = ground arith

or_flag-ne : (d : Bool) (o : Option Bool) → or_flag d o ≢ none
or_flag-ne d none = ground arith
or_flag-ne d (some b) = ground arith

ne_empty : (s : String) → (s == "") ≡ false → s ≢ ""
ne_empty s h = ground (arith, eq_iff s "")

pub default_settings-IsSetUp : (s : Settings) → IsSetUp (default_settings s)
unfolding default_settings
default_settings-IsSetUp s = record {
  sessions = or_int-IsPos (pos 4) s.max_concurrent_sessions refl;
  session_timeout = or_int-IsPos (pos 60) s.session_timeout_minutes refl;
  idle_timeout = or_int-IsPos (pos 30) s.idle_timeout_minutes refl;
  listen = or_text-ne "0.0.0.0:8080" s.listen_address (ne_empty _ refl);
  origins = or_list-ne ("*" ∷ []) s.cors_origins (ground arith);
  rpm = or_int-IsPos (pos 60) s.rate_limit_rpm refl;
  proxy_rpm = or_int-IsPos (pos 300) s.bmc_proxy_rate_limit_rpm refl;
  db = or_text-ne "data/kvm-switcher.db" s.db_path (ne_empty _ refl);
  audit = or_flag-ne true s.audit_log;
  creds_ttl = or_int-IsPos (pos 120) s.bmc_creds_ttl_minutes refl;
  retention = or_int-IsPos (pos 90) s.audit_retention_days refl;
  isos = or_text-ne "data/isos/" s.iso_dir (ne_empty _ refl);
  iso_size = or_int-IsPos (pos 10) s.iso_max_size_gb refl;
  nfs = or_int-IsPos (pos 2049) s.nfs_port refl;
}

int_given-IsPos : (v : String) (z : ℤ) → IsPos z → IsPos (given v (int_from v z) z)
unfolding int_from
int_given-IsPos v z h = ground arith

text_given-ne : (v s : String) → s ≢ "" → given v v s ≢ ""
text_given-ne v s h = ground (arith, eq_iff v "")

split-ne : (v : String) (xs : List String) → xs ≢ [] → given v (split v) xs ≢ []
unfolding split
split-ne v xs h = ground arith

flag_given-ne : (v : String) (b : Bool) (o : Option Bool) → o ≢ none → given v (some b) o ≢ none
flag_given-ne v b o h = ground arith

pub override_settings-IsSetUp :
    (env : String → String) (s : Settings) → IsSetUp s → IsSetUp (override_settings env s)
unfolding override_settings
override_settings-IsSetUp env s v = record {
  sessions = v.sessions;
  session_timeout = v.session_timeout;
  idle_timeout = v.idle_timeout;
  listen = v.listen;
  origins = split-ne (env "KVM_CORS_ORIGINS") s.cors_origins v.origins;
  rpm = int_given-IsPos (env "KVM_RATE_LIMIT_RPM") s.rate_limit_rpm v.rpm;
  proxy_rpm =
      int_given-IsPos (env "KVM_BMC_PROXY_RATE_LIMIT_RPM") s.bmc_proxy_rate_limit_rpm v.proxy_rpm;
  db = text_given-ne (env "KVM_DB_PATH") s.db_path v.db;
  audit = flag_given-ne (env "KVM_AUDIT_LOG") (flag_from (env "KVM_AUDIT_LOG")) s.audit_log v.audit;
  creds_ttl = int_given-IsPos (env "KVM_BMC_CREDS_TTL_MINUTES") s.bmc_creds_ttl_minutes v.creds_ttl;
  retention = int_given-IsPos (env "KVM_AUDIT_RETENTION_DAYS") s.audit_retention_days v.retention;
  isos = text_given-ne (env "KVM_ISO_DIR") s.iso_dir v.isos;
  iso_size = int_given-IsPos (env "KVM_ISO_MAX_SIZE_GB") s.iso_max_size_gb v.iso_size;
  nfs = int_given-IsPos (env "KVM_NFS_PORT") s.nfs_port v.nfs;
}

pub default_servers-IsReachable : (ss : List ServerConfig) → All IsReachable (default_servers ss)
unfolding default_servers default_server
default_servers-IsReachable [] = tt
default_servers-IsReachable (s ∷ ss) = ground (
  arith,
  or_int-IsPos (default_port s.board_type) s.bmc_port,
  or_int-IsPos (pos 30) s.poll_interval_seconds,
  default_servers-IsReachable ss,
)
