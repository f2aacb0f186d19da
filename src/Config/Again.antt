-- ===== src/Config/Again.antt =====
-- internal/config/config.go: a second pass of the defaults.
use kvm_switcher.Config.SetUp.{
  default_servers-IsReachable, IsPos, default_settings-IsSetUp, IsReachable, IsSetUp,
}
use kvm_switcher.Prelude.{
  ◌≡◌, ◌≢◌, refl, ℤ, pos, String, Bool, true, Option, none, some, List, [], ◌∷◌, string_eq, All,
  eq_iff, arith,
}
use kvm_switcher.Models.{ServerConfig, Settings, AppConfig}
use kvm_switcher.Config.Defaults.{
  or_int, or_text, or_list, or_flag, default_port, default_settings, default_server,
  default_servers, set_defaults,
}

or_int-keep : (d z : ℤ) → IsPos z → or_int d z ≡ z
or_int-keep d z h = ground arith

or_text-keep : (d s : String) → s ≢ "" → or_text d s ≡ s
or_text-keep d s h = ground (arith, eq_iff s "")

or_list-keep : (d xs : List String) → xs ≢ [] → or_list d xs ≡ xs
or_list-keep d [] h = absurd (h refl)
or_list-keep d (x ∷ xs) h = refl

or_flag-keep : (d : Bool) (o : Option Bool) → o ≢ none → or_flag d o ≡ o
or_flag-keep d none h = absurd (h refl)
or_flag-keep d (some b) h = refl

default_settings-keep : (s : Settings) → IsSetUp s → default_settings s ≡ s
unfolding default_settings
default_settings-keep s v = ground (
  arith,
  or_int-keep (pos 4) s.max_concurrent_sessions v.sessions,
  or_int-keep (pos 60) s.session_timeout_minutes v.session_timeout,
  or_int-keep (pos 30) s.idle_timeout_minutes v.idle_timeout,
  or_text-keep "0.0.0.0:8080" s.listen_address v.listen,
  or_list-keep ("*" ∷ []) s.cors_origins v.origins,
  or_int-keep (pos 60) s.rate_limit_rpm v.rpm,
  or_int-keep (pos 300) s.bmc_proxy_rate_limit_rpm v.proxy_rpm,
  or_text-keep "data/kvm-switcher.db" s.db_path v.db,
  or_flag-keep true s.audit_log v.audit,
  or_int-keep (pos 120) s.bmc_creds_ttl_minutes v.creds_ttl,
  or_int-keep (pos 90) s.audit_retention_days v.retention,
  or_text-keep "data/isos/" s.iso_dir v.isos,
  or_int-keep (pos 10) s.iso_max_size_gb v.iso_size,
  or_int-keep (pos 2049) s.nfs_port v.nfs,
)

default_servers-keep : (ss : List ServerConfig) → All IsReachable ss → default_servers ss ≡ ss
unfolding default_servers default_server
default_servers-keep [] h = refl
default_servers-keep (s ∷ ss) h = ground (
  arith,
  or_int-keep (default_port s.board_type) s.bmc_port h.0.0,
  or_int-keep (pos 30) s.poll_interval_seconds h.0.1,
  default_servers-keep ss h.1,
)

-- The defaults fill in what is missing and replace nothing that is set: a second pass changes
-- nothing.
pub set_defaults_idem : (cfg : AppConfig) → set_defaults (set_defaults cfg) ≡ set_defaults cfg
unfolding set_defaults
set_defaults_idem cfg = ground (
  arith,
  default_settings-keep (default_settings cfg.settings) (default_settings-IsSetUp cfg.settings),
  default_servers-keep (default_servers cfg.servers) (default_servers-IsReachable cfg.servers),
)
