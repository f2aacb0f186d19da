-- ===== src/Config/Env.antt =====
-- `applyEnvOverrides` and `GetPassword`, with the parts of strconv and strings that they use. The
-- environment is a function that gives the empty text for a variable that is not set.

use kvm_switcher.Prelude.{
  ℕ, zero, suc, ◌+◌, ◌-◌, ◌*◌, ◌^◌, ℤ, pos, negsuc, is_pos, String, code, Bool, true, false, Option,
  none, some, List, [], ◌∷◌, ◌==◌, nat_eq, string_eq, ◌||◌, ◌&&◌, leb, ltb, if◌then◌else◌,
}
use kvm_switcher.Models.{ServerConfig, Settings, AppConfig}

-- `strings.Split(v, ",")`: the text before the first comma, and the fields after it.
abbrev split_from : String → String × List String
split_from String.[] = ("", [])
split_from (String.◌∷◌ c s) =
    let (field, fields) = split_from s in
    if code c == b',' then ("", field ∷ fields) else (String.◌∷◌ c field, fields)

unfoldable pub split : String → List String
split s = let (field, fields) = split_from s in field ∷ fields

-- The digits of `strconv.Atoi`, most significant first; `none` at any other character.
unfoldable pub digits_from : ℕ → String → Option ℕ
digits_from acc String.[] = some acc
digits_from acc (String.◌∷◌ c s) =
    let rest = digits_from (acc * 10 + (code c - b'0')) s in
    if leb b'0' (code c) && leb (code c) b'9' then rest else none

unfoldable pub digits : String → Option ℕ
digits String.[] = none
digits (String.◌∷◌ c s) = digits_from 0 (String.◌∷◌ c s)

-- Values outside of 64 bits are errors.
unfoldable pub to_int : Bool → Option ℕ → Option ℤ
to_int negative none = none
to_int false (some n) = if ltb n (2 ^ 63) then some (pos n) else none
to_int true (some zero) = some (pos zero)
to_int true (some (suc n)) = if ltb n (2 ^ 63) then some (negsuc n) else none

unfoldable pub atoi : String → Option ℤ
unfolding digits digits_from to_int
atoi String.[] = none
atoi (String.◌∷◌ c s) =
    if code c == b'-'
    then to_int true (digits s)
    else if code c == b'+'
    then to_int false (digits s)
    else to_int false (digits (String.◌∷◌ c s))

-- `if n, err := strconv.Atoi(v); err == nil && n > 0`, with `v` not empty.
unfoldable pub int_from : String → ℤ → ℤ
int_from v old = elim (atoi v) [ none ↦ old | some n ↦ if is_pos n then n else old ]

abbrev pub flag_from : String → Bool
flag_from v = v == "true" || v == "1"

-- `if v := os.Getenv(...); v != ""`
abbrev pub given {ℓ} : {A : Type ℓ} → String → A → A → A
given v new old = if v == "" then old else new

unfoldable pub override_settings : (String → String) → Settings → Settings
override_settings env s = record s {
  cors_origins = given (env "KVM_CORS_ORIGINS") (split (env "KVM_CORS_ORIGINS")) s.cors_origins;
  rate_limit_rpm =
      given (env "KVM_RATE_LIMIT_RPM") (int_from (env "KVM_RATE_LIMIT_RPM") s.rate_limit_rpm)
        s.rate_limit_rpm;
  db_path = given (env "KVM_DB_PATH") (env "KVM_DB_PATH") s.db_path;
  audit_log = given (env "KVM_AUDIT_LOG") (some (flag_from (env "KVM_AUDIT_LOG"))) s.audit_log;
  metrics_enabled =
      given (env "KVM_METRICS_ENABLED") (flag_from (env "KVM_METRICS_ENABLED")) s.metrics_enabled;
  bmc_proxy_rate_limit_rpm =
      given (env "KVM_BMC_PROXY_RATE_LIMIT_RPM")
        (int_from (env "KVM_BMC_PROXY_RATE_LIMIT_RPM") s.bmc_proxy_rate_limit_rpm)
        s.bmc_proxy_rate_limit_rpm;
  bmc_creds_ttl_minutes =
      given (env "KVM_BMC_CREDS_TTL_MINUTES")
        (int_from (env "KVM_BMC_CREDS_TTL_MINUTES") s.bmc_creds_ttl_minutes)
        s.bmc_creds_ttl_minutes;
  audit_retention_days =
      given (env "KVM_AUDIT_RETENTION_DAYS")
        (int_from (env "KVM_AUDIT_RETENTION_DAYS") s.audit_retention_days) s.audit_retention_days;
  iso_dir = given (env "KVM_ISO_DIR") (env "KVM_ISO_DIR") s.iso_dir;
  iso_max_size_gb =
      given (env "KVM_ISO_MAX_SIZE_GB") (int_from (env "KVM_ISO_MAX_SIZE_GB") s.iso_max_size_gb)
        s.iso_max_size_gb;
  iso_serve_address =
      given (env "KVM_ISO_SERVE_ADDRESS") (env "KVM_ISO_SERVE_ADDRESS") s.iso_serve_address;
  nfs_enabled =
      given (env "KVM_NFS_ENABLED") (some (flag_from (env "KVM_NFS_ENABLED"))) s.nfs_enabled;
  nfs_port = given (env "KVM_NFS_PORT") (int_from (env "KVM_NFS_PORT") s.nfs_port) s.nfs_port;
}

unfoldable pub apply_env_overrides : (String → String) → AppConfig → AppConfig
apply_env_overrides env cfg = record cfg { settings = override_settings env cfg.settings }

-- `none` is the error that the variable is not set.
unfoldable pub get_password : (String → String) → ServerConfig → Option String
get_password env s = if env s.credential_env == "" then none else some (env s.credential_env)
