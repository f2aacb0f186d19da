-- ===== src/Config/Loading.antt =====
-- `Load`, and what every configuration that it returns satisfies.
use kvm_switcher.Config.SetUp.{
  default_servers-IsReachable, default_settings-IsSetUp, IsReachable, override_settings-IsSetUp,
  IsSetUp,
}
use kvm_switcher.Prelude.{◌≡◌, refl, subst, String, Option, none, some, string_eq, All, arith}
use kvm_switcher.Models.{AppConfig}
use kvm_switcher.Config.Validate.{Error, Outcome, validate}
use kvm_switcher.Config.Validate.Correct.{IsValid, validate-IsValid}
use kvm_switcher.Config.Defaults.{default_settings, set_defaults}
use kvm_switcher.Config.Env.{apply_env_overrides}

pub data Loaded : Type 0 where
  ok : AppConfig → Loaded
  unreadable : Loaded
  invalid : Error → Loaded
  panics : Loaded

abbrev finish : (String → String) → AppConfig → Outcome → Loaded
finish env cfg Outcome.ok = ok (apply_env_overrides env (set_defaults cfg))
finish env cfg (Outcome.err e) = invalid e
finish env cfg Outcome.panics = panics

-- The file is read and parsed by os and yaml: `none` is a failure of either.
unfoldable pub load : (String → String) → Option AppConfig → Loaded
load env none = unreadable
load env (some cfg) = finish env cfg (validate cfg)

finish-ok :
    (env : String → String) (parsed cfg : AppConfig) (o : Outcome)
    → finish env parsed o ≡ ok cfg
    → (o ≡ Outcome.ok) × (apply_env_overrides env (set_defaults parsed) ≡ cfg)
finish-ok env parsed cfg Outcome.ok h = (refl, ground arith)
finish-ok env parsed cfg (Outcome.err e) h = cc
finish-ok env parsed cfg Outcome.panics h = cc

abbrev IsReady : AppConfig → AppConfig → Type 0
IsReady parsed cfg = (cfg.oidc ≡ parsed.oidc) × IsSetUp cfg.settings × All IsReachable cfg.servers

ready :
    (env : String → String) (parsed : AppConfig)
    → IsReady parsed (apply_env_overrides env (set_defaults parsed))
unfolding apply_env_overrides set_defaults
ready env parsed = (
  refl,
  override_settings-IsSetUp env (default_settings parsed.settings)
      (default_settings-IsSetUp parsed.settings),
  default_servers-IsReachable parsed.servers,
)

-- Whatever the file and the environment hold, a configuration that `Load` returns comes from a valid
-- one, keeps its OIDC settings, and has every count, timeout, rate, port and interval positive, every
-- path and the listen address non-empty, and some allowed origin.
pub load-IsSetUp :
    (env : String → String) (parsed cfg : AppConfig)
    → load env (some parsed) ≡ ok cfg
    → IsValid parsed
      × ((cfg.oidc ≡ parsed.oidc) × IsSetUp cfg.settings × All IsReachable cfg.servers)
unfolding load
load-IsSetUp env parsed cfg h =
    let (passed, same) = finish-ok env parsed cfg (validate parsed) h in
    ((validate-IsValid parsed).0 passed, subst (IsReady parsed) same (ready env parsed))
