-- ===== src/Oidc/Tests.antt =====
-- A login, and the theorems at concrete inputs.
use kvm_switcher.Prelude.{
  ◌≡◌, ◌≢◌, ◌↔◌, refl, String, true, false, none, some, [], ◌∷◌, ◌==◌, string_eq, lookup, contains,
  eq_iff, arith,
}
use kvm_switcher.Models.{OidcConfig, UserInfo, AppConfig}
use kvm_switcher.Config.Validate.{
  validate, check_servers, check_oidc, check_mappings, check_mapped, names_of,
}
use kvm_switcher.Config.Validate.Correct.{IsValid, validate-IsValid}
use kvm_switcher.Config.Tests.{server, blank, no_oidc}
use kvm_switcher.Oidc.{
  Provider, Request, Answers, Claim, Claims, Item, redirects, UserSession, handle_callback,
  check_token, start_session, middleware, unauthorized, admits, user_of, extract_roles, roles_of,
  texts, user_can_access_server, allows, panics,
}
use kvm_switcher.Oidc.Roles.{Grants, user_can_access_server-Grants}
use kvm_switcher.Oidc.Login.{Opens, Verified, handle_callback-Opens, middleware-handle_callback}

ne : (a b : String) → (a == b) ≡ false → a ≢ b
ne a b h e = ground (arith, eq_iff a b)

abbrev oidc : OidcConfig
oidc = record no_oidc {
  enabled = true;
  issuer_url = "https://id.example";
  client_id = "kvm";
  client_secret_env = "KVM_SECRET";
  redirect_url = "https://kvm.example/auth/callback";
  role_mappings = ("ops", some (record { servers = "rack-1" ∷ [] })) ∷ [];
}

abbrev config : AppConfig
config = record { servers = server ∷ []; settings = blank; oidc = oidc }

config-IsValid : IsValid config
unfolding validate check_oidc check_servers check_mappings check_mapped names_of contains
config-IsValid = (validate-IsValid config).0 refl

abbrev ann : UserInfo
ann = record { email = "ann@example"; name = "Ann"; roles = "dev" ∷ "ops" ∷ [] }

user_can_access_server-Grants_example :
    (user_can_access_server oidc (some ann) "rack-1" ≢ panics)
    × ((user_can_access_server oidc (some ann) "rack-1" ≡ allows)
        ↔ Grants oidc.role_mappings "rack-1" ann.roles)
user_can_access_server-Grants_example =
    user_can_access_server-Grants config ann "rack-1" config-IsValid refl

abbrev claims : Claims
claims =
    ("email", Claim.text "ann@example")
    ∷ ("groups", Claim.items (Item.text "dev" ∷ Item.other ∷ Item.text "ops" ∷ []))
    ∷ []

abbrev answers : Answers
answers = record {
  exchange = λ code. some (record { id_token = some "raw"; refresh_token = "r"; expiry = 100 });
  verify = λ raw. some (some claims);
  random = some "s2";
}

abbrev request : Request
request = record {
  state_cookie = some "xyz";
  session_cookie = some "s1";
  query_state = "xyz";
  code = "c";
  remote_ip = "10.0.0.1";
}

abbrev session : UserSession
session = record { id = "s1"; user = ann; id_token = "old"; refresh_token = ""; expires_at = 1 }

abbrev provider : Provider
provider = record { config = oidc; sessions = ("s1", session) ∷ []; audited = none }

abbrev after : Provider
after = (handle_callback answers request provider).0

logs_in : handle_callback answers request provider ≡ (after, redirects "s2")
unfolding handle_callback check_token start_session
logs_in = refl

roles_extracted : (user_of oidc claims).roles ≡ "dev" ∷ "ops" ∷ []
unfolding user_of extract_roles roles_of texts lookup
roles_extracted = refl

handle_callback-Opens_example :
    (◌≢◌ {A = String} "xyz" "")
    × (◌≡◌ {A = String} "xyz" "xyz")
    × Opens answers request provider after "s2"
handle_callback-Opens_example = handle_callback-Opens answers request provider after "s2" logs_in

middleware-handle_callback_example :
    ((s : UserSession) × Verified answers request oidc "s2" s
      × (middleware (some "s2") after ≡ admits s.user))
    × (middleware (some "s1") after ≡ unauthorized "session expired")
middleware-handle_callback_example =
    middleware-handle_callback answers request provider after "s2" "s1" logs_in (ne "s2" "" refl)
      refl (ne "s1" "" refl) (ne "s1" "s2" refl)

abbrev nameless : Answers
nameless = record answers { random = none }
