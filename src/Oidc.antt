-- ===== src/Oidc.antt =====
-- internal/oidc/oidc.go: login by an OpenID Connect provider, the server-side sessions that it makes,
-- and the access of a user's roles to servers.
-- The provider's answers (the token exchange, the verification of the ID token) and the random
-- session name are arguments of the handlers, in `Answers`; the state cookie's name is not drawn.
pub mod Roles
pub mod Login
mod Tests
use kvm_switcher.Prelude.{
  ℕ, String, Bool, true, false, Option, none, some, List, [], ◌∷◌, ◌++◌, ◌==◌, string_eq, ◌||◌, not,
  if◌then◌else◌, lookup, insert, erase,
}
use kvm_switcher.Models.{OidcConfig, RoleMapping, UserInfo}

-- A decoded JSON claim, as far as the code tells its kinds apart.
pub data Item : Type 0 where
  text : String → Item
  other : Item

pub data Claim : Type 0 where
  text : String → Claim
  items : List Item → Claim
  other : Claim

abbrev pub Claims : Type 0
Claims = List (String × Claim)

pub record UserSession : Type 0 where
  pub id : String
  pub user : UserInfo
  pub id_token : String
  pub refresh_token : String
  pub expires_at : ℕ

pub record AuditEntry : Type 0 where
  pub event_type : String
  pub user_email : String
  pub remote_addr : String

-- `audited` holds the entries given to the audit backend, newest first, if there is one.
pub record Provider : Type 0 where
  pub config : OidcConfig
  pub sessions : List (String × UserSession)
  pub audited : Option (List AuditEntry)

-- The texts of a list claim.
unfoldable pub texts : List Item → List String
texts [] = []
texts (Item.text s ∷ is) = s ∷ texts is
texts (Item.other ∷ is) = texts is

unfoldable pub roles_of : Option Claim → List String
roles_of none = []
roles_of (some (Claim.items is)) = texts is
roles_of (some (Claim.text s)) = s ∷ []
roles_of (some Claim.other) = []

unfoldable pub extract_roles : OidcConfig → Claims → List String
extract_roles cfg claims =
    roles_of (lookup (if cfg.role_claim == "" then "groups" else cfg.role_claim) claims)

abbrev pub text_of : Option Claim → String
text_of (some (Claim.text s)) = s
text_of (some (Claim.items is)) = ""
text_of (some Claim.other) = ""
text_of none = ""

unfoldable pub string_claim : Claims → String → String
string_claim claims key = text_of (lookup key claims)

pub record Token : Type 0 where
  pub id_token : Option String
  pub refresh_token : String
  pub expiry : ℕ

-- What the request carries: the cookies (none where `r.Cookie` fails) and the query.
pub record Request : Type 0 where
  pub state_cookie : Option String
  pub session_cookie : Option String
  pub query_state : String
  pub code : String
  pub remote_ip : String

-- The token for a code, the claims of a raw ID token (`none` inside: they cannot be read), and the
-- random session name.
pub record Answers : Type 0 where
  pub exchange : String → Option Token
  pub verify : String → Option (Option Claims)
  pub random : Option String

-- `http.Error`, or a redirect with the session cookie that is set.
pub data Response : Type 0 where
  fails : ℕ → String → Response
  redirects : String → Response

abbrev pub log_audit : AuditEntry → Option (List AuditEntry) → Option (List AuditEntry)
log_audit e none = none
log_audit e (some es) = some (e ∷ es)

abbrev pub cookie_value : Option String → String
cookie_value none = ""
cookie_value (some v) = v

unfoldable pub user_of : OidcConfig → Claims → UserInfo
user_of cfg claims = record {
  email = string_claim claims "email";
  name = string_claim claims "name";
  roles = extract_roles cfg claims;
}

abbrev pub new_session : String → UserInfo → String → Token → UserSession
new_session id user raw token = record {
  id = id;
  user = user;
  id_token = raw;
  refresh_token = token.refresh_token;
  expires_at = token.expiry;
}

abbrev pub logged_in : UserInfo → String → AuditEntry
logged_in user ip = record { event_type = "auth_login"; user_email = user.email; remote_addr = ip }

-- The part of `HandleCallback` from the rotation of the session on.
unfoldable pub start_session :
    Answers → Request → UserInfo → String → Token → Provider → Provider × Response
start_session ans req user raw token p =
    let rotated : List (String × UserSession) =
      (if cookie_value req.session_cookie == ""
        then p.sessions
        else erase (cookie_value req.session_cookie) p.sessions) in
    elim ans.random [
      | none ↦ (record p { sessions = rotated }, fails 500 "internal error")
      | some id ↦ (
        record p {
          sessions = insert id (new_session id user raw token) rotated;
          audited = log_audit (logged_in user req.remote_ip) p.audited;
        },
        redirects id,
      )
    ]

-- From the ID token on.
unfoldable pub check_token : Answers → Request → Token → Provider → Provider × Response
check_token ans req token p = elim token.id_token [
  | none ↦ (p, fails 401 "missing id_token")
  | some raw ↦ elim (ans.verify raw) [
    | none ↦ (p, fails 401 "invalid token")
    | some none ↦ (p, fails 500 "failed to read claims")
    | some (some claims) ↦ start_session ans req (user_of p.config claims) raw token p
  ]
]

unfoldable pub handle_callback : Answers → Request → Provider → Provider × Response
handle_callback ans req p =
    if cookie_value req.state_cookie == ""
    then (p, fails 400 "missing state cookie")
    else if not (req.query_state == cookie_value req.state_cookie)
    then (p, fails 400 "state mismatch")
    else elim (ans.exchange req.code) [
      | none ↦ (p, fails 401 "authentication failed")
      | some token ↦ check_token ans req token p
    ]

abbrev pub email_of : Option UserSession → String
email_of none = ""
email_of (some s) = s.user.email

abbrev pub logged_out : String → String → AuditEntry
logged_out email ip = record { event_type = "auth_logout"; user_email = email; remote_addr = ip }

unfoldable pub handle_logout : Request → Provider → Provider
handle_logout req p = elim req.session_cookie [
  | none ↦ record p { audited = log_audit (logged_out "" req.remote_ip) p.audited }
  | some c ↦ record p {
    sessions = erase c p.sessions;
    audited = log_audit (logged_out (email_of (lookup c p.sessions)) req.remote_ip) p.audited;
  }
]

pub data Verdict : Type 0 where
  unauthorized : String → Verdict
  admits : UserInfo → Verdict

abbrev pub verdict : Option UserSession → Verdict
verdict none = unauthorized "session expired"
verdict (some s) = admits s.user

-- `admits` is the call of the next handler with the user in its context.
unfoldable pub middleware : Option String → Provider → Verdict
middleware cookie p =
    if cookie_value cookie == ""
    then unauthorized "authentication required"
    else verdict (lookup (cookie_value cookie) p.sessions)

-- `none` is the answer that nobody is authenticated.
unfoldable pub handle_me : Option String → Provider → Option UserInfo
handle_me cookie p =
    if cookie_value cookie == ""
    then none
    else elim (lookup (cookie_value cookie) p.sessions) [ none ↦ none | some s ↦ some s.user ]

-- Whether a role's servers include the server or the wildcard.
unfoldable pub serves : String → List String → Bool
serves name [] = false
serves name (s ∷ ss) = s == "*" || s == name || serves name ss

-- `panics` is a role whose mapping is the nil pointer.
pub data Access : Type 0 where
  allows denies panics : Access

unfoldable pub any_role : List (String × Option RoleMapping) → String → List String → Access
any_role ms name [] = denies
any_role ms name (role ∷ roles) =
    let rest = any_role ms name roles in
    elim (lookup role ms) [
      | none ↦ rest
      | some none ↦ panics
      | some (some m) ↦ if serves name m.servers then allows else rest
    ]

unfoldable pub user_can_access_server : OidcConfig → Option UserInfo → String → Access
user_can_access_server cfg none name = denies
user_can_access_server cfg (some user) name = any_role cfg.role_mappings name user.roles
