-- ===== src/Oidc/Roles.antt =====
-- Who may reach which server.
use kvm_switcher.Prelude.{
  ◌≡◌, ◌≢◌, ◌↔◌, ◌⊎◌, String, Bool, true, false, Option, none, some, List, [], ◌∷◌, string_eq,
  lookup, contains, All, arith, Option-cases, inl, inr,
}
use kvm_switcher.Models.{RoleMapping, UserInfo, AppConfig}
use kvm_switcher.Config.Validate.Correct.{IsValid, MapsKnown, UsableIf, IsUsable}
use kvm_switcher.Config.Validate.{names_of}
use kvm_switcher.Oidc.{allows, panics, serves, any_role, user_can_access_server}

-- A role's mapping names the server or the wildcard.
abbrev pub Covers : String → Option (Option RoleMapping) → Type 0
Covers name (some (some m)) = (contains "*" m.servers ≡ true) ⊎ (contains name m.servers ≡ true)
Covers name (some none) = ⊥
Covers name none = ⊥

-- Some role of the list does.
abbrev pub Grants : List (String × Option RoleMapping) → String → List String → Type 0
Grants ms name [] = ⊥
Grants ms name (role ∷ roles) = Covers name (lookup role ms) ⊎ Grants ms name roles

serves_iff :
    (name : String) (ss : List String)
    → (serves name ss ≡ true) ↔ ((contains "*" ss ≡ true) ⊎ (contains name ss ≡ true))
unfolding serves contains
serves_iff name [] = ground arith
serves_iff name (s ∷ ss) = ground (arith, serves_iff name ss)

-- A mapping that a valid configuration holds is no nil pointer.
mapped-ne-none :
    (known : List String) (role : String) (ms : List (String × Option RoleMapping))
    → All (MapsKnown known) ms
    → lookup role ms ≢ some none
unfolding lookup
mapped-ne-none known role [] h = ground arith
mapped-ne-none known role ((r, none) ∷ ms) h = absurd h.0
mapped-ne-none known role ((r, some m) ∷ ms) h = ground (arith, mapped-ne-none known role ms h.1)

any_role_lem :
    (known : List String) (ms : List (String × Option RoleMapping)) (name : String)
    (roles : List String)
    → All (MapsKnown known) ms
    → (any_role ms name roles ≢ panics) × ((any_role ms name roles ≡ allows) ↔ Grants ms name roles)
unfolding any_role
any_role_lem known ms name [] h = ground arith
any_role_lem known ms name (role ∷ roles) h = elim (Option-cases (lookup role ms)) [
  | inl e ↦ ground (arith, any_role_lem known ms name roles h)
  | inr (none, e) ↦ absurd (mapped-ne-none known role ms h e)
  | inr (some m, e) ↦ ground (arith, any_role_lem known ms name roles h, serves_iff name m.servers)
]

usable :
    (b : Bool) (cfg : AppConfig)
    → b ≡ true
    → UsableIf b cfg.servers cfg.oidc
    → IsUsable cfg.servers cfg.oidc
usable true cfg e u = u
usable false cfg e u = cc

-- In a configuration that passed validation with OIDC enabled, the check of a user's access never
-- dereferences a missing mapping, and it allows a server exactly to the users of whose roles one is
-- mapped to the server's name or to the wildcard.
pub user_can_access_server-Grants :
    (cfg : AppConfig) (user : UserInfo) (name : String)
    → IsValid cfg
    → cfg.oidc.enabled ≡ true
    → (user_can_access_server cfg.oidc (some user) name ≢ panics)
      × ((user_can_access_server cfg.oidc (some user) name ≡ allows)
          ↔ Grants cfg.oidc.role_mappings name user.roles)
unfolding user_can_access_server
user_can_access_server-Grants cfg user name v e =
    any_role_lem (names_of cfg.servers) cfg.oidc.role_mappings name user.roles
      (usable cfg.oidc.enabled cfg e v.usable).mapped
