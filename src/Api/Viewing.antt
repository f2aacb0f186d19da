-- ===== src/Api/Viewing.antt =====
-- internal/api/handlers.go: the handlers through which viewers ask for control of a session, get it and give it.
pub mod TakenOver
mod Tests
use kvm_switcher.Prelude.{
  [], not, nat_eq, false, ◌&&◌, true, string_eq, ◌∷◌, ◌==◌, insert, if◌then◌else◌, lookup, some,
  none, List, Option, Bool, String, ℕ,
}
use kvm_switcher.Viewers.{
  release_control, list, accept_control_request, deny_control_request, new, count, request_control,
  Viewer, Registry,
}
use kvm_switcher.Api.{log_audit, ApiServer}
use kvm_switcher.Models.{UserInfo}
use kvm_switcher.Session.{KvmSession, SessionStore}

pub data ViewAnswer : Type 0 where
  refused : ℕ → String → ViewAnswer
  agreed : ViewAnswer
  agreed_for : String → ViewAnswer

-- A request: the user of the login, the host part of the address, and the `viewer_id` of the body, which is
-- empty without one.
pub record Caller : Type 0 where
  pub user : Option UserInfo
  pub ip : String
  pub viewer_id : String

-- Display name, email and address.
unfoldable pub resolve_viewer_identity : Caller → String × String × String
resolve_viewer_identity c = elim c.user [
  | none ↦ (c.ip, "", c.ip)
  | some u ↦ (u.email, u.email, c.ip)
]

-- The first viewer of that address that has control, or has not, or else nobody.
unfoldable pub viewer_at : Bool → String → List Viewer → String
viewer_at control ip [] = ""
viewer_at control ip (v ∷ vs) =
    if v.ip == ip && (if control then v.has_control else not v.has_control)
    then v.id
    else viewer_at control ip vs

abbrev pub chosen : Bool → Caller → Registry → String
chosen control c r = if c.viewer_id == "" then viewer_at control c.ip (list r) else c.viewer_id

module _ (st : SessionStore) where
  unfoldable pub ensure_viewer_registry : String → ApiServer st → Registry × ApiServer st
  ensure_viewer_registry id a = elim (lookup id a.viewer_registries) [
    | some r ↦ (r, a)
    | none ↦ (new, record a { viewer_registries = insert id new a.viewer_registries })
  ]

  abbrev pub audited_as : String → Caller → KvmSession → String → ApiServer st → ApiServer st
  audited_as event c s id a =
      let (name, email, ip) = resolve_viewer_identity c in
      log_audit st
        (record {
          event_type = event;
          user_email = email;
          server_name = s.server_name;
          session_id = id;
          remote_addr = ip;
        })
        a

  abbrev pub with_registry : String → Registry → ApiServer st → ApiServer st
  with_registry id r a = record a { viewer_registries = insert id r a.viewer_registries }

  -- From the choice of the viewer on.
  abbrev pub request_for :
      String
      → Caller
      → ℕ
      → KvmSession
      → Registry
      → String
      → ApiServer st
      → ApiServer st × ViewAnswer
  request_for id c now s r viewer a =
      let (asked, taken) = request_control viewer 30 now r in
      if viewer == ""
      then (a, refused 404 "viewer not found — pass viewer_id in request body")
      else if taken
      then (audited_as "kvm_control_request" c s id (with_registry id asked a), agreed_for viewer)
      else (with_registry id asked a, refused 409 "failed to request control")

  unfoldable pub request_viewer_control :
      String → Caller → ℕ → ApiServer st → ApiServer st × ViewAnswer
  request_viewer_control id c now a = elim (st.get id a.sessions) [
    | none ↦ (a, refused 404 "session not found")
    | some s ↦ elim (lookup id a.viewer_registries) [
      | none ↦ (a, refused 404 "no viewers connected")
      | some r ↦
          if count r == 0
          then (a, refused 404 "no viewers connected")
          else request_for id c now s r (chosen false c r) a
    ]
  ]

  unfoldable pub accept_viewer_request : String → Caller → ApiServer st → ApiServer st × ViewAnswer
  accept_viewer_request id c a = elim (st.get id a.sessions) [
    | none ↦ (a, refused 404 "session not found")
    | some s ↦ elim (lookup id a.viewer_registries) [
      | none ↦ (a, refused 404 "no viewers connected")
      | some r ↦
          let (next, taken) = accept_control_request r in
          if taken
          then (audited_as "kvm_control_transfer" c s id (with_registry id next a), agreed)
          else (with_registry id next a, refused 404 "no pending control request")
    ]
  ]

  unfoldable pub deny_viewer_request : String → ApiServer st → ApiServer st × ViewAnswer
  deny_viewer_request id a = elim (st.get id a.sessions) [
    | none ↦ (a, refused 404 "session not found")
    | some s ↦ elim (lookup id a.viewer_registries) [
      | none ↦ (a, refused 404 "no viewers connected")
      | some r ↦ (with_registry id (deny_control_request r) a, agreed)
    ]
  ]

  abbrev pub release_for :
      String → Caller → KvmSession → Registry → String → ApiServer st → ApiServer st × ViewAnswer
  release_for id c s r viewer a =
      if viewer == ""
      then (a, refused 404 "viewer not found — pass viewer_id in request body")
      else (
        audited_as "kvm_control_release" c s id (with_registry id (release_control viewer r) a),
        agreed,
      )

  unfoldable pub release_viewer_control : String → Caller → ApiServer st → ApiServer st × ViewAnswer
  release_viewer_control id c a = elim (st.get id a.sessions) [
    | none ↦ (a, refused 404 "session not found")
    | some s ↦ elim (lookup id a.viewer_registries) [
      | none ↦ (a, refused 404 "no viewers connected")
      | some r ↦
          if count r == 0
          then (a, refused 404 "no viewers connected")
          else release_for id c s r (chosen true c r) a
    ]
  ]
