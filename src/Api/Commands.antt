-- ===== src/Api/Commands.antt =====
-- internal/api/handlers.go: the handlers that send commands to the board of a session through its bridge. The
-- bridges are values here, by the session's name.
pub mod Power
pub mod Asked
pub mod Told
mod Tests
use kvm_switcher.Prelude.{
  [], string_eq, ◌∷◌, false, insert, ◌==◌, true, if◌then◌else◌, lookup, none, some, is_some, Bool,
  Option, List, String, ℕ,
}
use kvm_switcher.Ikvm.Bridge.{
  send_ipmi_command, reset_video, set_mouse_mode, send_power_command, set_keyboard_layout,
  send_display_lock, screenshot, Bridge,
}
use kvm_switcher.Api.{find_server, log_audit, ApiServer}
use kvm_switcher.Api.Sessions.{email_of}
use kvm_switcher.Ikvm.Decoder.State.{Pixel}
use kvm_switcher.Models.{UserInfo}
use kvm_switcher.Session.{KvmSession, SessionStore}
use kvm_switcher.Ikvm.Bytes.{Bytes}

pub data CommandAnswer : Type 0 where
  rejected : ℕ → String → CommandAnswer
  done : CommandAnswer

-- A request: the user of the login, the address, and its host part.
pub record Commander : Type 0 where
  pub user : Option UserInfo
  pub remote_addr : String
  pub ip : String

abbrev pub Bridges : Type 0
Bridges = List (String × Bridge)

module _ (st : SessionStore) where
  abbrev pub name_of : Option KvmSession → String
  name_of none = ""
  name_of (some s) = s.server_name

  abbrev pub told : String → String → String → String → ApiServer st → ApiServer st
  told event email ip id a =
      log_audit st
        (record {
          event_type = event;
          user_email = email;
          server_name = name_of (st.get id a.sessions);
          session_id = id;
          remote_addr = ip;
        })
        a

  -- The end of every handler: the command on the bridge, and the audit entry if it was sent. A command that
  -- fails leaves the bridge as it is.
  abbrev pub commanded_on :
      String
      → String
      → String
      → String
      → (Bridge → Option String × Bridge)
      → Bridge
      → Bridges
      → ApiServer st
      → (Bridges × ApiServer st) × CommandAnswer
  commanded_on event email ip id command b bs a =
      let (failure, after) = command b in
      elim failure [
        | some e ↦ ((bs, a), rejected 500 e)
        | none ↦ ((insert id after bs, told event email ip id a), done)
      ]

  -- The start of every handler: the bridge, then the decoded body (none: it cannot be decoded), then what
  -- the body asks for (none: it is refused with the message).
  abbrev pub handled {ℓ} :
      {A : Type ℓ}
      → String
      → String
      → String
      → String
      → String
      → Option A
      → (A → Option (Bridge → Option String × Bridge))
      → Bridges
      → ApiServer st
      → (Bridges × ApiServer st) × CommandAnswer
  handled event email ip message id body means bs a = elim (lookup id bs) [
    | none ↦ ((bs, a), rejected 404 "no active KVM bridge for this session")
    | some b ↦ elim body [
      | none ↦ ((bs, a), rejected 400 "invalid request body")
      | some x ↦ elim (means x) [
        | none ↦ ((bs, a), rejected 400 message)
        | some command ↦ commanded_on event email ip id command b bs a
      ]
    ]
  ]

  unfoldable pub kvm_display_lock :
      String
      → Option Bool
      → Commander
      → Bridges
      → ApiServer st
      → (Bridges × ApiServer st) × CommandAnswer
  kvm_display_lock id body c bs a =
      handled "kvm_display_lock" (email_of c.user) c.ip "" id body
        (λ lock. some (send_display_lock lock)) bs a

  -- Without a body.
  unfoldable pub kvm_reset_video :
      String → Commander → Bridges → ApiServer st → (Bridges × ApiServer st) × CommandAnswer
  kvm_reset_video id c bs a =
      handled "kvm_reset_video" (email_of c.user) c.ip "" id (some true) (λ _. some reset_video) bs
        a

  abbrev pub mouse_code : String → Option (Bridge → Option String × Bridge)
  mouse_code mode =
      if mode == "relative"
      then some (set_mouse_mode 1)
      else if mode == "absolute"
      then some (set_mouse_mode 2)
      else none

  unfoldable pub kvm_mouse_mode :
      String
      → Option String
      → Commander
      → Bridges
      → ApiServer st
      → (Bridges × ApiServer st) × CommandAnswer
  kvm_mouse_mode id body c bs a =
      handled "kvm_mouse_mode" (email_of c.user) c.ip "invalid mode: must be relative or absolute"
        id body mouse_code bs a

  -- The two letters of a layout as bytes.
  abbrev pub layout_code : String → Option (Bridge → Option String × Bridge)
  layout_code layout =
      if layout == "en"
      then some (set_keyboard_layout (65 ∷ 68 ∷ []))
      else if layout == "fr"
      then some (set_keyboard_layout (70 ∷ 82 ∷ []))
      else if layout == "de"
      then some (set_keyboard_layout (68 ∷ 69 ∷ []))
      else if layout == "es"
      then some (set_keyboard_layout (69 ∷ 83 ∷ []))
      else if layout == "jp"
      then some (set_keyboard_layout (74 ∷ 80 ∷ []))
      else none

  unfoldable pub kvm_keyboard_layout :
      String
      → Option String
      → Commander
      → Bridges
      → ApiServer st
      → (Bridges × ApiServer st) × CommandAnswer
  kvm_keyboard_layout id body c bs a =
      handled "kvm_keyboard_layout" (email_of c.user) c.ip "invalid layout: must be en/fr/de/es/jp"
        id body layout_code bs a

  abbrev pub ipmi_of : Bytes → Option (Bridge → Option String × Bridge)
  ipmi_of [] = none
  ipmi_of (x ∷ xs) = some (send_ipmi_command (x ∷ xs))

  unfoldable pub kvm_ipmi_command :
      String
      → Option Bytes
      → Commander
      → Bridges
      → ApiServer st
      → (Bridges × ApiServer st) × CommandAnswer
  kvm_ipmi_command id body c bs a =
      handled "kvm_ipmi_command" (email_of c.user) c.ip "data is required" id body ipmi_of bs a

  -- The image of the screen, which is encoded as a PNG.
  unfoldable pub kvm_screenshot :
      String
      → Commander
      → Bridges
      → ApiServer st
      → ApiServer st × CommandAnswer × Option (ℕ × ℕ × (ℕ → Pixel))
  kvm_screenshot id c bs a = elim (lookup id bs) [
    | none ↦ (a, rejected 404 "no active KVM bridge for this session", none)
    | some b ↦ elim (screenshot b) [
      | none ↦ (a, rejected 503 "no framebuffer available", none)
      | some image ↦ (told "kvm_screenshot" (email_of c.user) c.ip id a, done, some image)
    ]
  ]
