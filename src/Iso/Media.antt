-- ===== src/Iso/Media.antt =====
-- internal/api/handlers.go: virtual media, the images that a board gives to its server. What a
-- board answers is an argument; the calls of its handler are values.
pub mod Local
pub mod Outcomes
mod Tests
use kvm_switcher.Iso.{get_iso, IsoServer, IsoFile}
use kvm_switcher.Prelude.{
  string_eq, nat_eq, insert, contains, ◌==◌, code, lookup, List, if◌then◌else◌, Bool, Option,
  String, ℕ, [], ◌∷◌, none, some, true, false,
}
use kvm_switcher.Iso.Names.{sanitize_iso_filename}
use kvm_switcher.Api.{find_server, log_audit, BmcCredentials, ApiServer}
use kvm_switcher.Api.Sessions.{email_of}
use kvm_switcher.Models.{UserInfo, Settings, ServerConfig}
use kvm_switcher.Session.{SessionStore}
use Prim.Native.String.{◌++◌}

pub data MediaCall : Type 0 where
  mounts : ServerConfig → BmcCredentials → String → MediaCall
  ejects : ServerConfig → BmcCredentials → MediaCall

-- `boards.Get` and the test for virtual media.
pub data Support : Type 0 where
  unknown_board unsupported supported : Support

pub data Resolved : Type 0 where
  unresolved : ℕ → String → Resolved
  resolved : ServerConfig → BmcCredentials → Resolved

pub data MediaAnswer : Type 0 where
  rejected : ℕ → String → MediaAnswer
  done : String → MediaAnswer

-- The user, the address, its host part, and whether the board does what it is asked for.
pub record MediaRequest : Type 0 where
  pub user : Option UserInfo
  pub remote_addr : String
  pub ip : String
  pub board_agrees : Bool

abbrev pub allowed_schemes : List String
allowed_schemes = "http" ∷ "https" ∷ "nfs" ∷ "cifs" ∷ []

module _ (st : SessionStore) where
  -- The credentials of the session, or else those of the server's proxy.
  unfoldable pub media_creds : String → String → ApiServer st → Option BmcCredentials
  media_creds id server a = elim (lookup id a.bmc_creds) [
    | some entry ↦ some entry.creds
    | none ↦ elim (lookup server a.proxies) [ none ↦ none | some p ↦ p.bmc_creds ]
  ]

  abbrev pub supported_by : Support → ServerConfig → BmcCredentials → Resolved
  supported_by unknown_board cfg creds = unresolved 404 "unsupported board type"
  supported_by unsupported cfg creds =
      unresolved 501 "virtual media not supported for this board type"
  supported_by supported cfg creds = resolved cfg creds

  unfoldable pub resolve_virtual_media : (String → Support) → String → ApiServer st → Resolved
  resolve_virtual_media board id a = elim (st.get id a.sessions) [
    | none ↦ unresolved 404 "session not found"
    | some s ↦ elim (find_server s.server_name a.config.servers) [
      | none ↦ unresolved 404 "server config not found"
      | some cfg ↦ elim (media_creds id s.server_name a) [
        | none ↦ unresolved 502 "no BMC credentials available"
        | some creds ↦ supported_by (board cfg.board_type) cfg creds
      ]
    ]
  ]

  abbrev pub media_audit : String → String → String → String → ApiServer st → ApiServer st
  media_audit event email id ip a =
      log_audit st
        (record {
          event_type = event;
          user_email = email;
          server_name = elim (st.get id a.sessions) [ none ↦ "" | some s ↦ s.server_name ];
          session_id = id;
          remote_addr = ip;
        })
        a

  -- The call of the board's handler and what follows it.
  abbrev pub call_board :
      String
      → String
      → String
      → MediaCall
      → String
      → MediaRequest
      → ApiServer st
      → (ApiServer st × List MediaCall) × MediaAnswer
  call_board event failure id call detail r a =
      if r.board_agrees
      then ((media_audit event (email_of r.user) id r.ip a, call ∷ []), done detail)
      else ((a, call ∷ []), rejected 500 failure)

  -- `scheme` is the scheme of a URL in lower case; the body is `none` where it cannot be decoded.
  unfoldable pub virtual_media_mount :
      (String → Support)
      → (String → Option String)
      → String
      → Option String
      → MediaRequest
      → ApiServer st
      → (ApiServer st × List MediaCall) × MediaAnswer
  virtual_media_mount board scheme id body r a = elim (resolve_virtual_media board id a) [
    | unresolved code msg ↦ ((a, []), rejected code msg)
    | resolved cfg creds ↦ elim body [
      | none ↦ ((a, []), rejected 400 "invalid request body")
      | some url ↦
          if url == "" then ((a, []), rejected 400 "image_url is required") else elim (scheme url) [
            | none ↦ ((a, []), rejected 400 "invalid image URL")
            | some name ↦
                if contains name allowed_schemes
                then call_board "virtual_media_mount" "mount failed" id (mounts cfg creds url) url r
                    a
                else ((a, []), rejected 400 "image_url must use http, https, nfs, or cifs scheme")
          ]
    ]
  ]

  unfoldable pub virtual_media_eject :
      (String → Support)
      → String
      → MediaRequest
      → ApiServer st
      → (ApiServer st × List MediaCall) × MediaAnswer
  virtual_media_eject board id r a = elim (resolve_virtual_media board id a) [
    | unresolved code msg ↦ ((a, []), rejected code msg)
    | resolved cfg creds ↦
        call_board "virtual_media_eject" "eject failed" id (ejects cfg creds) "" r a
  ]

  -- `status` is the answer of the board.
  unfoldable pub virtual_media_status :
      (String → Support)
      → (ServerConfig → BmcCredentials → Option String)
      → String
      → ApiServer st
      → MediaAnswer
  virtual_media_status board status id a = elim (resolve_virtual_media board id a) [
    | unresolved code msg ↦ rejected code msg
    | resolved cfg creds ↦ elim (status cfg creds) [
      | none ↦ rejected 500 "status query failed"
      | some text ↦ done text
    ]
  ]
