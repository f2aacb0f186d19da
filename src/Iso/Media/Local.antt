-- ===== src/Iso/Media/Local.antt =====
-- internal/api/iso_handlers.go: an image of the library as virtual media.
use kvm_switcher.Iso.Media.{
  resolved, unresolved, done, resolve_virtual_media, rejected, mounts, MediaAnswer, media_audit,
  MediaCall, Support, MediaRequest,
}
use kvm_switcher.Iso.{get_iso, IsoServer, IsoFile}
use kvm_switcher.Prelude.{
  string_eq, nat_eq, insert, ◌==◌, code, List, if◌then◌else◌, Bool, Option, String, ℕ, [], ◌∷◌,
  none, some, true, false,
}
use kvm_switcher.Iso.Names.{sanitize_iso_filename}
use kvm_switcher.Api.{BmcCredentials}
use kvm_switcher.Api.Sessions.{email_of}
use kvm_switcher.Models.{Settings, ServerConfig}
use kvm_switcher.Session.{SessionStore}
use Prim.Native.String.{◌++◌}

-- What follows the first colon, if there is one.
unfoldable pub after_colon : String → String
after_colon String.[] = ""
after_colon (String.◌∷◌ c s) = let rest = after_colon s in if code c == b':' then s else rest

abbrev pub ends_in_slash : String → Bool
ends_in_slash String.[] = false
ends_in_slash (String.◌∷◌ c s) = if s == "" then code c == b'/' else ends_in_slash s

-- The URL for a board: NFS with the absolute directory for MegaRAC, and HTTP for any other.
unfoldable pub media_url :
    (String → Option String) → ServerConfig → Settings → String → Option String
media_url absolute cfg settings name =
    let port = after_colon settings.listen_address in
    let given = if port == "" then "8080" else port in
    if cfg.board_type == "ami_megarac"
    then elim (absolute settings.iso_dir) [
      | none ↦ none
      | some dir ↦ some (
          "nfs://"
          ++ settings.iso_serve_address
          ++ (if ends_in_slash dir then dir else dir ++ "/")
          ++ name)
    ]
    else some ("http://" ++ settings.iso_serve_address ++ ":" ++ given ++ "/iso/" ++ name)

module _ (st : SessionStore) where
  abbrev pub touch_row : ℕ → IsoFile → IsoFile
  touch_row now row = record row { last_used = some now }

  -- After the call of the board: the row is marked as used, unless the database fails.
  abbrev pub mounted :
      String → String → IsoFile → Bool → MediaRequest → ℕ → IsoServer st → IsoServer st
  mounted id name row touch_fails r now a =
      let touched : IsoServer st =
        if touch_fails then a else record a { files = insert name (touch_row now row) a.files } in
      record touched { api = media_audit st "iso.mount" (email_of r.user) id r.remote_addr a.api }

  abbrev pub mount_url :
      String
      → String
      → IsoFile
      → Bool
      → MediaRequest
      → ℕ
      → ServerConfig
      → BmcCredentials
      → String
      → IsoServer st
      → (IsoServer st × List MediaCall) × MediaAnswer
  mount_url id name row touch_fails r now cfg creds url a =
      if r.board_agrees
      then ((mounted id name row touch_fails r now a, mounts cfg creds url ∷ []), done url)
      else ((a, mounts cfg creds url ∷ []), rejected 500 "mount failed")

  abbrev pub mount_row :
      (String → Support)
      → (String → Option String)
      → String
      → String
      → IsoFile
      → Bool
      → MediaRequest
      → ℕ
      → IsoServer st
      → (IsoServer st × List MediaCall) × MediaAnswer
  mount_row board absolute id name row touch_fails r now a =
      elim (resolve_virtual_media st board id a.api) [
        | unresolved code msg ↦ ((a, []), rejected code msg)
        | resolved cfg creds ↦
            if a.api.config.settings.iso_serve_address == ""
            then ((a, []), rejected 500 "iso_serve_address is not configured")
            else elim (media_url absolute cfg a.api.config.settings name) [
              | none ↦ ((a, []), rejected 500 "failed to resolve ISO directory")
              | some url ↦ mount_url id name row touch_fails r now cfg creds url a
            ]
      ]

  unfoldable pub mount_local_iso :
      (String → Support)
      → (String → Option String)
      → String
      → Option String
      → Bool
      → Bool
      → MediaRequest
      → ℕ
      → IsoServer st
      → (IsoServer st × List MediaCall) × MediaAnswer
  mount_local_iso board absolute id body get_fails touch_fails r now a = elim a.has_db [
    | false ↦ ((a, []), rejected 500 "database not available")
    | true ↦ elim body [
      | none ↦ ((a, []), rejected 400 "invalid request body")
      | some name ↦ elim (sanitize_iso_filename name) [
        | some e ↦ ((a, []), rejected 400 e)
        | none ↦ elim (get_iso get_fails name a.files) [
          | none ↦ ((a, []), rejected 500 "database error")
          | some none ↦ ((a, []), rejected 404 "ISO not found in library")
          | some (some row) ↦ mount_row board absolute id name row touch_fails r now a
        ]
      ]
    ]
  ]
