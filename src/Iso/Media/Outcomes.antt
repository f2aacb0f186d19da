-- ===== src/Iso/Media/Outcomes.antt =====
-- internal/api/handlers.go and iso_handlers.go: what the virtual media handlers ask of which board.
use kvm_switcher.Prelude.{
  string_eq, refl, ◌==◌, Bool-cases, inr, List, contains, ◌≡◌, inl, Option-cases, Option, String, ℕ,
  [], ◌∷◌, none, some, true, false,
}
use kvm_switcher.Iso.Media.{
  done, media_audit, mounts, rejected, supported_by, allowed_schemes, MediaAnswer, media_creds,
  call_board, resolved, MediaCall, unresolved, MediaRequest, Resolved, resolve_virtual_media,
  virtual_media_mount, Support, unknown_board, unsupported, supported,
}
use kvm_switcher.Api.Sessions.{email_of}
use kvm_switcher.Api.{find_server, BmcCredentials, ApiServer}
use kvm_switcher.Session.{KvmSession, SessionStore}
use kvm_switcher.Models.{ServerConfig}

module _ (st : SessionStore) (board : String → Support) (id : String) where
  -- The session's own server, which supports virtual media, and the credentials of the session or the server.
  pub record IsTarget (cfg : ServerConfig) (creds : BmcCredentials) (a : ApiServer st)
      : Type 0 where
    pub session :
        (s : KvmSession) × ((st.get id a.sessions ≡ some s)
          × ((find_server s.server_name a.config.servers ≡ some cfg)
              × (media_creds st id s.server_name a ≡ some creds)))
    pub supports : board cfg.board_type ≡ supported

  -- Nothing is asked and changed; or the board is asked once, and the entry in the audit log says so if it agrees.
  pub data Outcome (event : String) (Asks : ServerConfig → BmcCredentials → MediaCall → Type 0)
      (r : MediaRequest) (a : ApiServer st)
      : (ApiServer st × List MediaCall) × MediaAnswer → Type 0 where
    refuses : (code : ℕ) (msg : String) → Outcome event Asks r a ((a, []), rejected code msg)
    fails :
        (cfg : ServerConfig) (creds : BmcCredentials) (call : MediaCall) (msg : String)
        → IsTarget cfg creds a
        → Asks cfg creds call
        → r.board_agrees ≡ false
        → Outcome event Asks r a ((a, call ∷ []), rejected 500 msg)
    agrees :
        (cfg : ServerConfig) (creds : BmcCredentials) (call : MediaCall) (detail : String)
        → IsTarget cfg creds a
        → Asks cfg creds call
        → r.board_agrees ≡ true
        → Outcome event Asks r a
            ((media_audit st event (email_of r.user) id r.ip a, call ∷ []), done detail)

  abbrev Found : ApiServer st → Resolved → Type 0
  Found a (unresolved code msg) = Unit {0}
  Found a (resolved cfg creds) = IsTarget cfg creds a

  supported-Found :
      (cfg : ServerConfig) (creds : BmcCredentials) (a : ApiServer st) (s : KvmSession)
      (b : Support)
      → board cfg.board_type ≡ b
      → (st.get id a.sessions ≡ some s)
        × ((find_server s.server_name a.config.servers ≡ some cfg)
            × (media_creds st id s.server_name a ≡ some creds))
      → Found a (supported_by st b cfg creds)
  supported-Found cfg creds a s unknown_board q f = tt
  supported-Found cfg creds a s unsupported q f = tt
  supported-Found cfg creds a s supported q f = record { session = (s, f); supports = q }

  pub resolve-Found : (a : ApiServer st) → Found a (resolve_virtual_media st board id a)
  unfolding resolve_virtual_media
  resolve-Found a = elim (Option-cases (st.get id a.sessions)) [
    | inl e ↦ rw (resolve_virtual_media, e) tt
    | inr (s, e) ↦ elim (Option-cases (find_server s.server_name a.config.servers)) [
      | inl f ↦ rw (resolve_virtual_media, e, f) tt
      | inr (cfg, f) ↦ elim (Option-cases (media_creds st id s.server_name a)) [
        | inl k ↦ rw (resolve_virtual_media, e, f, k) tt
        | inr (creds, k) ↦
            rw (resolve_virtual_media, e, f, k)
              (supported-Found cfg creds a s (board cfg.board_type) refl (e, (f, k)))
      ]
    ]
  ]

  pub call-Outcome :
      (event msg : String) (Asks : ServerConfig → BmcCredentials → MediaCall → Type 0)
      (detail : String) (r : MediaRequest) (a : ApiServer st) (cfg : ServerConfig)
      (creds : BmcCredentials) (call : MediaCall)
      → IsTarget cfg creds a
      → Asks cfg creds call
      → Outcome event Asks r a (call_board st event msg id call detail r a)
  call-Outcome event msg Asks detail r a cfg creds call t q = elim (Bool-cases r.board_agrees) [
    | inl e ↦ rw (call_board, e) (agrees cfg creds call detail t q refl)
    | inr e ↦ rw (call_board, e) (fails cfg creds call msg t q refl)
  ]

  -- The URL of the body, of an allowed scheme.
  pub data Mounts (scheme : String → Option String) (body : Option String) (cfg : ServerConfig)
      (creds : BmcCredentials) : MediaCall → Type 0 where
    asks :
        (url name : String)
        → body ≡ some url
        → scheme url ≡ some name
        → contains name allowed_schemes ≡ true
        → Mounts scheme body cfg creds (mounts cfg creds url)

  mount_on-Outcome :
      (scheme : String → Option String) (body : Option String) (r : MediaRequest) (a : ApiServer st)
      (t : Resolved)
      → resolve_virtual_media st board id a ≡ t
      → Found a t
      → Outcome "virtual_media_mount"
          (Mounts scheme body)
          r
          a
          (virtual_media_mount st board scheme id body r a)
  unfolding virtual_media_mount
  mount_on-Outcome scheme body r a (unresolved code msg) q f =
      rw (virtual_media_mount, q) (refuses code msg)
  mount_on-Outcome scheme none r a (resolved cfg creds) q f =
      rw (virtual_media_mount, q) (refuses 400 "invalid request body")
  mount_on-Outcome scheme (some url) r a (resolved cfg creds) q f = elim (Bool-cases (url == "")) [
    | inl e ↦ rw (virtual_media_mount, q, e) (refuses 400 "image_url is required")
    | inr e ↦ elim (Option-cases (scheme url)) [
      | inl g ↦ rw (virtual_media_mount, q, e, g) (refuses 400 "invalid image URL")
      | inr (name, g) ↦ elim (Bool-cases (contains name allowed_schemes)) [
        | inl c ↦
            rw (virtual_media_mount, q, e, g, c)
              (call-Outcome "virtual_media_mount" "mount failed" (Mounts scheme (some url)) url r a
                cfg creds _ f (asks url name refl g c))
        | inr c ↦
            rw (virtual_media_mount, q, e, g, c)
              (refuses 400 "image_url must use http, https, nfs, or cifs scheme")
      ]
    ]
  ]

  -- A request to mount an image is refused without a change and without a call of any board; or the board of the
  -- session's own server is asked once, to mount the URL of the request, whose scheme is http, https, nfs or
  -- cifs, with the credentials of the session or else of the server, and the audit log tells it exactly if
  -- the board agrees.
  pub virtual_media_mount-Outcome :
      (scheme : String → Option String) (body : Option String) (r : MediaRequest) (a : ApiServer st)
      → Outcome "virtual_media_mount"
          (Mounts scheme body)
          r
          a
          (virtual_media_mount st board scheme id body r a)
  virtual_media_mount-Outcome scheme body r a =
      mount_on-Outcome scheme body r a (resolve_virtual_media st board id a) refl (resolve-Found a)
