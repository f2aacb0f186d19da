-- ===== src/Iso/Kept/Requested.antt =====
-- internal/api/iso_handlers.go: the registration of a download keeps the invariant.
use kvm_switcher.Iso.Kept.Handling.{free_of, KeptBy}
use kvm_switcher.Iso.Kept.Filing.{registered-Kept}
use kvm_switcher.Iso.{Failures, IsoServer}
use kvm_switcher.Prelude.{
  string_eq, not, ◌==◌, if◌then◌else◌, refl, ◌&&◌, none, Option, Bool-cases, inl, inr, Option-cases,
  some, ◌≡◌, lookup, String,
}
use kvm_switcher.Iso.Downloads.{UrlRequest, download_iso_from_url, register_download, in_progress}
use kvm_switcher.Iso.Names.{name_from_url, sanitize_iso_filename}
use kvm_switcher.Iso.Handlers.{IsoRequest}
use kvm_switcher.Ikvm.Bytes.{Bytes}
use kvm_switcher.Session.{SessionStore}

module _ (st : SessionStore) (hash : Bytes → String) where
  register_download-Kept :
      (id name url : String) (f : Failures) (r : IsoRequest) (a : IsoServer st)
      → KeptBy st hash a
      → lookup id a.downloads ≡ none
      → KeptBy st hash (register_download st hash id name url f r a).0
  unfolding register_download
  register_download-Kept id name url f r a k new =
      elim (Option-cases (sanitize_iso_filename name)) [
        | inr (e, x) ↦ rw (register_download, x) k
        | inl x ↦ elim (Bool-cases f.get_fails) [
          | inl y ↦ rw (register_download, x, y) k
          | inr y ↦ elim (Option-cases (lookup name a.files)) [
            | inr (row, z) ↦ rw (register_download, x, y, z) k
            | inl z ↦ elim (Bool-cases (in_progress name a.downloads)) [
              | inl w ↦ rw (register_download, x, y, z, w) k
              | inr w ↦
                  rw (register_download, x, y, z, w)
                    (registered-Kept hash a.files a.disk a.downloads k name
                      (free_of st hash name a k w) id _ new z refl refl refl)
            ]
          ]
        ]
      ]

  pub download_iso_from_url-Kept :
      (parse : String → Option (String × String)) (id : String) (body : Option UrlRequest)
      (f : Failures) (r : IsoRequest) (a : IsoServer st)
      → KeptBy st hash a
      → lookup id a.downloads ≡ none
      → KeptBy st hash (download_iso_from_url st hash parse id body f r a).0
  unfolding download_iso_from_url
  download_iso_from_url-Kept parse id none f r a k new = elim (Bool-cases a.has_db) [
    | inr d ↦ rw (download_iso_from_url, d) k
    | inl d ↦ rw (download_iso_from_url, d) k
  ]
  download_iso_from_url-Kept parse id (some req) f r a k new = elim (Bool-cases a.has_db) [
    | inr d ↦ rw (download_iso_from_url, d) k
    | inl d ↦ elim (Option-cases (parse req.url)) [
      | inl x ↦ rw (download_iso_from_url, d, x) k
      | inr ((scheme, path), x) ↦
          let name : String = if req.filename == "" then name_from_url path else req.filename in
          elim (Bool-cases (req.url == "")) [
            | inl y ↦ rw (download_iso_from_url, d, x, y) k
            | inr y ↦ elim (Bool-cases (not (scheme == "http") && not (scheme == "https"))) [
              | inl z ↦ rw (download_iso_from_url, d, x, y, z) k
              | inr z ↦ elim (Bool-cases (name == "")) [
                | inl w ↦ rw (download_iso_from_url, d, x, y, z, w) k
                | inr w ↦
                    rw (download_iso_from_url, d, x, y, z, w)
                      (register_download-Kept id name req.url f r a k new)
              ]
            ]
          ]
    ]
  ]
