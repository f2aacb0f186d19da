-- ===== src/Iso/Kept/Handling.antt =====
-- internal/api/iso_handlers.go: an upload and a deletion keep the invariant.
use kvm_switcher.Prelude.{take, Bool}
use kvm_switcher.Iso.{try_remove}
use kvm_switcher.Iso.Kept.Filing.{added-Kept, deleted-Kept, stored-Kept}
use kvm_switcher.Iso.Kept.{is_running, Kept}
use kvm_switcher.Iso.{
  list_isos, get_iso, IsoFile, limit_of, exceeds, downloading, IsoDownload, Failures, insert_iso,
  IsoServer,
}
use kvm_switcher.Prelude.{
  string_eq, ltb, refl, ◌&&◌, beq_iff, none, suc, arith, [], ◌∷◌, is_some, ◌||◌, length, ◌+◌,
  Bool-cases, erase-insert, insert, erase, inl, inr, ◌≢◌, true, Option-cases, some, false, List,
  ◌≡◌, lookup, String, ℕ,
}
use kvm_switcher.Iso.Downloads.{in_progress}
use kvm_switcher.Iso.Names.{sanitize_iso_filename}
use kvm_switcher.Iso.Handlers.{
  no_file, unreadable, upload, upload_iso, upload_checked, Form, delete_iso, write_upload,
  IsoRequest, Upload,
}
use kvm_switcher.Api.Sessions.{email_of}
use kvm_switcher.Ikvm.Bytes.{Bytes}
use kvm_switcher.Session.{SessionStore}

module _ (st : SessionStore) (hash : Bytes → String) where
  abbrev pub KeptBy : IsoServer st → Type 0
  KeptBy a = Kept hash a.files a.disk a.downloads

  in_progress-lookup :
      (n id : String) (dl : IsoDownload) (dls : List (String × IsoDownload))
      → lookup id dls ≡ some dl
      → in_progress n dls ≡ false
      → dl.status ≡ downloading
      → dl.filename ≢ n
  unfolding lookup in_progress
  in_progress-lookup n id dl [] h p s = ground arith
  in_progress-lookup n id dl ((at, e) ∷ dls) h p s =
      ground (arith, in_progress-lookup n id dl dls, beq_iff e.filename n)

  pub free_of :
      (n : String) (a : IsoServer st)
      → KeptBy a
      → in_progress n a.downloads ≡ false
      → (id : String) (dl : IsoDownload) → lookup id a.downloads ≡ some dl
      → is_running dl.job ≡ true
      → dl.filename ≢ n
  free_of n a k p id dl h r = in_progress-lookup n id dl a.downloads h p (k.told id dl h r)

  -- What a refused upload has written is removed again, or it stays and is no row's.
  undone-Kept :
      (u : Upload) (fails : Bool) (a : IsoServer st)
      → KeptBy a
      → lookup u.filename a.disk ≡ none
      → (c : Bytes)
      → KeptBy (try_remove st fails u.filename (record a { disk = insert u.filename c a.disk }))
  undone-Kept u true a k h c = added-Kept hash a.files a.disk a.downloads k u.filename c h
  undone-Kept u false a k h c =
      let back : Kept hash a.files (erase u.filename (insert u.filename c a.disk)) a.downloads =
        rw (erase-insert u.filename c a.disk h) k in
      back

  write_upload-Kept :
      (u : Upload) (f : Failures) (r : IsoRequest) (total : ℕ) (a : IsoServer st)
      → KeptBy a
      → in_progress u.filename a.downloads ≡ false
      → KeptBy (write_upload st hash u f r total a).0
  unfolding insert_iso write_upload
  write_upload-Kept u f r total a k p = elim (Option-cases (lookup u.filename a.disk)) [
    | inr (c, h) ↦ rw (write_upload, h) k
    | inl h ↦
        let back = undone-Kept u f.remove_fails a k h in
        elim (Bool-cases f.create_fails) [
          | inl x ↦ rw (write_upload, h, x) k
          | inr x ↦ elim (Option-cases f.write_fails) [
            | inr (n, y) ↦ rw (write_upload, h, x, y) (back (take n u.content))
            | inl y ↦ elim (Bool-cases (exceeds (total + length u.content) (limit_of st a))) [
              | inl z ↦ rw (write_upload, h, x, y, z) (back u.content)
              | inr z ↦ elim (Bool-cases (f.insert_fails || is_some (lookup u.filename a.files))) [
                | inl w ↦ rw (write_upload, h, x, y, z, w) (back u.content)
                | inr w ↦
                    let row : IsoFile = record {
                      id = suc a.last_id;
                      filename = u.filename;
                      size_bytes = length u.content;
                      sha256 = hash u.content;
                      uploaded_by = email_of r.user;
                      uploaded_at = r.now;
                      last_used = none;
                    } in
                    let stored =
                      stored-Kept hash a.files a.disk a.downloads k u.filename
                        (free_of u.filename a k p) u.content row
                        (record { size_is = refl; hash_is = refl }) in
                    elim (Bool-cases f.read_back_fails) [
                      | inl v ↦ rw (write_upload, h, x, y, z, w, v) stored
                      | inr v ↦
                          elim (Option-cases (lookup u.filename (insert u.filename row a.files))) [
                            | inl t ↦ rw (write_upload, h, x, y, z, w, v, t) stored
                            | inr (e, t) ↦ rw (write_upload, h, x, y, z, w, v, t) stored
                          ]
                    ]
              ]
            ]
          ]
        ]
  ]

  upload_checked-Kept :
      (u : Upload) (f : Failures) (r : IsoRequest) (a : IsoServer st)
      → KeptBy a
      → in_progress u.filename a.downloads ≡ false
      → KeptBy (upload_checked st hash u f r a).0
  upload_checked-Kept u f r a k p = elim (Option-cases (sanitize_iso_filename u.filename)) [
    | inr (e, x) ↦ rw (upload_checked, x) k
    | inl x ↦ elim (Option-cases (get_iso f.get_fails u.filename a.files)) [
      | inl y ↦ rw (upload_checked, x, y) k
      | inr (some row, y) ↦ rw (upload_checked, x, y) k
      | inr (none, y) ↦ elim (Option-cases (list_isos st f.list_fails a)) [
        | inl z ↦ rw (upload_checked, x, y, z) k
        | inr (total, z) ↦
            elim (Bool-cases (ltb 0 u.size && exceeds (total + u.size) (limit_of st a))) [
              | inl w ↦ rw (upload_checked, x, y, z, w) k
              | inr w ↦ rw (upload_checked, x, y, z, w) (write_upload-Kept u f r total a k p)
            ]
      ]
    ]
  ]

  -- What a form's upload would take is not in progress.
  abbrev pub IsFree : Form → IsoServer st → Type 0
  IsFree unreadable a = Unit {0}
  IsFree no_file a = Unit {0}
  IsFree (upload u) a = in_progress u.filename a.downloads ≡ false

  pub upload_iso-Kept :
      (form : Form) (f : Failures) (r : IsoRequest) (a : IsoServer st)
      → KeptBy a
      → IsFree form a
      → KeptBy (upload_iso st hash form f r a).0
  unfolding upload_iso
  upload_iso-Kept unreadable f r a k p = elim (Bool-cases a.has_db) [
    | inr d ↦ rw (upload_iso, d) k
    | inl d ↦ rw (upload_iso, d) k
  ]
  upload_iso-Kept no_file f r a k p = elim (Bool-cases a.has_db) [
    | inr d ↦ rw (upload_iso, d) k
    | inl d ↦ rw (upload_iso, d) k
  ]
  upload_iso-Kept (upload u) f r a k p = elim (Bool-cases a.has_db) [
    | inr d ↦ rw (upload_iso, d) k
    | inl d ↦ rw (upload_iso, d) (upload_checked-Kept u f r a k p)
  ]

  -- The row of a listed file is no running download's.
  listed_free :
      (n : String) (row : IsoFile) (a : IsoServer st)
      → KeptBy a
      → lookup n a.files ≡ some row
      → (id : String) (dl : IsoDownload) → lookup id a.downloads ≡ some dl
      → is_running dl.job ≡ true
      → dl.filename ≢ n
  listed_free n row a k l id dl h r e = ground (arith, k.apart id dl h r)

  pub delete_iso-Kept :
      (name : String) (f : Failures) (r : IsoRequest) (a : IsoServer st)
      → KeptBy a
      → f.delete_fails ≡ false
      → KeptBy (delete_iso st hash name f r a).0
  unfolding delete_iso
  delete_iso-Kept name f r a k works = elim (Bool-cases a.has_db) [
    | inr d ↦ rw (delete_iso, d) k
    | inl d ↦ elim (Option-cases (sanitize_iso_filename name)) [
      | inr (e, x) ↦ rw (delete_iso, d, x) k
      | inl x ↦ elim (Bool-cases f.get_fails) [
        | inl y ↦ rw (delete_iso, d, x, y) k
        | inr y ↦ elim (Option-cases (lookup name a.files)) [
          | inl z ↦ rw (delete_iso, d, x, y, z) k
          | inr (row, z) ↦ elim (Bool-cases (f.remove_fails && is_some (lookup name a.disk))) [
            | inl w ↦ rw (delete_iso, d, x, y, z, w) k
            | inr w ↦
                rw (delete_iso, d, x, y, z, w, works)
                  (deleted-Kept hash a.files a.disk a.downloads k name (listed_free name row a k z))
          ]
        ]
      ]
    ]
  ]
