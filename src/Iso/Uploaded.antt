-- ===== src/Iso/Uploaded.antt =====
-- internal/api/iso_handlers.go: what an upload leaves behind, by its answer.
use kvm_switcher.Prelude.{take, take_all, sym, ap, ◌⊎◌}
use kvm_switcher.Iso.{try_remove}
use kvm_switcher.Api.Sessions.{email_of}
use kvm_switcher.Prelude.{
  suc, is_some, string_eq, ◌∙◌, ◌||◌, lookup-insert, ◌&&◌, ltb, ◌+◌, beq_iff, refl, ◌==◌, length,
  erase-insert, some, insert, inl, lookup, none, inr, Option-cases, Bool-cases, true, false, ◌≡◌,
  List, String, ℕ,
}
use kvm_switcher.Iso.{
  limit_of, exceeds, list_isos, recorded, get_iso, created, served, refused, IsoAnswer, IsoServer,
  IsoFile, Failures, insert_iso,
}
use kvm_switcher.Iso.Handlers.{
  upload_checked, upload, IsoRequest, write_upload, upload_iso, download_iso, Upload,
}
use kvm_switcher.Iso.Names.{sanitize_iso_filename}
use kvm_switcher.Ikvm.Bytes.{Bytes}
use kvm_switcher.Session.{SessionStore}

module _ (st : SessionStore) (hash : Bytes → String) where
  -- The file is served again, and its row has its size and hash.
  pub record Serves (u : Upload) (b : IsoServer st) : Type 0 where
    pub again :
        (g : Failures)
        → g.get_fails ≡ false
        → download_iso st hash u.filename g b ≡ served u.content
    pub row :
        (f : IsoFile) × ((lookup u.filename b.files ≡ some f)
          × ((f.size_bytes ≡ length u.content) × (f.sha256 ≡ hash u.content)))

  -- The directory is as it was; or what was written of a new file is left, whose removal failed.
  abbrev pub LeftOver : Upload → Failures → IsoServer st → List (String × Bytes) → Type 0
  LeftOver u f a disk =
      (disk ≡ a.disk)
      ⊎ ((f.remove_fails ≡ true)
          × ((lookup u.filename a.disk ≡ none)
              × ((n : ℕ) × (disk ≡ insert u.filename (take n u.content) a.disk))))

  -- A refused upload leaves the table and, but for a file whose removal failed, the directory; any other
  -- is stored.
  abbrev pub Uploaded : Upload → Failures → IsoServer st → IsoServer st × IsoAnswer → Type 0
  Uploaded u f a (b, refused code msg) = (b.files ≡ a.files) × LeftOver u f a b.disk
  Uploaded u f a (b, created row) = Serves u b × (lookup u.filename b.files ≡ some row)
  Uploaded u f a (b, recorded name size h) = Serves u b
  Uploaded u f a (b, answer) = ⊥

  undone-LeftOver :
      (u : Upload) (f : Failures) (a : IsoServer st) (n : ℕ) (c : Bytes)
      → lookup u.filename a.disk ≡ none
      → take n u.content ≡ c
      → let b : IsoServer st =
          try_remove st f.remove_fails u.filename
            (record a { disk = insert u.filename c a.disk }) in
        (b.files ≡ a.files) × LeftOver u f a b.disk
  undone-LeftOver u f a n c h q = elim (Bool-cases f.remove_fails) [
    | inl e ↦ rw e (refl, inr (refl, (h, (n, ap (λ x. insert u.filename x a.disk) (sym q)))))
    | inr e ↦ rw e (refl, inl (erase-insert u.filename c a.disk h))
  ]

  written-Serves :
      (u : Upload) (row : IsoFile) (b : IsoServer st) (files : List (String × IsoFile))
      (disk : List (String × Bytes))
      → b.has_db ≡ true
      → sanitize_iso_filename u.filename ≡ none
      → b.files ≡ insert u.filename row files
      → b.disk ≡ insert u.filename u.content disk
      → row.size_bytes ≡ length u.content
      → row.sha256 ≡ hash u.content
      → Serves u b
  unfolding download_iso
  written-Serves u row b files disk d x p q s h =
      let i : (u.filename == u.filename) ≡ true = (beq_iff u.filename u.filename).1 refl in
      let l : lookup u.filename b.files ≡ some row =
        rw p (lookup-insert u.filename u.filename row files ∙ rw i refl) in
      let m : lookup u.filename b.disk ≡ some u.content =
        rw q (lookup-insert u.filename u.filename u.content disk ∙ rw i refl) in
      record {
        again = λ g works. rw (download_iso, d, x, works, l, m) refl;
        row = (row, (l, (s, h)));
      }

  write_upload-Uploaded :
      (u : Upload) (f : Failures) (r : IsoRequest) (total : ℕ) (a : IsoServer st)
      → a.has_db ≡ true
      → sanitize_iso_filename u.filename ≡ none
      → Uploaded u f a (write_upload st hash u f r total a)
  unfolding insert_iso write_upload
  write_upload-Uploaded u f r total a d s = elim (Option-cases (lookup u.filename a.disk)) [
    | inr (c, h) ↦ rw (write_upload, h) (refl, inl refl)
    | inl h ↦
        let partly = λ (n : ℕ). undone-LeftOver u f a n (take n u.content) h refl in
        let back = undone-LeftOver u f a (length u.content) u.content h (take_all u.content) in
        elim (Bool-cases f.create_fails) [
          | inl x ↦ rw (write_upload, h, x) (refl, inl refl)
          | inr x ↦ elim (Option-cases f.write_fails) [
            | inr (n, y) ↦ rw (write_upload, h, x, y) (partly n)
            | inl y ↦ elim (Bool-cases (exceeds (total + length u.content) (limit_of st a))) [
              | inl z ↦ rw (write_upload, h, x, y, z) back
              | inr z ↦ elim (Bool-cases (f.insert_fails || is_some (lookup u.filename a.files))) [
                | inl w ↦ rw (write_upload, h, x, y, z, w) back
                | inr w ↦
                    let row : IsoFile = record {
                      id = suc a.last_id;
                      filename = u.filename;
                      size_bytes = length u.content;
                      sha256 = hash u.content;
                      uploaded_by = email_of r.user;
                      uploaded_at = r.now;
                      last_used = none;
                    } in
                    let serves =
                      λ (b : IsoServer st) (k : b.has_db ≡ true)
                          (p : b.files ≡ insert u.filename row a.files)
                          (q : b.disk ≡ insert u.filename u.content a.disk).
                        written-Serves u row b a.files a.disk k s p q refl refl in
                    elim (Bool-cases f.read_back_fails) [
                      | inl v ↦ rw (write_upload, h, x, y, z, w, v) (serves _ d refl refl)
                      | inr v ↦
                          elim (Option-cases (lookup u.filename (insert u.filename row a.files))) [
                            | inl t ↦ rw (write_upload, h, x, y, z, w, v, t) (serves _ d refl refl)
                            | inr (e, t) ↦
                                rw (write_upload, h, x, y, z, w, v, t) (serves _ d refl refl, t)
                          ]
                    ]
              ]
            ]
          ]
        ]
  ]

  upload_checked-Uploaded :
      (u : Upload) (f : Failures) (r : IsoRequest) (a : IsoServer st)
      → a.has_db ≡ true
      → Uploaded u f a (upload_checked st hash u f r a)
  upload_checked-Uploaded u f r a d = elim (Option-cases (sanitize_iso_filename u.filename)) [
    | inr (e, x) ↦ rw (upload_checked, x) (refl, inl refl)
    | inl x ↦ elim (Option-cases (get_iso f.get_fails u.filename a.files)) [
      | inl y ↦ rw (upload_checked, x, y) (refl, inl refl)
      | inr (some row, y) ↦ rw (upload_checked, x, y) (refl, inl refl)
      | inr (none, y) ↦ elim (Option-cases (list_isos st f.list_fails a)) [
        | inl z ↦ rw (upload_checked, x, y, z) (refl, inl refl)
        | inr (total, z) ↦
            elim (Bool-cases (ltb 0 u.size && exceeds (total + u.size) (limit_of st a))) [
              | inl w ↦ rw (upload_checked, x, y, z, w) (refl, inl refl)
              | inr w ↦ rw (upload_checked, x, y, z, w) (write_upload-Uploaded u f r total a d x)
            ]
      ]
    ]
  ]

  -- Whatever fails in it, an upload is either refused without a change of the table, and of the directory too
  -- unless the removal of the file failed, in which case the directory has a new file with a part or all of
  -- the content; or it is answered as stored: then the file is served with the content that was uploaded,
  -- and its row has the size and the hash of that content.
  pub upload_iso-Uploaded :
      (u : Upload) (f : Failures) (r : IsoRequest) (a : IsoServer st)
      → Uploaded u f a (upload_iso st hash (upload u) f r a)
  unfolding upload_iso
  upload_iso-Uploaded u f r a = elim (Bool-cases a.has_db) [
    | inr d ↦ rw (upload_iso, d) (refl, inl refl)
    | inl d ↦ rw (upload_iso, d) (upload_checked-Uploaded u f r a d)
  ]
