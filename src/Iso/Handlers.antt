-- ===== src/Iso/Handlers.antt =====
-- internal/api/iso_handlers.go: the handlers of the library. `hash` is SHA-256 in hexadecimal digits.
use kvm_switcher.Prelude.{take}
use kvm_switcher.Iso.{
  try_remove, total_size, recorded, rows, created, fine, insert_iso, limit_of, iso_audit, served,
  exceeds, list_isos, get_iso, refused, IsoFile, remove_file, IsoAnswer, IsoServer, Failures,
}
use kvm_switcher.Prelude.{
  erase, ◌+◌, ltb, [], not, none, lookup, true, is_some, ℤ, ◌&&◌, some, if◌then◌else◌, length,
  false, List, insert, Option, String, ℕ,
}
use kvm_switcher.Api.Sessions.{email_of}
use kvm_switcher.Iso.Names.{sanitize_iso_filename}
use kvm_switcher.Ikvm.Bytes.{Bytes}
use kvm_switcher.Models.{UserInfo}
use kvm_switcher.Session.{SessionStore}

-- The `file` of an upload, unless the form cannot be read or has none. The size is what its header says.
pub record Upload : Type 0 where
  pub filename : String
  pub size : ℕ
  pub content : Bytes

pub data Form : Type 0 where
  unreadable no_file : Form
  upload : Upload → Form

pub record IsoRequest : Type 0 where
  pub user : Option UserInfo
  pub remote_addr : String
  pub now : ℕ

module _ (st : SessionStore) (hash : Bytes → String) where
  unfoldable pub list_all_isos : Failures → IsoServer st → IsoAnswer × (List IsoFile × (ℕ × ℤ))
  list_all_isos f a =
      if not a.has_db
      then (refused 500 "database not available", ([], (0, limit_of st a)))
      else if f.list_fails
      then (refused 500 "failed to list ISOs", ([], (0, limit_of st a)))
      else (fine, (rows a.files, (total_size a.files, limit_of st a)))

  -- From the writing of the file on: it is a new one in the directory, and it is removed again when anything
  -- fails after that, if the removal does not fail.
  unfoldable pub write_upload :
      Upload → Failures → IsoRequest → ℕ → IsoServer st → IsoServer st × IsoAnswer
  write_upload u f r total a =
      let partial : ℕ → IsoServer st =
        λ n. record a { disk = insert u.filename (take n u.content) a.disk } in
      let written : IsoServer st = record a { disk = insert u.filename u.content a.disk } in
      let undo : IsoServer st → IsoServer st = try_remove st f.remove_fails u.filename in
      let size : ℕ = length u.content in
      if is_some (lookup u.filename a.disk)
      then (a, refused 409 "ISO file already exists on disk")
      else if f.create_fails
      then (a, refused 500 "failed to create file")
      else elim f.write_fails [
        | some n ↦ (undo (partial n), refused 500 "failed to write file")
        | none ↦
            if exceeds (total + size) (limit_of st a)
            then (undo written, refused 413 "upload exceeds total ISO storage limit")
            else elim (insert_iso st f.insert_fails u.filename size (hash u.content)
                (email_of r.user) r.now written) [
                  | none ↦ (undo written, refused 500 "failed to record ISO metadata")
                  | some b ↦ elim (get_iso f.read_back_fails u.filename b.files) [
                    | some (some row) ↦
                        (iso_audit st "iso.upload" (email_of r.user) r.remote_addr b, created row)
                    | some none ↦ (b, recorded u.filename size (hash u.content))
                    | none ↦ (b, recorded u.filename size (hash u.content))
                  ]
                ]
      ]

  abbrev pub upload_checked :
      Upload → Failures → IsoRequest → IsoServer st → IsoServer st × IsoAnswer
  upload_checked u f r a = elim (sanitize_iso_filename u.filename) [
    | some e ↦ (a, refused 400 e)
    | none ↦ elim (get_iso f.get_fails u.filename a.files) [
      | none ↦ (a, refused 500 "database error")
      | some (some row) ↦ (a, refused 409 "ISO already exists")
      | some none ↦ elim (list_isos st f.list_fails a) [
        | none ↦ (a, refused 500 "database error")
        | some total ↦
            if ltb 0 u.size && exceeds (total + u.size) (limit_of st a)
            then (a, refused 413 "upload would exceed total ISO storage limit")
            else write_upload u f r total a
      ]
    ]
  ]

  unfoldable pub upload_iso : Form → Failures → IsoRequest → IsoServer st → IsoServer st × IsoAnswer
  upload_iso form f r a = elim a.has_db [
    | false ↦ (a, refused 500 "database not available")
    | true ↦ elim form [
      | unreadable ↦ (a, refused 400 "failed to parse multipart form")
      | no_file ↦ (a, refused 400 "missing 'file' field in multipart form")
      | upload u ↦ upload_checked u f r a
    ]
  ]

  -- After the row was found. A file that is not there is no failure of its removal.
  abbrev pub delete_found : String → Failures → IsoRequest → IsoServer st → IsoServer st × IsoAnswer
  delete_found name f r a =
      let removed : IsoServer st = remove_file st name a in
      if f.remove_fails && is_some (lookup name a.disk)
      then (a, refused 500 "failed to remove file from disk")
      else if f.delete_fails
      then (removed, refused 500 "failed to remove ISO from database")
      else (
        iso_audit st "iso.delete" (email_of r.user) r.remote_addr
            (record removed { files = erase name a.files }),
        fine,
      )

  unfoldable pub delete_iso :
      String → Failures → IsoRequest → IsoServer st → IsoServer st × IsoAnswer
  delete_iso name f r a = elim a.has_db [
    | false ↦ (a, refused 500 "database not available")
    | true ↦ elim (sanitize_iso_filename name) [
      | some e ↦ (a, refused 400 e)
      | none ↦ elim (get_iso f.get_fails name a.files) [
        | none ↦ (a, refused 500 "database error")
        | some none ↦ (a, refused 404 "ISO not found")
        | some (some row) ↦ delete_found name f r a
      ]
    ]
  ]

  -- The file server answers a file that is not there with 404.
  unfoldable pub download_iso : String → Failures → IsoServer st → IsoAnswer
  download_iso name f a = elim a.has_db [
    | false ↦ refused 500 "database not available"
    | true ↦ elim (sanitize_iso_filename name) [
      | some e ↦ refused 400 e
      | none ↦ elim (get_iso f.get_fails name a.files) [
        | none ↦ refused 500 "database error"
        | some none ↦ refused 404 "ISO not found"
        | some (some row) ↦ elim (lookup name a.disk) [
          | none ↦ refused 404 "404 page not found"
          | some content ↦ served content
        ]
      ]
    ]
  ]
