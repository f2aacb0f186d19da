-- ===== src/Iso/Lost.antt =====
-- internal/api/iso_handlers.go: a file that is uploaded while one of its name is downloaded.
use kvm_switcher.Prelude.{
  sym, ap, subst, nat_eq, ◌+◌, ◌&&◌, Option-cases, inl, inr, Bool-cases, ltb, if◌then◌else◌, refl,
  string_eq, ◌∙◌, lookup-erase, false, beq_iff, some, true, ◌==◌, none, ◌≡◌, lookup, String, ℕ,
}
use kvm_switcher.Iso.Downloads.{
  perform_on, unreachable, replied, responds, Response, create_file, without_orphan, begin_copy,
  perform_iso_download, fail_download,
}
use kvm_switcher.Iso.{
  limit_of, exceeds, list_isos, waiting, Failures, IsoFile, IsoServer, IsoDownload,
}
use kvm_switcher.Ikvm.Bytes.{Bytes}
use kvm_switcher.Session.{SessionStore}

module _ (st : SessionStore) (hash : Bytes → String) where
  fail_download-lost :
      (id msg : String) (dl : IsoDownload) (total : ℕ) (f : Failures) (a : IsoServer st)
      → f.remove_fails ≡ false
      → let b = fail_download st hash id (record dl { total_bytes = total }) msg f a in
        (lookup dl.filename b.disk ≡ none) × (b.files ≡ a.files)
  unfolding fail_download
  fail_download-lost id msg dl total f a e =
      let i : (dl.filename == dl.filename) ≡ true = (beq_iff dl.filename dl.filename).1 refl in
      rw (fail_download, e) (lookup-erase dl.filename dl.filename a.disk ∙ rw i refl, refl)

  abbrev IsLost : String → IsoFile → IsoServer st → Type 0
  IsLost name row b = (lookup name b.disk ≡ none) × (lookup name b.files ≡ some row)

  module _ (id : String) (dl : IsoDownload) (row : IsoFile) (content : Bytes) (f : Failures)
      (a : IsoServer st) (h : lookup dl.filename a.files ≡ some row)
      (d : lookup dl.filename a.disk ≡ some content) (g : f.get_fails ≡ false)
      (works : f.remove_fails ≡ false) where
    lost :
        (msg : String) (total : ℕ)
        → IsLost dl.filename row
            (fail_download st hash id (record dl { total_bytes = total }) msg f a)
    lost msg total =
        let (x, y) = fail_download-lost id msg dl total f a works in
        (x, ap (lookup dl.filename) y ∙ h)

    kept_orphan : without_orphan st hash dl.filename f a ≡ a
    unfolding without_orphan
    kept_orphan = rw (without_orphan, g, h) refl

    create_file-IsLost :
        (total size : ℕ)
        → IsLost dl.filename row
            (create_file st hash id (record dl { total_bytes = size }) total f a)
    unfolding create_file
    create_file-IsLost total size = rw (create_file, d) (lost "file already exists on disk" size)

    begin_copy-IsLost :
        (resp : Response) → IsLost dl.filename row (begin_copy st hash id dl resp f a)
    unfolding begin_copy
    begin_copy-IsLost unreachable = lost "HTTP request failed" dl.total_bytes
    begin_copy-IsLost (replied code size) =
        let full : ℕ = if ltb 0 size then size else dl.total_bytes in
        elim (Bool-cases (code == 200)) [
          | inr p ↦ rw (begin_copy, p) (lost "remote server returned another status" dl.total_bytes)
          | inl p ↦ elim (Option-cases (list_isos st f.list_fails a)) [
            | inl q ↦ rw (begin_copy, p, q) (lost "database error" full)
            | inr (total, q) ↦
                elim (Bool-cases (ltb 0 size && exceeds (total + size) (limit_of st a))) [
                  | inl z ↦
                      rw (begin_copy, p, q, z)
                        (lost "download would exceed total ISO storage limit" full)
                  | inr z ↦ rw (begin_copy, p, q, z, kept_orphan) (create_file-IsLost total full)
                ]
          ]
        ]

  -- While a download waits for its response, its file was uploaded: whatever the response then is, if the
  -- row can be read and the removal of a file does not fail, the file is removed from the directory, and
  -- its row stays in the table.
  pub perform-uploaded :
      (id : String) (dl : IsoDownload) (row : IsoFile) (content : Bytes) (resp : Response)
      (f : Failures) (a : IsoServer st)
      → lookup id a.downloads ≡ some dl
      → dl.job ≡ waiting
      → lookup dl.filename a.files ≡ some row
      → lookup dl.filename a.disk ≡ some content
      → f.get_fails ≡ false
      → f.remove_fails ≡ false
      → let b = perform_iso_download st hash id (responds resp) f a in
        (lookup dl.filename b.disk ≡ none) × (lookup dl.filename b.files ≡ some row)
  unfolding perform_iso_download
  perform-uploaded id dl row content resp f a l w h d g works =
      rw (perform_iso_download, l)
        (subst (λ j. IsLost dl.filename row (perform_on st hash id dl j (responds resp) f a))
          (sym w) (begin_copy-IsLost id dl row content f a h d g works resp))
