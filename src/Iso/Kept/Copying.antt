-- ===== src/Iso/Kept/Copying.antt =====
-- The goroutine of a download keeps the invariant.
use kvm_switcher.Iso.Kept.Filing.{erased-Kept}
use kvm_switcher.Iso.Kept.Running.{stopped-Kept, failed-Kept, finished-Kept, copied-Kept}
use kvm_switcher.Iso.{
  gone, Job, limit_of, list_isos, exceeds, copying, waiting, insert_iso, Failures, IsoServer,
  IsoDownload,
}
use kvm_switcher.Iso.Downloads.{
  ends, sends, responds, perform_on, DownloadEvent, perform_iso_download, unreachable, replied,
  Response, fail_download, begin_copy, end_copy, create_file, without_orphan, copy_chunk,
}
use kvm_switcher.Prelude.{
  nat_eq, ◌&&◌, ◌||◌, length, Option-cases, ◌==◌, ◌+◌, ltb, if◌then◌else◌, refl, inl, inr, is_some,
  arith, ◌++◌, Bool, Bool-cases, ℕ, true, some, ◌≡◌, lookup, String, [],
}
use kvm_switcher.Iso.Kept.{is_running}
use kvm_switcher.Iso.Kept.Handling.{KeptBy}
use kvm_switcher.Ikvm.Bytes.{Bytes}
use kvm_switcher.Session.{SessionStore}

module _ (st : SessionStore) (hash : Bytes → String) where
  module _ (id : String) (dl : IsoDownload) (a : IsoServer st) (k : KeptBy st hash a)
      (l : lookup id a.downloads ≡ some dl) (r : is_running dl.job ≡ true) where
    fail_download-Kept :
        (f : Failures) (total : ℕ) (msg : String)
        → KeptBy st hash (fail_download st hash id (record dl { total_bytes = total }) msg f a)
    unfolding fail_download
    fail_download-Kept f total msg = elim (Bool-cases f.remove_fails) [
      | inl e ↦
          rw (fail_download, e)
            (stopped-Kept hash a.files a.disk a.downloads k id dl _ l r refl (λ e. ground arith)
              refl)
      | inr e ↦
          rw (fail_download, e)
            (failed-Kept hash a.files a.disk a.downloads k id dl _ l r refl (λ e. ground arith)
              refl)
    ]

    end_copy-Kept :
        (total : ℕ) (done : Bytes) (ok : Bool) (f : Failures) (now : ℕ)
        → dl.job ≡ copying total done
        → KeptBy st hash (end_copy st hash id dl total done ok f now a)
    unfolding end_copy insert_iso
    end_copy-Kept total done ok f now j = elim (Bool-cases ok) [
      | inr x ↦ rw (end_copy, x) (fail_download-Kept f dl.total_bytes "download write failed")
      | inl x ↦ elim (Bool-cases (exceeds (total + length done) (limit_of st a))) [
        | inl y ↦
            rw (end_copy, x, y)
              (fail_download-Kept f dl.total_bytes "download exceeds total ISO storage limit")
        | inr y ↦ elim (Bool-cases (f.insert_fails || is_some (lookup dl.filename a.files))) [
          | inl z ↦
              rw (end_copy, x, y, z)
                (fail_download-Kept f dl.total_bytes "failed to record ISO metadata")
          | inr z ↦
              rw (end_copy, x, y, z)
                (finished-Kept hash a.files a.disk a.downloads k id dl _ l r refl
                  (λ e. ground arith) done _ refl (k.copied id dl total done l j)
                  (record { size_is = refl; hash_is = refl }))
        ]
      ]
    ]

    copy_chunk-Kept :
        (total : ℕ) (done chunk : Bytes)
        → KeptBy st hash (copy_chunk st hash id dl total done chunk a)
    unfolding copy_chunk
    copy_chunk-Kept total done chunk =
        copied-Kept hash a.files a.disk a.downloads k id dl _ l r refl (λ e. k.told id dl l r) total
          (done ++ chunk) refl

    create_file-Kept :
        (total size : ℕ) (f : Failures)
        → KeptBy st hash (create_file st hash id (record dl { total_bytes = size }) total f a)
    unfolding create_file fail_download
    create_file-Kept total size f = elim (Bool-cases (is_some (lookup dl.filename a.disk))) [
      | inl x ↦ rw (create_file, x) (fail_download-Kept f size "file already exists on disk")
      | inr x ↦ elim (Bool-cases f.create_fails) [
        | inl y ↦ rw (create_file, x, y) (fail_download-Kept f size "failed to create file")
        | inr y ↦
            rw (create_file, x, y)
              (copied-Kept hash a.files a.disk a.downloads k id dl _ l r refl
                (λ e. k.told id dl l r) total [] refl)
      ]
    ]

    without_orphan-Kept :
        (f : Failures) → dl.job ≡ waiting → KeptBy st hash (without_orphan st hash dl.filename f a)
    unfolding without_orphan
    without_orphan-Kept f j =
        let apart = k.apart id dl l r in
        let gone_too =
          erased-Kept hash a.files a.disk a.downloads k dl.filename apart
            (λ i e h t w q. w (ground (arith, k.alone i id e dl h l t r q))) in
        elim (Bool-cases f.remove_fails) [
          | inl y ↦ elim (Bool-cases f.get_fails) [
            | inl x ↦ rw (without_orphan, x, y) k
            | inr x ↦ rw (without_orphan, x, apart, y) k
          ]
          | inr y ↦ elim (Bool-cases f.get_fails) [
            | inl x ↦ rw (without_orphan, x, y) gone_too
            | inr x ↦ rw (without_orphan, x, apart, y) gone_too
          ]
        ]

    without_orphan-downloads :
        (f : Failures) → (without_orphan st hash dl.filename f a).downloads ≡ a.downloads
    unfolding without_orphan
    without_orphan-downloads f = ground (arith, k.apart id dl l r)

  module _ (id : String) (dl : IsoDownload) (a : IsoServer st) (k : KeptBy st hash a)
      (l : lookup id a.downloads ≡ some dl) where
    begin_copy-Kept :
        (resp : Response) (f : Failures)
        → dl.job ≡ waiting
        → KeptBy st hash (begin_copy st hash id dl resp f a)
    unfolding begin_copy
    begin_copy-Kept unreachable f j =
        fail_download-Kept id dl a k l (rw j refl) f dl.total_bytes "HTTP request failed"
    begin_copy-Kept (replied code size) f j =
        let r : is_running dl.job ≡ true = rw j refl in
        let full : ℕ = if ltb 0 size then size else dl.total_bytes in
        elim (Bool-cases (code == 200)) [
          | inr x ↦
              rw (begin_copy, x)
                (fail_download-Kept id dl a k l r f dl.total_bytes
                  "remote server returned another status")
          | inl x ↦ elim (Option-cases (list_isos st f.list_fails a)) [
            | inl y ↦
                rw (begin_copy, x, y) (fail_download-Kept id dl a k l r f full "database error")
            | inr (total, y) ↦
                elim (Bool-cases (ltb 0 size && exceeds (total + size) (limit_of st a))) [
                  | inl z ↦
                      rw (begin_copy, x, y, z)
                        (fail_download-Kept id dl a k l r f full
                          "download would exceed total ISO storage limit")
                  | inr z ↦
                      rw (begin_copy, x, y, z)
                        (create_file-Kept id dl (without_orphan st hash dl.filename f a)
                          (without_orphan-Kept id dl a k l r f j)
                          (rw (without_orphan-downloads id dl a k l r f) l) r total full f)
                ]
          ]
        ]

  perform_on-Kept :
      (id : String) (dl : IsoDownload) (j : Job) (e : DownloadEvent) (f : Failures)
      (a : IsoServer st)
      → KeptBy st hash a
      → lookup id a.downloads ≡ some dl
      → dl.job ≡ j
      → KeptBy st hash (perform_on st hash id dl j e f a)
  perform_on-Kept id dl waiting (responds resp) f a k l q = begin_copy-Kept id dl a k l resp f q
  perform_on-Kept id dl (copying total done) (sends chunk) f a k l q =
      copy_chunk-Kept id dl a k l (rw q refl) total done chunk
  perform_on-Kept id dl (copying total done) (ends ok now) f a k l q =
      end_copy-Kept id dl a k l (rw q refl) total done ok f now q
  perform_on-Kept id dl waiting (sends chunk) f a k l q = k
  perform_on-Kept id dl waiting (ends ok now) f a k l q = k
  perform_on-Kept id dl (copying total done) (responds resp) f a k l q = k
  perform_on-Kept id dl gone e f a k l q = k

  pub perform-Kept :
      (id : String) (e : DownloadEvent) (f : Failures) (a : IsoServer st)
      → KeptBy st hash a
      → KeptBy st hash (perform_iso_download st hash id e f a)
  unfolding perform_iso_download
  perform-Kept id e f a k = elim (Option-cases (lookup id a.downloads)) [
    | inl x ↦ rw (perform_iso_download, x) k
    | inr (dl, x) ↦ rw (perform_iso_download, x) (perform_on-Kept id dl dl.job e f a k x refl)
  ]
