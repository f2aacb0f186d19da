-- ===== src/Iso/Reached.antt =====
-- The handlers of the library and the goroutines of its downloads as steps in any order.
use kvm_switcher.Iso.Downloads.{
  perform_iso_download, DownloadEvent, download_iso_from_url, UrlRequest,
}
use kvm_switcher.Prelude.{none, lookup, false, ◌≡◌, Option, String}
use kvm_switcher.Iso.Handlers.{delete_iso, upload_iso, IsoRequest, Form}
use kvm_switcher.Iso.Kept.Copying.{perform-Kept}
use kvm_switcher.Iso.Kept.Handling.{IsFree, delete_iso-Kept, upload_iso-Kept, KeptBy}
use kvm_switcher.Iso.Kept.Requested.{download_iso_from_url-Kept}
use kvm_switcher.Iso.{Failures, IsoServer}
use kvm_switcher.Ikvm.Bytes.{Bytes}
use kvm_switcher.Session.{SessionStore}

module _ (st : SessionStore) (hash : Bytes → String)
    (parse : String → Option (String × String)) where
  -- A download has a new identifier. Two conditions are not the code's: a file is not uploaded while it is
  -- downloaded too, and the database does not fail to delete.
  pub data Step (a : IsoServer st) : IsoServer st → Type 0 where
    uploads :
        (form : Form) (f : Failures) (r : IsoRequest)
        → IsFree st hash form a
        → Step a (upload_iso st hash form f r a).0
    deletes :
        (name : String) (f : Failures) (r : IsoRequest)
        → f.delete_fails ≡ false
        → Step a (delete_iso st hash name f r a).0
    requests :
        (id : String) (body : Option UrlRequest) (f : Failures) (r : IsoRequest)
        → lookup id a.downloads ≡ none
        → Step a (download_iso_from_url st hash parse id body f r a).0
    performs :
        (id : String) (e : DownloadEvent) (f : Failures)
        → Step a (perform_iso_download st hash id e f a)

  pub data Reach (a : IsoServer st) : IsoServer st → Type 0 where
    here : Reach a a
    then_step : {b c : IsoServer st} → Reach a b → Step b c → Reach a c

  Step-Kept : (a b : IsoServer st) → Step a b → KeptBy st hash a → KeptBy st hash b
  Step-Kept a _ (uploads form f r free) k = upload_iso-Kept st hash form f r a k free
  Step-Kept a _ (deletes name f r works) k = delete_iso-Kept st hash name f r a k works
  Step-Kept a _ (requests id body f r new) k =
      download_iso_from_url-Kept st hash parse id body f r a k new
  Step-Kept a _ (performs id e f) k = perform-Kept st hash id e f a k

  -- In whatever order files are uploaded, deleted and downloaded, and whatever fails in it but a deletion in
  -- the database, as long as no file is uploaded while one of its name is downloaded: every row of the
  -- table has its file in the directory, with the size and the hash of the row, and the downloads that run
  -- have distinct names that no row has, and have copied what is in their files.
  pub Reach-Kept : (a b : IsoServer st) → Reach a b → KeptBy st hash a → KeptBy st hash b
  Reach-Kept a _ here k = k
  Reach-Kept a c (then_step {b} r s) k = Step-Kept b c s (Reach-Kept a b r k)
