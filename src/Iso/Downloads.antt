-- ===== src/Iso/Downloads.antt =====
-- internal/api/iso_handlers.go: downloads of files from other servers. The goroutine of a download takes three
-- kinds of steps, between which other handlers run: its response comes, bytes come, and the copying ends.
use kvm_switcher.Prelude.{
  string_eq, ◌||◌, ◌∷◌, nat_eq, ◌&&◌, ◌+◌, some, ◌==◌, [], ◌++◌, ltb, is_some, not, none, false,
  if◌then◌else◌, insert, lookup, length, Option, true, Bool, List, String, ℕ,
}
use kvm_switcher.Iso.Names.{name_from_url, sanitize_iso_filename}
use kvm_switcher.Iso.{
  complete, iso_audit, accepted, waiting, insert_iso, limit_of, refused, list_isos, try_remove,
  exceeds, downloading, copying, IsoAnswer, gone, get_iso, error, Job, IsoServer, IsoDownload,
  Failures, DownloadStatus,
}
use kvm_switcher.Api.Sessions.{email_of}
use kvm_switcher.Iso.Handlers.{IsoRequest}
use kvm_switcher.Ikvm.Bytes.{Bytes}
use kvm_switcher.Session.{SessionStore}

-- The response's status and its `Content-Length`, 0 where it is not known.
pub data Response : Type 0 where
  unreachable : Response
  replied : ℕ → ℕ → Response

pub data DownloadEvent : Type 0 where
  responds : Response → DownloadEvent
  sends : Bytes → DownloadEvent
  ends : Bool → ℕ → DownloadEvent

pub record UrlRequest : Type 0 where
  pub url : String
  pub filename : String

abbrev is_downloading : DownloadStatus → Bool
is_downloading downloading = true
is_downloading _ = false

-- A download for that name is in progress.
unfoldable pub in_progress : String → List (String × IsoDownload) → Bool
in_progress name [] = false
in_progress name ((id, dl) ∷ dls) =
    dl.filename == name && is_downloading dl.status || in_progress name dls

module _ (st : SessionStore) (hash : Bytes → String) where
  abbrev pub set_download : String → IsoDownload → IsoServer st → IsoServer st
  set_download id dl a = record a { downloads = insert id dl a.downloads }

  -- From the name on.
  unfoldable pub register_download :
      String → String → String → Failures → IsoRequest → IsoServer st → IsoServer st × IsoAnswer
  register_download id name url f r a = elim (sanitize_iso_filename name) [
    | some e ↦ (a, refused 400 e)
    | none ↦ elim (get_iso f.get_fails name a.files) [
      | none ↦ (a, refused 500 "database error")
      | some (some row) ↦ (a, refused 409 "ISO already exists")
      | some none ↦
          if in_progress name a.downloads
          then (a, refused 409 "download is already in progress")
          else (
            set_download id
                (record {
                  filename = name;
                  url = url;
                  total_bytes = 0;
                  downloaded = 0;
                  status = downloading;
                  message = "";
                  started_at = r.now;
                  uploaded_by = email_of r.user;
                  remote_addr = r.remote_addr;
                  job = waiting;
                })
                a,
            accepted id,
          )
    ]
  ]

  -- `parse` gives the scheme and the path of a URL; the body is `none` where it cannot be decoded.
  unfoldable pub download_iso_from_url :
      (String → Option (String × String))
      → String
      → Option UrlRequest
      → Failures
      → IsoRequest
      → IsoServer st
      → IsoServer st × IsoAnswer
  download_iso_from_url parse id body f r a = elim a.has_db [
    | false ↦ (a, refused 500 "database not available")
    | true ↦ elim body [
      | none ↦ (a, refused 400 "invalid request body")
      | some req ↦ elim (parse req.url) [
        | none ↦ (a, refused 400 (if req.url == "" then "url is required" else "invalid URL"))
        | some (scheme, path) ↦
            let name : String = if req.filename == "" then name_from_url path else req.filename in
            if req.url == ""
            then (a, refused 400 "url is required")
            else if not (scheme == "http") && not (scheme == "https")
            then (a, refused 400 "only http and https URLs are supported")
            else if name == ""
            then (a, refused 400 "could not determine filename from URL; please provide a filename")
            else register_download id name req.url f r a
      ]
    ]
  ]

  -- The file of that name goes, whoever wrote it, if the removal does not fail.
  unfoldable pub fail_download :
      String → IsoDownload → String → Failures → IsoServer st → IsoServer st
  fail_download id dl msg f a =
      set_download id (record dl { status = error; message = msg; job = gone })
        (try_remove st f.remove_fails dl.filename a)

  -- The partial file of an earlier download is removed; so is any file if the table cannot be read.
  unfoldable pub without_orphan : String → Failures → IsoServer st → IsoServer st
  without_orphan name f a = elim (get_iso f.get_fails name a.files) [
    | some (some row) ↦ a
    | some none ↦ try_remove st f.remove_fails name a
    | none ↦ try_remove st f.remove_fails name a
  ]

  unfoldable pub create_file : String → IsoDownload → ℕ → Failures → IsoServer st → IsoServer st
  create_file id dl total f a =
      if is_some (lookup dl.filename a.disk)
      then fail_download id dl "file already exists on disk" f a
      else if f.create_fails
      then fail_download id dl "failed to create file" f a
      else set_download id (record dl { job = copying total [] })
          (record a { disk = insert dl.filename [] a.disk })

  -- The response of a download that waits for it.
  unfoldable pub begin_copy :
      String → IsoDownload → Response → Failures → IsoServer st → IsoServer st
  begin_copy id dl unreachable f a = fail_download id dl "HTTP request failed" f a
  begin_copy id dl (replied code size) f a =
      let sized : IsoDownload = record dl {
        total_bytes = if ltb 0 size then size else dl.total_bytes;
      } in
      if not (code == 200)
      then fail_download id dl "remote server returned another status" f a
      else elim (list_isos st f.list_fails a) [
        | none ↦ fail_download id sized "database error" f a
        | some total ↦
            if ltb 0 size && exceeds (total + size) (limit_of st a)
            then fail_download id sized "download would exceed total ISO storage limit" f a
            else create_file id sized total f (without_orphan dl.filename f a)
      ]

  unfoldable pub copy_chunk : String → IsoDownload → ℕ → Bytes → Bytes → IsoServer st → IsoServer st
  copy_chunk id dl total done chunk a =
      set_download id
        (record dl { downloaded = length (done ++ chunk); job = copying total (done ++ chunk) })
        (record a { disk = insert dl.filename (done ++ chunk) a.disk })

  -- The end of the copying, whether it succeeded or not.
  unfoldable pub end_copy :
      String → IsoDownload → ℕ → Bytes → Bool → Failures → ℕ → IsoServer st → IsoServer st
  end_copy id dl total done ok f now a =
      if not ok
      then fail_download id dl "download write failed" f a
      else if exceeds (total + length done) (limit_of st a)
      then fail_download id dl "download exceeds total ISO storage limit" f a
      else elim (insert_iso st f.insert_fails dl.filename (length done) (hash done) dl.uploaded_by
          now a) [
            | none ↦ fail_download id dl "failed to record ISO metadata" f a
            | some b ↦ iso_audit st "iso.download_url" dl.uploaded_by dl.remote_addr (
                set_download id
                  (record dl { status = complete; downloaded = length done; job = gone }) b)
          ]

  -- One step of `performISODownload`; an event that its goroutine does not wait for does not happen.
  abbrev pub perform_on :
      String → IsoDownload → Job → DownloadEvent → Failures → IsoServer st → IsoServer st
  perform_on id dl waiting (responds resp) f a = begin_copy id dl resp f a
  perform_on id dl (copying total done) (sends chunk) f a = copy_chunk id dl total done chunk a
  perform_on id dl (copying total done) (ends ok now) f a = end_copy id dl total done ok f now a
  perform_on id dl job e f a = a

  unfoldable pub perform_iso_download :
      String → DownloadEvent → Failures → IsoServer st → IsoServer st
  perform_iso_download id e f a = elim (lookup id a.downloads) [
    | none ↦ a
    | some dl ↦ perform_on id dl dl.job e f a
  ]

  unfoldable pub get_iso_download : String → IsoServer st → Option IsoDownload
  get_iso_download id a = lookup id a.downloads
