-- ===== src/Iso/Tests.antt =====
-- The library at concrete files.
use kvm_switcher.Iso.{
  served, total_size, waiting, insert_iso, downloading, IsoFile, Failures, IsoServer, IsoDownload,
}
use kvm_switcher.Iso.Downloads.{
  in_progress, create_file, without_orphan, end_copy, copy_chunk, replied, unreachable, begin_copy,
  responds, sends, register_download, ends, download_iso_from_url, perform_iso_download, UrlRequest,
}
use kvm_switcher.Iso.Names.{
  last_filled, split_slashes, name_from_url, ends_in_iso, lowers_to, all_plain, has_dots, bytes_in,
  sanitize_iso_filename,
}
use kvm_switcher.Api.{log_audit}
use kvm_switcher.Prelude.{
  erase, insert, nat_eq, refl, ◌==◌, ◌≡◌, length, arith, false, Option, if◌then◌else◌, true, String,
  lookup, [], ◌∷◌, some, none,
}
use kvm_switcher.Iso.Reached.{Step, here, then_step, Reach, Reach-Kept}
use kvm_switcher.Iso.Lost.{perform-uploaded}
use kvm_switcher.Iso.Uploaded.{upload_iso-Uploaded, Uploaded}
use kvm_switcher.Iso.Handlers.{write_upload, upload, IsoRequest, download_iso, upload_iso, Upload}
use kvm_switcher.Iso.Kept.{Kept}
use kvm_switcher.Ikvm.Bytes.{Bytes}
use kvm_switcher.Iso.Kept.Handling.{KeptBy}
use kvm_switcher.Api.Sample.{sample}
use kvm_switcher.Store.Memory.{memory_store}

abbrev start : IsoServer memory_store
start = record { api = sample; has_db = true; files = []; last_id = 0; disk = []; downloads = [] }

-- Not SHA-256.
abbrev hash : Bytes → String
hash bytes = if length bytes == 3 then "three" else "other"

abbrev parse : String → Option (String × String)
parse url = some ("https", "/pub/linux.ISO/")

abbrev never : Failures
never = record {
  get_fails = false;
  list_fails = false;
  insert_fails = false;
  read_back_fails = false;
  delete_fails = false;
  create_fails = false;
  write_fails = none;
  remove_fails = false;
}

abbrev anyone : IsoRequest
anyone = record { user = none; remote_addr = "10.1.1.1:4000"; now = 100 }

abbrev linux : UrlRequest
linux = record { url = "https://mirror/pub/linux.ISO/"; filename = "" }

abbrev asked : IsoServer memory_store
asked = (download_iso_from_url memory_store hash parse "d1" (some linux) never anyone start).0

abbrev answered : IsoServer memory_store
answered = perform_iso_download memory_store hash "d1" (responds (replied 200 3)) never asked

abbrev filled : IsoServer memory_store
filled = perform_iso_download memory_store hash "d1" (sends (1 ∷ 2 ∷ 3 ∷ [])) never answered

abbrev downloaded : IsoServer memory_store
downloaded = perform_iso_download memory_store hash "d1" (ends true 105) never filled

-- The name comes from the URL, and the downloaded file is served.
downloaded_serves :
    download_iso memory_store hash "linux.ISO" never downloaded ≡ served (1 ∷ 2 ∷ 3 ∷ [])
unfolding download_iso download_iso_from_url register_download perform_iso_download begin_copy
    copy_chunk end_copy without_orphan create_file insert_iso total_size name_from_url split_slashes
    last_filled sanitize_iso_filename bytes_in has_dots all_plain lowers_to ends_in_iso in_progress
    lookup insert erase log_audit
downloaded_serves = refl

refused_name : sanitize_iso_filename "../a.iso" ≡ some "filename must not contain '..'"
unfolding sanitize_iso_filename bytes_in has_dots
refused_name = refl

empty-Kept : Kept hash start.files start.disk start.downloads
unfolding lookup
empty-Kept = record {
  listed = λ n f h. ground arith;
  apart = λ id dl h r. ground arith;
  alone = λ id other dl e h g r s q. ground arith;
  copied = λ id dl total c h q. ground arith;
  told = λ id dl h r. ground arith;
}

reached : Reach memory_store hash parse start downloaded
unfolding lookup
reached =
    then_step
      (then_step
        (then_step (then_step here (Step.requests "d1" (some linux) never anyone refl))
          (Step.performs "d1" (responds (replied 200 3)) never))
        (Step.performs "d1" (sends (1 ∷ 2 ∷ 3 ∷ [])) never))
      (Step.performs "d1" (ends true 105) never)

Reach-Kept_example : KeptBy memory_store hash downloaded
Reach-Kept_example = Reach-Kept memory_store hash parse start downloaded reached empty-Kept

abbrev tools : Upload
tools = record { filename = "tools.iso"; size = 2; content = 7 ∷ 8 ∷ [] }

upload_iso-Uploaded_example :
    Uploaded memory_store hash tools never start
      (upload_iso memory_store hash (upload tools) never anyone start)
upload_iso-Uploaded_example = upload_iso-Uploaded memory_store hash tools never anyone start

-- The download waits while its file is uploaded.
abbrev waits : IsoDownload
waits = record {
  filename = "tools.iso";
  url = "https://mirror/tools.iso";
  total_bytes = 0;
  downloaded = 0;
  status = downloading;
  message = "";
  started_at = 100;
  uploaded_by = "";
  remote_addr = "10.1.1.1:4000";
  job = waiting;
}

abbrev uploaded : IsoServer memory_store
uploaded =
    (upload_iso memory_store hash (upload tools) never anyone
      (record start { downloads = ("d1", waits) ∷ [] })).0

abbrev tools_row : IsoFile
tools_row = record {
  id = 1;
  filename = "tools.iso";
  size_bytes = 2;
  sha256 = "other";
  uploaded_by = "";
  uploaded_at = 100;
  last_used = none;
}

uploaded_there :
    (lookup "d1" uploaded.downloads ≡ some waits)
    × ((lookup "tools.iso" uploaded.files ≡ some tools_row)
        × (lookup "tools.iso" uploaded.disk ≡ some (7 ∷ 8 ∷ [])))
unfolding upload_iso write_upload insert_iso total_size sanitize_iso_filename bytes_in has_dots
    all_plain lowers_to ends_in_iso lookup insert erase log_audit
uploaded_there = (refl, (refl, refl))

perform-uploaded_example :
    (lookup "tools.iso"
        (perform_iso_download memory_store hash "d1" (responds unreachable) never uploaded).disk
      ≡ none)
    × (lookup "tools.iso"
          (perform_iso_download memory_store hash "d1" (responds unreachable) never uploaded).files
        ≡ some tools_row)
perform-uploaded_example =
    perform-uploaded memory_store hash "d1" waits tools_row (7 ∷ 8 ∷ []) unreachable never uploaded
      uploaded_there.0 refl uploaded_there.1.0 uploaded_there.1.1 refl refl
