-- ===== src/Iso.antt =====
-- internal/api/iso_handlers.go and internal/store/isos.go: the library of ISO files, which is the directory of the
-- files, the table about them and the downloads that fill it. Texts of errors stand without names and causes.
pub mod Names
pub mod Handlers
pub mod Downloads
pub mod Kept
pub mod Reached
pub mod Uploaded
pub mod Lost
pub mod Media
mod Tests
use kvm_switcher.Prelude.{
  ◌+◌, [], ◌∷◌, suc, insert, lookup, true, is_some, negsuc, some, ◌*◌, ◌||◌, none, if◌then◌else◌,
  ltb, erase, Option, pos, List, ℤ, String, Bool, ℕ,
}
use kvm_switcher.Api.{log_audit, ApiServer}
use kvm_switcher.Session.{SessionStore}
use kvm_switcher.Ikvm.Bytes.{Bytes}

pub record IsoFile : Type 0 where
  pub id : ℕ
  pub filename : String
  pub size_bytes : ℕ
  pub sha256 : String
  pub uploaded_by : String
  pub uploaded_at : ℕ
  pub last_used : Option ℕ

-- What the goroutine of a download does: it waits for the response, or copies (the size of all files when it
-- began, and what is copied), or is gone.
pub data Job : Type 0 where
  waiting : Job
  copying : ℕ → Bytes → Job
  gone : Job

pub data DownloadStatus : Type 0 where
  downloading complete error : DownloadStatus

-- `ISODownload`, and the goroutine that works on it.
pub record IsoDownload : Type 0 where
  pub filename : String
  pub url : String
  pub total_bytes : ℕ
  pub downloaded : ℕ
  pub status : DownloadStatus
  pub message : String
  pub started_at : ℕ
  pub uploaded_by : String
  pub remote_addr : String
  pub job : Job

-- `files` is the table, whose file names are unique, and `last_id` its last key; `disk` is the directory.
pub record IsoServer (st : SessionStore) : Type 0 where
  pub api : ApiServer st
  pub has_db : Bool
  pub files : List (String × IsoFile)
  pub last_id : ℕ
  pub disk : List (String × Bytes)
  pub downloads : List (String × IsoDownload)

-- Which calls of the database and of the file system fail in a handler; of a writing that fails, after how
-- many bytes.
pub record Failures : Type 0 where
  pub get_fails : Bool
  pub list_fails : Bool
  pub insert_fails : Bool
  pub read_back_fails : Bool
  pub delete_fails : Bool
  pub create_fails : Bool
  pub write_fails : Option ℕ
  pub remove_fails : Bool

pub data IsoAnswer : Type 0 where
  refused : ℕ → String → IsoAnswer
  created : IsoFile → IsoAnswer
  recorded : String → ℕ → String → IsoAnswer
  accepted : String → IsoAnswer
  served : Bytes → IsoAnswer
  fine : IsoAnswer

unfoldable pub total_size : List (String × IsoFile) → ℕ
total_size [] = 0
total_size ((n, f) ∷ fs) = f.size_bytes + total_size fs

abbrev pub rows : List (String × IsoFile) → List IsoFile
rows [] = []
rows ((n, f) ∷ fs) = f ∷ rows fs

-- A number of bytes is more than so many GB.
abbrev pub exceeds : ℕ → ℤ → Bool
exceeds n (pos g) = ltb (g * 1_073_741_824) n
exceeds n (negsuc g) = true

-- `GetISO`: an error, or the row if there is one.
abbrev pub get_iso : Bool → String → List (String × IsoFile) → Option (Option IsoFile)
get_iso fails name files = if fails then none else some (lookup name files)

module _ (st : SessionStore) where
  -- `ListISOs`, of which the handlers use the sum of the sizes.
  abbrev pub list_isos : Bool → IsoServer st → Option ℕ
  list_isos fails a = if fails then none else some (total_size a.files)

  -- `InsertISO`: the name is unique.
  unfoldable pub insert_iso :
      Bool → String → ℕ → String → String → ℕ → IsoServer st → Option (IsoServer st)
  insert_iso fails name size hash by now a =
      if fails || is_some (lookup name a.files)
      then none
      else some (record a {
        files =
            insert name
              (record {
                id = suc a.last_id;
                filename = name;
                size_bytes = size;
                sha256 = hash;
                uploaded_by = by;
                uploaded_at = now;
                last_used = none;
              })
              a.files;
        last_id = suc a.last_id;
      })

  abbrev pub limit_of : IsoServer st → ℤ
  limit_of a = a.api.config.settings.iso_max_size_gb

  abbrev pub remove_file : String → IsoServer st → IsoServer st
  remove_file name a = record a { disk = erase name a.disk }

  -- `os.Remove` where its error is not looked at.
  abbrev pub try_remove : Bool → String → IsoServer st → IsoServer st
  try_remove fails name a = if fails then a else remove_file name a

  abbrev pub iso_audit : String → String → String → IsoServer st → IsoServer st
  iso_audit event email remote a = record a {
    api =
        log_audit st
          (record {
            event_type = event;
            user_email = email;
            server_name = "";
            session_id = "";
            remote_addr = remote;
          })
          a.api;
  }
