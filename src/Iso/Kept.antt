-- ===== src/Iso/Kept.antt =====
-- internal/api/iso_handlers.go: the invariant of the table, the directory and the downloads, over their parts.
pub mod Running
pub mod Filing
pub mod Requested
pub mod Handling
pub mod Copying
use kvm_switcher.Prelude.{
  string_eq, subst, lookup-erase, beq_iff, ◌==◌, lookup-insert, Bool-cases, erase, inr, arith, ◌≢◌,
  inl, none, ◌⊎◌, insert, some, length, false, lookup, ◌≡◌, true, Bool, String, List, ℕ,
}
use kvm_switcher.Iso.{gone, downloading, waiting, copying, IsoDownload, IsoFile, Job}
use kvm_switcher.Ikvm.Bytes.{Bytes}

abbrev pub is_running : Job → Bool
is_running waiting = true
is_running (copying total done) = true
is_running gone = false

abbrev pub Files : Type 0
Files = List (String × IsoFile)

abbrev pub Disk : Type 0
Disk = List (String × Bytes)

abbrev pub Downloads : Type 0
Downloads = List (String × IsoDownload)

-- What stands under a name after a download was set.
pub set_cases :
    (dls : Downloads) (id other : String) (dl e : IsoDownload)
    → lookup other (insert id dl dls) ≡ some e
    → ((id ≡ other) × (dl ≡ e)) ⊎ ((id ≢ other) × (lookup other dls ≡ some e))
set_cases dls id other dl e h = elim (Bool-cases (id == other)) [
  | inl y ↦ inl (ground (arith, beq_iff id other), ground (arith, lookup-insert id other dl dls))
  | inr n ↦ inr (ground (arith, beq_iff id other), ground (arith, lookup-insert id other dl dls))
]

module _ (hash : Bytes → String) where
  -- The row is about the file.
  pub record Describes (f : IsoFile) (content : Bytes) : Type 0 where
    pub size_is : f.size_bytes ≡ length content
    pub hash_is : f.sha256 ≡ hash content

  -- Every row has its file; the downloads that run have names that are not in the table, each its own, and
  -- what one has copied is in its file.
  pub record Kept (files : Files) (disk : Disk) (dls : Downloads) : Type 0 where
    pub listed :
        (n : String) (f : IsoFile)
        → lookup n files ≡ some f
        → (c : Bytes) × ((lookup n disk ≡ some c) × Describes f c)
    pub apart :
        (id : String) (dl : IsoDownload)
        → lookup id dls ≡ some dl
        → is_running dl.job ≡ true
        → lookup dl.filename files ≡ none
    pub alone :
        (id other : String) (dl e : IsoDownload)
        → lookup id dls ≡ some dl
        → lookup other dls ≡ some e
        → is_running dl.job ≡ true
        → is_running e.job ≡ true
        → dl.filename ≡ e.filename
        → id ≡ other
    pub copied :
        (id : String) (dl : IsoDownload) (total : ℕ) (c : Bytes)
        → lookup id dls ≡ some dl
        → dl.job ≡ copying total c
        → lookup dl.filename disk ≡ some c
    pub told :
        (id : String) (dl : IsoDownload)
        → lookup id dls ≡ some dl
        → is_running dl.job ≡ true
        → dl.status ≡ downloading
