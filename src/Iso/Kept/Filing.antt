-- ===== src/Iso/Kept/Filing.antt =====
-- Files and rows that are set and removed keep the invariant, and so does a new download.
use kvm_switcher.Prelude.{
  string_eq, subst, lookup-insert, beq_iff, ◌==◌, inr, lookup-erase, Bool-cases, arith, inl, insert,
  erase, ◌≢◌, true, none, some, ◌≡◌, lookup, String,
}
use kvm_switcher.Iso.Kept.{is_running, set_cases, Kept, Files, Disk, Downloads, Describes}
use kvm_switcher.Ikvm.Bytes.{Bytes}
use kvm_switcher.Iso.{downloading, waiting, IsoDownload, IsoFile}

module _ (hash : Bytes → String) (files : Files) (disk : Disk) (dls : Downloads)
    (k : Kept hash files disk dls) where
  -- A file goes whose name no row and no running copy has.
  pub erased-Kept :
      (n : String)
      → lookup n files ≡ none
      → ((id : String) (dl : IsoDownload)
          → lookup id dls ≡ some dl
          → is_running dl.job ≡ true
          → dl.job ≢ waiting
          → dl.filename ≢ n)
      → Kept hash files (erase n disk) dls
  erased-Kept n absent free = record {
    listed = λ m f h.
        let (c, (p, q)) = k.listed m f h in
        (c, (ground (arith, lookup-erase n m disk, beq_iff n m), q));
    apart = k.apart;
    alone = k.alone;
    copied = λ j e t c h q.
        let r : is_running e.job ≡ true = ground arith in
        let w : e.job ≢ waiting = λ x. ground arith in
        let d = free j e h r w in
        ground (arith, k.copied j e t c h q, lookup-erase n e.filename disk, beq_iff n e.filename);
    told = k.told;
  }

  -- A file is new.
  pub added-Kept :
      (n : String) (c : Bytes) → lookup n disk ≡ none → Kept hash files (insert n c disk) dls
  added-Kept n c absent = record {
    listed = λ m f h.
        let (d, (p, q)) = k.listed m f h in
        (d, (ground (arith, lookup-insert n m c disk, beq_iff n m), q));
    apart = k.apart;
    alone = k.alone;
    copied = λ j e t d h q.
        ground
          (arith, k.copied j e t d h q, lookup-insert n e.filename c disk, beq_iff n e.filename);
    told = k.told;
  }

  module _ (n : String)
      (free : (id : String) (dl : IsoDownload)
        → lookup id dls ≡ some dl
        → is_running dl.job ≡ true
        → dl.filename ≢ n) where
    -- A file with its row is set, of which no download with that name runs.
    pub stored-Kept :
        (c : Bytes) (row : IsoFile)
        → Describes hash row c
        → Kept hash (insert n row files) (insert n c disk) dls
    stored-Kept c row is = record {
      listed = λ m f h. elim (Bool-cases (n == m)) [
        | inl y ↦ (
          c,
          (
            ground (arith, lookup-insert n m c disk),
            subst (λ g. Describes hash g c) (ground (arith, lookup-insert n m row files)) is,
          ),
        )
        | inr y ↦
            let (d, (p, q)) = k.listed m f (ground (arith, lookup-insert n m row files)) in
            (d, (ground (arith, lookup-insert n m c disk), q))
      ];
      apart = λ j e h t. ground (
        arith,
        free j e h t,
        k.apart j e h t,
        lookup-insert n e.filename row files,
        beq_iff n e.filename,
      );
      alone = k.alone;
      copied = λ j e t d h q.
          let r : is_running e.job ≡ true = ground arith in
          ground (
            arith,
            free j e h r,
            k.copied j e t d h q,
            lookup-insert n e.filename c disk,
            beq_iff n e.filename,
          );
      told = k.told;
    }

    -- Both go.
    pub deleted-Kept : Kept hash (erase n files) (erase n disk) dls
    deleted-Kept = record {
      listed = λ m f h.
          let (d, (p, q)) = k.listed m f (ground (arith, lookup-erase n m files)) in
          (d, (ground (arith, lookup-erase n m files, lookup-erase n m disk), q));
      apart = λ j e h t. ground (arith, k.apart j e h t, lookup-erase n e.filename files);
      alone = k.alone;
      copied = λ j e t d h q.
          let r : is_running e.job ≡ true = ground arith in
          ground (
            arith,
            free j e h r,
            k.copied j e t d h q,
            lookup-erase n e.filename disk,
            beq_iff n e.filename,
          );
      told = k.told;
    }

    -- A download starts under a new name of its own.
    pub registered-Kept :
        (id : String) (dl : IsoDownload)
        → lookup id dls ≡ none
        → lookup n files ≡ none
        → dl.filename ≡ n
        → dl.job ≡ waiting
        → dl.status ≡ downloading
        → Kept hash files disk (insert id dl dls)
    registered-Kept id dl new absent named w s = record {
      listed = k.listed;
      apart = λ j e h t. elim (set_cases dls id j dl e h) [
        | inl (x, y) ↦ ground arith
        | inr (x, y) ↦ k.apart j e y t
      ];
      alone = λ i j d e h g t u q. elim (set_cases dls id i dl d h) [
        | inl (x, y) ↦ elim (set_cases dls id j dl e g) [
          | inl (z, v) ↦ cc
          | inr (z, v) ↦ ground (arith, free j e v u)
        ]
        | inr (x, y) ↦ elim (set_cases dls id j dl e g) [
          | inl (z, v) ↦ ground (arith, free i d y t)
          | inr (z, v) ↦ k.alone i j d e y v t u q
        ]
      ];
      copied = λ j e t c h q. elim (set_cases dls id j dl e h) [
        | inl (x, y) ↦ ground arith
        | inr (x, y) ↦ k.copied j e t c y q
      ];
      told = λ j e h t. elim (set_cases dls id j dl e h) [
        | inl (x, y) ↦ ground arith
        | inr (x, y) ↦ k.told j e y t
      ];
    }
