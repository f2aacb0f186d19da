-- ===== src/Iso/Kept/Running.antt =====
-- A running download keeps the invariant when it is set again.
use kvm_switcher.Prelude.{
  subst, string_eq, beq_iff, ◌==◌, lookup-insert, inr, lookup-erase, inl, Bool-cases, none, arith,
  insert, erase, ◌≢◌, true, some, ◌≡◌, lookup, String, ℕ,
}
use kvm_switcher.Iso.Kept.{is_running, set_cases, Kept, Files, Disk, Downloads, Describes}
use kvm_switcher.Ikvm.Bytes.{Bytes}
use kvm_switcher.Iso.{gone, downloading, copying, IsoDownload, IsoFile}

module _ (hash : Bytes → String) (files : Files) (disk : Disk) (dls : Downloads)
    (k : Kept hash files disk dls) where
  -- A download that runs, and has set a new file or removed its own, is gone or goes on copying; the files
  -- of the others stay.
  module _ (id : String) (dl next : IsoDownload) (l : lookup id dls ≡ some dl)
      (r : is_running dl.job ≡ true) (same : next.filename ≡ dl.filename)
      (s : is_running next.job ≡ true → next.status ≡ downloading) where
    old_apart : (n : String) (f : IsoFile) → lookup n files ≡ some f → dl.filename ≢ n
    old_apart n f h e = ground (arith, k.apart id dl l r)

    other_name :
        (j : String) (e : IsoDownload)
        → id ≢ j
        → lookup j dls ≡ some e
        → is_running e.job ≡ true
        → dl.filename ≢ e.filename
    other_name j e d h t q = d (k.alone id j dl e l h r t q)

    next_apart :
        (j : String) (e : IsoDownload)
        → lookup j (insert id next dls) ≡ some e
        → is_running e.job ≡ true
        → lookup e.filename files ≡ none
    next_apart j e h t = elim (set_cases dls id j next e h) [
      | inl (i, q) ↦ ground (arith, k.apart id dl l r)
      | inr (d, g) ↦ k.apart j e g t
    ]

    next_alone :
        (i j : String) (d e : IsoDownload)
        → lookup i (insert id next dls) ≡ some d
        → lookup j (insert id next dls) ≡ some e
        → is_running d.job ≡ true
        → is_running e.job ≡ true
        → d.filename ≡ e.filename
        → i ≡ j
    next_alone i j d e h g t u q = elim (set_cases dls id i next d h) [
      | inl (x, y) ↦ elim (set_cases dls id j next e g) [
        | inl (z, w) ↦ cc
        | inr (z, w) ↦ ground (arith, k.alone id j dl e l w r u)
      ]
      | inr (x, y) ↦ elim (set_cases dls id j next e g) [
        | inl (z, w) ↦ ground (arith, k.alone i id d dl y l t r)
        | inr (z, w) ↦ k.alone i j d e y w t u q
      ]
    ]

    next_told :
        (j : String) (e : IsoDownload)
        → lookup j (insert id next dls) ≡ some e
        → is_running e.job ≡ true
        → e.status ≡ downloading
    next_told j e h t = elim (set_cases dls id j next e h) [
      | inl (i, q) ↦ ground (arith, s)
      | inr (d, g) ↦ k.told j e g t
    ]

    pub failed-Kept :
        next.job ≡ gone → Kept hash files (erase dl.filename disk) (insert id next dls)
    failed-Kept over = record {
      listed = λ n f h.
          let (c, (p, q)) = k.listed n f h in
          (
            c,
            (
              ground
                  (arith, lookup-erase dl.filename n disk, beq_iff dl.filename n, old_apart n f h),
              q,
            ),
          );
      apart = next_apart;
      alone = next_alone;
      copied = λ j e total c h q. elim (set_cases dls id j next e h) [
        | inl (x, y) ↦ ground arith
        | inr (x, y) ↦ ground (
          arith,
          k.copied j e total c y q,
          lookup-erase dl.filename e.filename disk,
          beq_iff dl.filename e.filename,
          other_name j e x y,
        )
      ];
      told = next_told;
    }

    -- Its file stays.
    pub stopped-Kept : next.job ≡ gone → Kept hash files disk (insert id next dls)
    stopped-Kept over = record {
      listed = k.listed;
      apart = next_apart;
      alone = next_alone;
      copied = λ j e total c h q. elim (set_cases dls id j next e h) [
        | inl (x, y) ↦ ground arith
        | inr (x, y) ↦ k.copied j e total c y q
      ];
      told = next_told;
    }

    pub copied-Kept :
        (total : ℕ) (c : Bytes)
        → next.job ≡ copying total c
        → Kept hash files (insert dl.filename c disk) (insert id next dls)
    copied-Kept total c over = record {
      listed = λ n f h.
          let (d, (p, q)) = k.listed n f h in
          (
            d,
            (
              ground (
                arith,
                lookup-insert dl.filename n c disk,
                beq_iff dl.filename n,
                old_apart n f h,
              ),
              q,
            ),
          );
      apart = next_apart;
      alone = next_alone;
      copied = λ j e t d h q. elim (set_cases dls id j next e h) [
        | inl (x, y) ↦
            ground
              (arith, lookup-insert dl.filename e.filename c disk, beq_iff dl.filename e.filename)
        | inr (x, y) ↦ ground (
          arith,
          k.copied j e t d y q,
          lookup-insert dl.filename e.filename c disk,
          beq_iff dl.filename e.filename,
          other_name j e x y,
        )
      ];
      told = next_told;
    }

    -- Its row is set.
    pub finished-Kept :
        (c : Bytes) (row : IsoFile)
        → next.job ≡ gone
        → lookup dl.filename disk ≡ some c
        → Describes hash row c
        → Kept hash (insert dl.filename row files) disk (insert id next dls)
    finished-Kept c row over at is = record {
      listed = λ n f h. elim (Bool-cases (dl.filename == n)) [
        | inl y ↦ (
          c,
          (
            ground (arith, beq_iff dl.filename n),
            subst (λ g. Describes hash g c) (ground (arith, lookup-insert dl.filename n row files))
                is,
          ),
        )
        | inr y ↦ k.listed n f (ground (arith, lookup-insert dl.filename n row files))
      ];
      apart = λ j e h t. elim (set_cases dls id j next e h) [
        | inl (x, y) ↦ ground arith
        | inr (x, y) ↦ ground (
          arith,
          k.apart j e y t,
          lookup-insert dl.filename e.filename row files,
          beq_iff dl.filename e.filename,
          other_name j e x y,
        )
      ];
      alone = next_alone;
      copied = λ j e t d h q. elim (set_cases dls id j next e h) [
        | inl (x, y) ↦ ground arith
        | inr (x, y) ↦ k.copied j e t d y q
      ];
      told = next_told;
    }
