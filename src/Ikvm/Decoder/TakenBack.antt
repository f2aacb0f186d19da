-- ===== src/Ikvm/Decoder/TakenBack.antt =====
-- internal/ikvm/decoder.go: the error path of `Decode` at a block type that it does not decode.
use kvm_switcher.Ikvm.Decoder.Frame.{
  resized, too_short, invalid_resolution, seeded, configured, decode, read_block, unknown_block,
  finished, restore_blocks, is_advance, advance_block, failed, SavedBlock, saved_before,
  decode_blocks, save_block,
}
use kvm_switcher.Prelude.{
  ap, length, ◌||◌, ◌<◌, subst, sym, ◌%◌, refl, nat_eq, zero, ◌∙◌, ◌==◌, inl, inr, ltb, Bool-cases,
  ◌^◌, ◌/◌, suc, arith, [], ◌∷◌, ◌++◌, All, ◌≡◌, List, ℕ,
}
use kvm_switcher.Ikvm.Decoder.Reader.{make_int_array}
use kvm_switcher.Ikvm.Bytes.{Bytes}
use kvm_switcher.Ikvm.VideoHeader.{VideoHeader}
use kvm_switcher.Ikvm.Decoder.Restored.{save_block-pixels}
use kvm_switcher.Ikvm.Decoder.Undone.{Undoes-step, Undoes, AreApart, IsApart, Saved, drawn_blocks}
use kvm_switcher.Ikvm.Decoder.Drawing.{Within-read_block, next_offset}
use kvm_switcher.Ikvm.Decoder.State.{Decoder, Pixel}

save_block-Saved : (x y : ℕ) (d : Decoder) → Saved d (save_block x y d)
unfolding save_block
save_block-Saved x y d = record { holds = λ k l c. save_block-pixels x y k d l c }

saved_before-Saved : (kind : ℕ) (d : Decoder) → Saved d (saved_before kind d)
saved_before-Saved kind d =
    let x = d.bits.reg0 / 2 ^ 20 % 256 in
    let y = d.bits.reg0 / 2 ^ 12 % 256 in
    let s = save_block-Saved x y (record d { txb = x; tyb = y }) in
    elim (Bool-cases (ltb kind 8)) [
      | inl e ↦ rw e (save_block-Saved d.txb d.tyb d)
      | inr e ↦ rw e (record { holds = s.holds })
    ]

saved_before-offset : (kind : ℕ) (d : Decoder) → (saved_before kind d).offset ≡ next_offset kind d
unfolding save_block
saved_before-offset kind d = elim (Bool-cases (ltb kind 8)) [
  | inl e ↦ rw e refl
  | inr e ↦ rw e refl
]

module _ (goal : ℕ) (orig : ℕ → Pixel) where
  -- The blocks to come are apart from those saved.
  abbrev Fresh : ℕ → List SavedBlock → List ℕ → Type 0
  Fresh w saved os = All (λ o. All (λ s. IsApart w s.offset o) saved) os

  Fresh-append :
      (w : ℕ) (saved : List SavedBlock) (sb : SavedBlock) (os : List ℕ)
      → Fresh w saved os
      → All (IsApart w sb.offset) os
      → Fresh w (saved ++ (sb ∷ [])) os
  Fresh-append w saved sb [] f h = tt
  Fresh-append w saved sb (o ∷ os) (f, fs) (h, hs) =
      (snoc saved f, Fresh-append w saved sb os fs hs)
    where
      snoc :
          (ss : List SavedBlock)
          → All (λ s. IsApart w s.offset o) ss
          → All (λ s. IsApart w s.offset o) (ss ++ (sb ∷ []))
      snoc [] a = (h, tt)
      snoc (s ∷ ss) (a, more) = (a, snoc ss more)

  decode_blocks-taken_back :
      (fuel kind : ℕ) (saved : List SavedBlock) (d e : Decoder)
      → d.mode420 ≡ 0
      → Fresh d.width saved (drawn_blocks goal fuel d)
      → AreApart d.width (drawn_blocks goal fuel d)
      → Undoes orig saved d
      → decode_blocks goal fuel saved d ≡ failed (advance_block kind) e
      → (j : ℕ) → e.framebuffer j ≡ orig j
  unfolding decode_blocks drawn_blocks
  decode_blocks-taken_back zero kind saved d e m f a u h j = ground arith
  decode_blocks-taken_back (suc fuel) kind saved d e m f a u h j =
      let k = d.bits.reg0 / 2 ^ 28 in
      elim (Bool-cases (ltb d.bits.index goal)) [
        | inr t ↦ ground arith
        | inl t ↦ elim (Bool-cases (is_advance k)) [
          | inl v ↦
              let r : failed (advance_block k) (restore_blocks saved d)
                  ≡ failed (advance_block kind) e =
                rw (decode_blocks, t, v) at h in
              let b : restore_blocks saved d ≡ e = ground arith in rw (← b) (u j)
          | inr v ↦ elim (Bool-cases (k == 9)) [
            | inl n ↦
                let r : finished d ≡ failed (advance_block kind) e =
                  rw (decode_blocks, t, v, n) at h in
                ground arith
            | inr n ↦ elim (Bool-cases (ltb k 16)) [
              | inr g ↦
                  let r : failed (unknown_block k) d ≡ failed (advance_block kind) e =
                    rw (decode_blocks, t, v, n, g) at h in
                  ground arith
              | inl g ↦
                  let sb = saved_before k d in
                  let o = saved_before-offset k d in
                  let next = read_block k d in
                  let draws = Within-read_block k d m in
                  let same = sym draws.screen.same_width in
                  let f' = rw (drawn_blocks, t, v, n, g) at f in
                  let a' = rw (drawn_blocks, t, v, n, g) at a in
                  decode_blocks-taken_back fuel kind (saved ++ (sb ∷ [])) next e
                    (draws.screen.same_mode ∙ m)
                    (subst (λ w. Fresh w (saved ++ (sb ∷ [])) (drawn_blocks goal fuel next)) same
                      (Fresh-append d.width saved sb (drawn_blocks goal fuel next) f'.1
                        (rw o a'.0)))
                    (subst (λ w. AreApart w (drawn_blocks goal fuel next)) same a'.1)
                    (Undoes-step orig saved sb d next (saved_before-Saved k d) (rw o draws)
                      (rw o f'.0) u)
                    (rw (decode_blocks, t, v, n, g) at h) j
            ]
          ]
        ]
      ]

resized_same :
    (w h : ℕ) (d : Decoder) → w ≡ d.width → h ≡ d.height → 0 < d.pixels → resized w h d ≡ d
resized_same w h d x y p = ground arith

configured-framebuffer :
    (aan : ℕ → ℕ → ℕ → ℕ) (h : VideoHeader) (ws : List ℕ) (d : Decoder)
    → h.dst_x ≡ d.width
    → h.dst_y ≡ d.height
    → 0 < d.pixels
    → ((configured aan h ws d).framebuffer ≡ d.framebuffer)
      × ((configured aan h ws d).mode420 ≡ h.mode420)
      × ((configured aan h ws d).width ≡ d.width)
unfolding configured
configured-framebuffer aan h ws d x y p =
    let s : resized h.dst_x h.dst_y d ≡ d = resized_same h.dst_x h.dst_y d x y p in
    rw s (refl, refl, refl)

-- In the mode 4:4:4 a frame of the screen's size that stops at a block type the decoder does not know
-- leaves every pixel as it was before the frame, if no two of the blocks drawn before have a pixel in common.
pub decode-taken_back :
    (aan : ℕ → ℕ → ℕ → ℕ) (fuel kind : ℕ) (h : VideoHeader) (bytes : Bytes) (d e : Decoder)
    → h.mode420 ≡ 0
    → h.dst_x ≡ d.width
    → h.dst_y ≡ d.height
    → 0 < d.pixels
    → AreApart d.width (
        drawn_blocks
          (h.compress_size / 4)
          fuel
          (seeded (configured aan h (make_int_array bytes) d)))
    → decode aan fuel h bytes d ≡ failed (advance_block kind) e
    → (j : ℕ) → e.framebuffer j ≡ d.framebuffer j
unfolding decode restore_blocks
decode-taken_back aan fuel kind h bytes d e m x y p a r j =
    let ws = make_int_array bytes in
    let set = configured aan h ws d in
    let (fb, mode, width) = configured-framebuffer aan h ws d x y p in
    elim (Bool-cases (h.dst_x == 0 || h.dst_y == 0)) [
      | inl t ↦
          let q : failed (invalid_resolution h.dst_x h.dst_y) d ≡ failed (advance_block kind) e =
            rw t at r in
          ground arith
      | inr t ↦ elim (Bool-cases (ltb (length ws) 3)) [
        | inl v ↦
            let q : failed (too_short (length ws)) set ≡ failed (advance_block kind) e =
              rw (t, v) at r in
            ground arith
        | inr v ↦
            decode_blocks-taken_back (h.compress_size / 4) set.framebuffer fuel kind [] (seeded set)
              e (mode ∙ m) (nothing_saved (drawn_blocks (h.compress_size / 4) fuel (seeded set)))
              (subst (λ w. AreApart w (drawn_blocks (h.compress_size / 4) fuel (seeded set)))
                (sym width) a)
              (λ i. refl) (rw (t, v) at r) j
            ∙ ap (λ f. f j) fb
      ]
    ]
  where
    nothing_saved : (os : List ℕ) → All (λ o. Unit {0}) os
    nothing_saved [] = tt
    nothing_saved (o ∷ os) = (tt, nothing_saved os)
