-- ===== src/Ikvm/Decoder/Drawing.antt =====
-- internal/ikvm/decompress.go: in the mode 4:4:4 a block is drawn within its own pixels.
use kvm_switcher.Prelude.{
  if◌then◌else◌, leb, beq_iff, true, ◌≤◌, ap, ◌∙◌, nat_eq, ◌==◌, ◌%◌, inl, ◌/◌, inr, refl, ltb,
  Bool-cases, ◌≡◌, ◌+◌, arith, ◌*◌, ◌<◌, ℕ,
}
use kvm_switcher.Ikvm.Decoder.Blocks.{at_least_one, move_block_index, shown}
use kvm_switcher.Ikvm.Decoder.Frame.{header_bits, placed, read_block, decompress_block}
use kvm_switcher.Ikvm.Decoder.Reader.{update_read_buf}
use kvm_switcher.Ikvm.Decoder.Colors.{
  convert_pixel, refine_pixel, remember_pixel, is_neutral_block, convert_yuv_to_rgb_pass2,
  update_previous_yuv, convert_yuv_to_rgb, max_col, paint, remember,
}
use kvm_switcher.Ikvm.Decoder.Shape.{each_pixel-keeps, SameScreen}
use kvm_switcher.Ikvm.Decoder.Showing.{Block-decompress_block}
use kvm_switcher.Ikvm.Decoder.Restored.{cell, IsOutside}
use kvm_switcher.Ikvm.Decoder.State.{Yuv, Pixel, Decoder}
use native.Mathlib.Nat

-- In the mode 4:4:4 a block is drawn within its 64 pixels.
pub record Within (offset : ℕ) (d e : Decoder) : Type 0 where
  pub screen : SameScreen d e
  pub outside : (j : ℕ) → IsOutside d offset j → e.framebuffer j ≡ d.framebuffer j

drawn_place :
    (x y w row col : ℕ)
    → col < 8
    → (y * 8 + row) * w + (x * 8 + col) ≡ cell w (y * 8 * w + x * 8) (row * 8 + col)
drawn_place x y w row col l =
    let a : (row * 8 + col) / 8 ≡ row = omega arith in
    let b : (row * 8 + col) % 8 ≡ col = omega arith in
    rw (a, b) (omega (arith, Nat.add-mul (y * 8) row w))

Within-paint :
    (x y row col : ℕ) (d e : Decoder) (p : Pixel)
    → row < 8
    → col < 8
    → Within (y * 8 * d.width + x * 8) d e
    → Within (y * 8 * d.width + x * 8) d (paint ((y * 8 + row) * d.width + (x * 8 + col)) p e)
Within-paint x y row col d e p l m h =
    let i = (y * 8 + row) * d.width + (x * 8 + col) in
    let at = drawn_place x y d.width row col m in
    elim (Bool-cases (ltb i e.pixels)) [
      | inr t ↦ rw t h
      | inl t ↦ rw t (record {
        screen = ground (arith, h.screen);
        outside = λ j o. elim (Bool-cases (j == i)) [
          | inl c ↦
              absurd
                (o (row * 8 + col) (omega arith) (ground (arith, h.screen)) (ground (arith, at)))
          | inr c ↦ rw c (h.outside j o)
        ];
      })
    ]

Within-remember :
    (offset i : ℕ) (d e : Decoder) (p : Yuv) → Within offset d e → Within offset d (remember i p e)
Within-remember offset i d e p h = elim (Bool-cases (ltb i e.triples)) [
  | inr t ↦ rw t h
  | inl t ↦ rw t (record { screen = ground (arith, h.screen); outside = h.outside })
]

Within-refl : (offset : ℕ) (d : Decoder) → Within offset d d
Within-refl offset d = record { screen = ground arith; outside = λ j o. refl }

-- The offset of the block at the place `x`, `y`.
abbrev pub offset_of : ℕ → ℕ → ℕ → ℕ
offset_of w x y = y * 8 * w + x * 8

max_col-le : (w x : ℕ) → max_col w x ≤ 8
max_col-le w x = ground arith

Within-update_previous_yuv :
    (offset x y : ℕ) (d : Decoder) → Within offset d (update_previous_yuv x y d)
unfolding update_previous_yuv
Within-update_previous_yuv offset x y d = elim (Bool-cases (d.mode420 == 0)) [
  | inl e ↦ rw e (
      each_pixel-keeps (Within offset d) 8 d.real_width d.real_height x y (remember_pixel d x y) d
        (λ row col f _ _ _ k. Within-remember offset _ d f _ k) (Within-refl offset d))
  | inr e ↦ rw e (Within-refl offset d)
]

Within-convert_yuv_to_rgb :
    (x y : ℕ) (d : Decoder)
    → d.mode420 ≡ 0
    → Within (offset_of d.width x y) d (convert_yuv_to_rgb x y d)
unfolding convert_yuv_to_rgb
Within-convert_yuv_to_rgb x y d m =
    let c : (d.mode420 == 0) ≡ true = (beq_iff d.mode420 0).1 m in
    rw c (
      each_pixel-keeps (Within (offset_of d.width x y) d) (max_col d.width (x * 8)) d.width d.height
        x y (convert_pixel d x y) d
        (λ row col f l k _ h.
          Within-paint x y row col d (remember_pixel d x y row col f) _ l
            (omega (arith, max_col-le d.width (x * 8)))
            (Within-remember (offset_of d.width x y) _ d f _ h))
        (Within-refl (offset_of d.width x y) d))

Within-convert_yuv_to_rgb_pass2 :
    (x y : ℕ) (d : Decoder) → Within (offset_of d.width x y) d (convert_yuv_to_rgb_pass2 x y d)
unfolding convert_yuv_to_rgb_pass2
Within-convert_yuv_to_rgb_pass2 x y d = elim (Bool-cases (d.mode420 == 0)) [
  | inr e ↦ rw e (Within-refl (offset_of d.width x y) d)
  | inl e ↦ rw e (
      each_pixel-keeps (Within (offset_of d.width x y) d) (max_col d.width (x * 8)) d.width d.height
        x y (refine_pixel d x y) d
        (λ row col f l k _ h.
          Within-paint x y row col d f _ l (omega (arith, max_col-le d.width (x * 8))) h)
        (Within-refl (offset_of d.width x y) d))
]

Within-shown :
    (convert : Decoder → Decoder) (offset x y : ℕ) (d : Decoder)
    → Within offset d (convert d)
    → Within offset d (shown convert x y d)
Within-shown convert offset x y d h = elim (Bool-cases (is_neutral_block d)) [
  | inl e ↦ rw e (Within-update_previous_yuv offset x y d)
  | inr e ↦ rw e h
]

-- What is read before a block is drawn leaves the pixels.
Within-after :
    (offset : ℕ) (d e f : Decoder)
    → SameScreen d e
    → e.framebuffer ≡ d.framebuffer
    → Within offset e f
    → Within offset d f
Within-after offset d e f s b h = record {
  screen = ground (arith, h.screen);
  outside = λ j o.
      h.outside j (λ k l m. rw s.same_width (o k l (rw (← s.same_pixels) m))) ∙ ap (λ fb. fb j) b;
}

Within-decompress_block :
    (kind : ℕ) (d : Decoder)
    → d.mode420 ≡ 0
    → Within (offset_of d.width d.txb d.tyb) d (decompress_block kind d)
Within-decompress_block kind d m =
    let k = Block-decompress_block 0 1 (omega arith) (omega arith) kind d in
    let o = offset_of d.width d.txb d.tyb in
    let n : k.tile.mode420 ≡ 0 = k.parsed.screen.same_mode ∙ m in
    let w = ap (λ w. offset_of w d.txb d.tyb) k.parsed.screen.same_width in
    Within-after o d k.tile (decompress_block kind d) k.parsed.screen k.parsed.same_framebuffer
      (elim k.shows [
        | inl e ↦
            rw (e, ← w)
              (Within-shown (convert_yuv_to_rgb d.txb d.tyb) _ d.txb d.tyb k.tile
                (Within-convert_yuv_to_rgb d.txb d.tyb k.tile n))
        | inr e ↦
            rw (e, ← w)
              (Within-shown (convert_yuv_to_rgb_pass2 d.txb d.tyb) _ d.txb d.tyb k.tile
                (Within-convert_yuv_to_rgb_pass2 d.txb d.tyb k.tile))
      ])

Within-move :
    (offset : ℕ) (d e : Decoder) → Within offset d e → Within offset d (move_block_index e)
unfolding move_block_index
Within-move offset d e h =
    elim (Bool-cases
      (leb (at_least_one (e.grid_width / (if e.mode420 == 0 then 8 else 16))) (e.txb + 1))) [
        | inl t ↦ rw t (record { screen = ground (arith, h.screen); outside = h.outside })
        | inr t ↦ rw t (record { screen = ground (arith, h.screen); outside = h.outside })
      ]

placed-framebuffer : (kind : ℕ) (d : Decoder) → (placed kind d).framebuffer ≡ d.framebuffer
placed-framebuffer kind d = elim (Bool-cases (ltb kind 8)) [ inl e ↦ rw e refl | inr e ↦ rw e refl ]

abbrev pub next_offset : ℕ → Decoder → ℕ
next_offset kind d = let at = placed kind d in offset_of d.width at.txb at.tyb

pub Within-read_block :
    (kind : ℕ) (d : Decoder) → d.mode420 ≡ 0 → Within (next_offset kind d) d (read_block kind d)
Within-read_block kind d m =
    let at = placed kind d in
    let e : Decoder = record at { bits = update_read_buf (header_bits kind) at.bits } in
    let s : SameScreen d e = ground arith in
    let b : e.framebuffer ≡ d.framebuffer = placed-framebuffer kind d in
    let w : e.width ≡ d.width = s.same_width in
    Within-move (next_offset kind d) d (decompress_block kind e) (
      Within-after (next_offset kind d) d e (decompress_block kind e) s b (
        rw (← ap (λ w. offset_of w at.txb at.tyb) w)
          (Within-decompress_block kind e (s.same_mode ∙ m))))
