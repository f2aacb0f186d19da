-- ===== src/Ikvm/Decoder/Restored.antt =====
-- internal/ikvm/decoder.go: what saving blocks and restoring them does to a pixel.
use kvm_switcher.Ikvm.Decoder.Loops.{for_each-related, for_each-inv}
use kvm_switcher.Ikvm.Decoder.Shape.{SameScreen}
use kvm_switcher.Prelude.{
  sym, lt→ltb, true, beq_iff, nat_eq, inl, inr, ◌==◌, ltb, Bool-cases, suc, refl, ap, ◌∙◌, arith,
  ◌≢◌, ◌≡◌, ◌<◌, ◌*◌, ◌/◌, ◌%◌, ◌+◌, ℕ,
}
use kvm_switcher.Ikvm.Decoder.Frame.{
  restore_pixel, save_pixel, SavedBlock, restore_block, save_block, place,
}
use kvm_switcher.Ikvm.Decoder.State.{black, Pixel, Decoder}
use native.Mathlib.Nat

-- Pixel `k` of the 64 of the block whose first pixel has the index `offset`.
abbrev pub cell : ℕ → ℕ → ℕ → ℕ
cell w offset k = offset + k / 8 * w + k % 8

-- Index `j` is no pixel of the block within the screen.
abbrev pub IsOutside : Decoder → ℕ → ℕ → Type 0
IsOutside d offset j = (k : ℕ) → k < 64 → j < d.pixels → cell d.width offset k ≢ j

place-cell : (w offset k : ℕ) → place (offset % w) (offset / w) w k ≡ cell w offset k
place-cell w offset k = omega (arith, Nat.add-mul (offset / w) (k / 8) w, Nat.mod-add-div' offset w)

place_lem : (w x y k : ℕ) → place (x * 8) (y * 8) w k ≡ cell w (y * 8 * w + x * 8) k
place_lem w x y k = omega (arith, Nat.add-mul (y * 8) (k / 8) w)

-- A saved block holds the pixels that were there.
SavedUpTo : ℕ → ℕ → Decoder → ℕ → (ℕ → Pixel) → Type 0
SavedUpTo x y d i saved =
    (m : ℕ) → m < i → place x y d.width m < d.pixels → saved m ≡ d.framebuffer (place x y d.width m)

save_pixel-SavedUpTo :
    (x y i : ℕ) (d : Decoder) (saved : ℕ → Pixel)
    → SavedUpTo x y d i saved
    → SavedUpTo x y d (suc i) (save_pixel x y d i saved)
unfolding SavedUpTo
save_pixel-SavedUpTo x y i d saved h m l p = elim (Bool-cases (m == i)) [
  | inl e ↦
      let same : m ≡ i = (beq_iff m i).0 e in
      let t : ltb (place x y d.width i) d.pixels ≡ true = lt→ltb _ _ (rw (← same) p) in
      rw (t, e) (ap (λ n. d.framebuffer (place x y d.width n)) (sym same))
  | inr e ↦
      let before : m < i = ground arith in
      elim (Bool-cases (ltb (place x y d.width i) d.pixels)) [
        | inl t ↦ rw (t, e) (h m before p)
        | inr t ↦ rw t (h m before p)
      ]
]

SavedUpTo-start : (x y : ℕ) (d : Decoder) → SavedUpTo x y d 0 (λ _. black)
unfolding SavedUpTo
SavedUpTo-start x y d m l p = absurd (omega arith)

save_block-saved :
    (x y : ℕ) (d : Decoder) → SavedUpTo (x * 8) (y * 8) d 64 (save_block x y d).pixels
unfolding save_block
save_block-saved x y d =
    for_each-inv (SavedUpTo (x * 8) (y * 8) d) 64 0 64 (save_pixel (x * 8) (y * 8) d) (λ _. black)
      refl (λ i t. save_pixel-SavedUpTo (x * 8) (y * 8) i d t) (SavedUpTo-start (x * 8) (y * 8) d)

pub save_block-pixels :
    (x y k : ℕ) (d : Decoder)
    → k < 64
    → cell d.width (y * 8 * d.width + x * 8) k < d.pixels
    → (save_block x y d).pixels k ≡ d.framebuffer (cell d.width (y * 8 * d.width + x * 8) k)
unfolding SavedUpTo
save_block-pixels x y k d l h =
    save_block-saved x y d k l (rw (place_lem d.width x y k) h)
    ∙ ap d.framebuffer (place_lem d.width x y k)

-- What restoring the first `i` pixels of a block leaves at a pixel.
pub data Left (d : Decoder) (sb : SavedBlock) (j i : ℕ) (p : Pixel) : Type 0 where
  copied :
      (k : ℕ)
      → k < i
      → cell d.width sb.offset k ≡ j
      → j < d.pixels
      → p ≡ sb.pixels k
      → Left d sb j i p
  left :
      ((k : ℕ) → k < i → j < d.pixels → cell d.width sb.offset k ≢ j)
      → p ≡ d.framebuffer j
      → Left d sb j i p

Left-restore_pixel :
    (sb : SavedBlock) (d : Decoder) (j i : ℕ) (fb : ℕ → Pixel)
    → Left d sb j i (fb j)
    → Left d sb j (suc i) (restore_pixel sb d i fb j)
Left-restore_pixel sb d j i fb h =
    elim (Bool-cases (ltb (place (sb.offset % d.width) (sb.offset / d.width) d.width i) d.pixels)) [
      | inr t ↦ rw t (keeps (λ l e. ground (arith, q)) h)
      | inl t ↦
          elim (Bool-cases (j == place (sb.offset % d.width) (sb.offset / d.width) d.width i)) [
            | inl e ↦
                rw (t, e) (copied i (omega arith) (ground (arith, q)) (ground (arith, q)) refl)
            | inr e ↦ rw (t, e) (keeps (λ l c. ground (arith, q)) h)
          ]
    ]
  where
    q : place (sb.offset % d.width) (sb.offset / d.width) d.width i ≡ cell d.width sb.offset i
    q = place-cell d.width sb.offset i

    keeps :
        (j < d.pixels → cell d.width sb.offset i ≢ j)
        → Left d sb j i (fb j)
        → Left d sb j (suc i) (fb j)
    keeps n (copied k l e b p) = copied k (omega arith) e b p
    keeps n (left o p) =
        left
          (λ k l b c. elim (Bool-cases (k == i)) [
            | inl e ↦ n b (ap (cell d.width sb.offset) (sym ((beq_iff k i).0 e)) ∙ c)
            | inr e ↦ o k (ground arith) b c
          ])
          p

pub Left-restore_block :
    (sb : SavedBlock) (d : Decoder) (j : ℕ) → Left d sb j 64 ((restore_block sb d).framebuffer j)
unfolding restore_block
Left-restore_block sb d j =
    for_each-inv (λ i (fb : ℕ → Pixel). Left d sb j i (fb j)) 64 0 64 (restore_pixel sb d)
      d.framebuffer refl (λ i fb. Left-restore_pixel sb d j i fb)
      (left (λ k l. absurd (omega arith)) refl)

restore_pixel-same :
    (sb : SavedBlock) (d e : Decoder) (j i : ℕ) (u v : ℕ → Pixel)
    → SameScreen d e
    → u j ≡ v j
    → restore_pixel sb e i u j ≡ restore_pixel sb d i v j
restore_pixel-same sb d e j i u v s h =
    let w = d.width in
    let idx = place (sb.offset % w) (sb.offset / w) w i in
    rw (s.same_width, s.same_pixels)
      (elim (Bool-cases (ltb idx d.pixels)) [
        | inr t ↦ rw t h
        | inl t ↦ elim (Bool-cases (j == idx)) [ inl c ↦ rw (t, c) refl | inr c ↦ rw (t, c) h ]
      ])

-- Restoring does the same to a pixel whose value is the same.
pub restore_block-same :
    (sb : SavedBlock) (d e : Decoder) (j : ℕ)
    → SameScreen d e
    → e.framebuffer j ≡ d.framebuffer j
    → (restore_block sb e).framebuffer j ≡ (restore_block sb d).framebuffer j
unfolding restore_block
restore_block-same sb d e j s h =
    for_each-related (λ (u v : ℕ → Pixel). u j ≡ v j) 64 0 (restore_pixel sb e) (restore_pixel sb d)
      e.framebuffer d.framebuffer (λ i u v. restore_pixel-same sb d e j i u v s) h
