-- ===== src/Ikvm/Decoder/Undone.antt =====
-- internal/ikvm/decoder.go: after a block type that it does not decode, the code takes back the blocks
-- that the frame has drawn so far.
use kvm_switcher.Ikvm.Decoder.Restored.{
  left, Left-restore_block, copied, Left, restore_block-same, IsOutside, cell,
}
use kvm_switcher.Prelude.{
  sym, ap, ◌∙◌, true, nat_eq, zero, false, ◌==◌, not, ◌&&◌, ltb, ◌^◌, refl, arith, ◌/◌, suc, All,
  ◌++◌, ◌≢◌, ◌≡◌, [], ◌∷◌, ◌<◌, List, ℕ,
}
use kvm_switcher.Ikvm.Decoder.Drawing.{Within, next_offset}
use kvm_switcher.Ikvm.Decoder.Frame.{
  read_block, is_advance, SavedBlock, restore_blocks, restore_block,
}
use kvm_switcher.Ikvm.Decoder.Shape.{SameScreen}
use kvm_switcher.Ikvm.Decoder.State.{Pixel, Decoder}

-- Two blocks without a common pixel, and blocks of which no two have one.
abbrev pub IsApart : ℕ → ℕ → ℕ → Type 0
IsApart w o p = (k l : ℕ) → k < 64 → l < 64 → cell w o k ≢ cell w p l

abbrev pub AreApart : ℕ → List ℕ → Type 0
AreApart w [] = Unit {0}
AreApart w (o ∷ os) = All (IsApart w o) os × AreApart w os

-- The blocks that the loop draws, by the offsets of their first pixels.
unfoldable pub drawn_blocks : ℕ → ℕ → Decoder → List ℕ
drawn_blocks goal zero d = []
drawn_blocks goal (suc fuel) d =
    let kind = d.bits.reg0 / 2 ^ 28 in
    elim (ltb d.bits.index goal && not (is_advance kind) && not (kind == 9) && ltb kind 16) [
      | false ↦ []
      | true ↦ next_offset kind d ∷ drawn_blocks goal fuel (read_block kind d)
    ]

-- Restoring now would bring back the pixels `orig`.
abbrev pub Undoes : (ℕ → Pixel) → List SavedBlock → Decoder → Type 0
Undoes orig saved d = (j : ℕ) → (restore_blocks saved d).framebuffer j ≡ orig j

SameScreen-restore_block : (sb : SavedBlock) (d : Decoder) → SameScreen d (restore_block sb d)
unfolding restore_block
SameScreen-restore_block sb d = record {
  same_width = refl;
  same_height = refl;
  same_pixels = refl;
  same_mode = refl;
}

SameScreen-restore_blocks :
    (saved : List SavedBlock) (d : Decoder) → SameScreen d (restore_blocks saved d)
unfolding restore_blocks
SameScreen-restore_blocks [] d = ground arith
SameScreen-restore_blocks (sb ∷ saved) d =
    let a = SameScreen-restore_block sb d in
    let b = SameScreen-restore_blocks saved (restore_block sb d) in ground (arith, a, b)

restore_blocks-append :
    (saved : List SavedBlock) (sb : SavedBlock) (d : Decoder)
    → restore_blocks (saved ++ (sb ∷ [])) d ≡ restore_block sb (restore_blocks saved d)
unfolding restore_blocks
restore_blocks-append [] sb d = refl
restore_blocks-append (s ∷ saved) sb d = restore_blocks-append saved sb (restore_block s d)

-- Pixel by pixel, on screens of one size.
restore_blocks-same :
    (saved : List SavedBlock) (d e : Decoder) (j : ℕ)
    → SameScreen d e
    → e.framebuffer j ≡ d.framebuffer j
    → (restore_blocks saved e).framebuffer j ≡ (restore_blocks saved d).framebuffer j
unfolding restore_blocks
restore_blocks-same [] d e j s h = h
restore_blocks-same (sb ∷ saved) d e j s h =
    let a = SameScreen-restore_block sb d in
    let b = SameScreen-restore_block sb e in
    restore_blocks-same saved (restore_block sb d) (restore_block sb e) j (ground (arith, a, b, s))
      (restore_block-same sb d e j s h)

-- A pixel outside all saved blocks is left.
left-outside :
    (d : Decoder) (sb : SavedBlock) (j : ℕ) (p : Pixel)
    → Left d sb j 64 p
    → IsOutside d sb.offset j
    → p ≡ d.framebuffer j
left-outside d sb j p (copied k l e b q) o = absurd (o k l b e)
left-outside d sb j p (left n q) o = q

restore_blocks-outside :
    (saved : List SavedBlock) (d : Decoder) (j : ℕ)
    → All (λ sb. IsOutside d sb.offset j) saved
    → (restore_blocks saved d).framebuffer j ≡ d.framebuffer j
unfolding restore_blocks restore_block
restore_blocks-outside [] d j h = refl
restore_blocks-outside (sb ∷ saved) d j (o, os) =
    restore_blocks-outside saved (restore_block sb d) j os
    ∙ left-outside d sb j _ (Left-restore_block sb d j) o

-- A block that was saved before it was drawn.
pub record Saved (d : Decoder) (sb : SavedBlock) : Type 0 where
  pub holds :
      (k : ℕ)
      → k < 64
      → cell d.width sb.offset k < d.pixels
      → sb.pixels k ≡ d.framebuffer (cell d.width sb.offset k)

apart-IsOutside :
    (d : Decoder) (p k j : ℕ) (saved : List SavedBlock)
    → k < 64
    → cell d.width p k ≡ j
    → All (λ sb. IsApart d.width sb.offset p) saved
    → All (λ sb. IsOutside d sb.offset j) saved
apart-IsOutside d p k j [] l e h = tt
apart-IsOutside d p k j (sb ∷ saved) l e (h, hs) =
    (λ m n _ c. h m k n l (c ∙ sym e), apart-IsOutside d p k j saved l e hs)

undone_at :
    (orig : ℕ → Pixel) (saved : List SavedBlock) (sb : SavedBlock) (d e r : Decoder) (j : ℕ)
    (p : Pixel)
    → Saved d sb
    → Within sb.offset d e
    → All (λ s. IsApart d.width s.offset sb.offset) saved
    → Undoes orig saved d
    → r ≡ restore_blocks saved e
    → Left r sb j 64 p
    → p ≡ orig j
undone_at orig saved sb d e r j p s w a u q (copied k l c b v) =
    let z = SameScreen-restore_blocks saved e in
    let width : r.width ≡ d.width =
      ap (λ (x : Decoder). x.width) q ∙ z.same_width ∙ w.screen.same_width in
    let pixels : r.pixels ≡ d.pixels =
      ap (λ (x : Decoder). x.pixels) q ∙ z.same_pixels ∙ w.screen.same_pixels in
    let c' : cell d.width sb.offset k ≡ j = rw (← width) c in
    v
    ∙ s.holds k l (rw (c', ← pixels) b)
    ∙ ap d.framebuffer c'
    ∙ sym (restore_blocks-outside saved d j (apart-IsOutside d sb.offset k j saved l c' a))
    ∙ u j
undone_at orig saved sb d e r j p s w a u q (left n v) =
    let z = SameScreen-restore_blocks saved e in
    let width : r.width ≡ d.width =
      ap (λ (x : Decoder). x.width) q ∙ z.same_width ∙ w.screen.same_width in
    let pixels : r.pixels ≡ d.pixels =
      ap (λ (x : Decoder). x.pixels) q ∙ z.same_pixels ∙ w.screen.same_pixels in
    v
    ∙ ap (λ (x : Decoder). x.framebuffer j) q
    ∙ restore_blocks-same saved d e j w.screen
        (w.outside j (λ k l b c. n k l (rw pixels b) (rw width c)))
    ∙ u j

pub Undoes-step :
    (orig : ℕ → Pixel) (saved : List SavedBlock) (sb : SavedBlock) (d e : Decoder)
    → Saved d sb
    → Within sb.offset d e
    → All (λ s. IsApart d.width s.offset sb.offset) saved
    → Undoes orig saved d
    → Undoes orig (saved ++ (sb ∷ [])) e
Undoes-step orig saved sb d e s w a u j =
    ap (λ (x : Decoder). x.framebuffer j) (restore_blocks-append saved sb e)
    ∙ undone_at orig saved sb d e (restore_blocks saved e) j _ s w a u refl
        (Left-restore_block sb (restore_blocks saved e) j)
