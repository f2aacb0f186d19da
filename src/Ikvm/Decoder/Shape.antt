-- ===== src/Ikvm/Decoder/Shape.antt =====
-- internal/ikvm/decompress.go: what decoding a block leaves as it is.
use kvm_switcher.Ikvm.Decoder.Loops.{for_until, for_each, for_each-keeps, for_until-keeps}
use kvm_switcher.Ikvm.Decoder.Colors.{
  refine_pixel, remember_pixel, convert_pixel, convert_pixel_420, max_row, max_col,
  is_neutral_block, paint, remember, convert_420, each_pixel, update_previous_yuv,
  convert_yuv_to_rgb_pass2, convert_yuv_to_rgb,
}
use kvm_switcher.Prelude.{
  ◌<◌, ◌||◌, ◌+◌, nat_eq, ◌*◌, inr, inl, leb, ◌==◌, ◌≡◌, Bool-cases, arith, ℕ,
}
use kvm_switcher.Ikvm.Decoder.State.{Yuv, Pixel, Decoder}
use kvm_switcher.Ikvm.Decoder.Blocks.{shown}

-- The screen and the mode are the same.
pub record SameScreen (d e : Decoder) : Type 0 where
  pub same_width : e.width ≡ d.width
  pub same_height : e.height ≡ d.height
  pub same_pixels : e.pixels ≡ d.pixels
  pub same_mode : e.mode420 ≡ d.mode420

-- And no bit is read.
pub record Drawn (d e : Decoder) : Type 0 where
  pub screen : SameScreen d e
  pub same_bits : e.bits ≡ d.bits

pub Drawn-refl : (d : Decoder) → Drawn d d
Drawn-refl d = ground arith

pub Drawn-paint : (d e : Decoder) (i : ℕ) (p : Pixel) → Drawn d e → Drawn d (paint i p e)
Drawn-paint d e i p h = ground arith

pub Drawn-remember : (d e : Decoder) (i : ℕ) (p : Yuv) → Drawn d e → Drawn d (remember i p e)
Drawn-remember d e i p h = ground arith

-- What every pixel keeps holds after a block.
pub each_pixel-keeps {κ} :
    (P : Decoder → Type κ) (cols w h tile_x tile_y : ℕ) (body : ℕ → ℕ → Decoder → Decoder)
    (d : Decoder)
    → ((row col : ℕ) (f : Decoder)
        → row < 8
        → col < cols
        → tile_x * 8 + col < w
        → P f
        → P (body row col f))
    → P d
    → P (each_pixel cols w h tile_x tile_y body d)
each_pixel-keeps P cols w h tile_x tile_y body d keep start =
    for_until-keeps P 8 0 (λ row. leb h (tile_y * 8 + row))
      (λ row. for_until cols 0 (λ col. leb w (tile_x * 8 + col)) (body row)) d
      (λ row f l _.
        for_until-keeps P cols 0 (λ col. leb w (tile_x * 8 + col)) (body row) f
          (λ col g m e. keep row col g (omega arith) (omega arith) (ground arith)))
      start

pub Drawn-update_previous_yuv :
    (tile_x tile_y : ℕ) (d : Decoder) → Drawn d (update_previous_yuv tile_x tile_y d)
unfolding update_previous_yuv
Drawn-update_previous_yuv tile_x tile_y d = elim (Bool-cases (d.mode420 == 0)) [
  | inl e ↦ rw e (
      each_pixel-keeps (Drawn d) 8 d.real_width d.real_height tile_x tile_y
        (remember_pixel d tile_x tile_y) d (λ row col f _ _ _ k. Drawn-remember d f _ _ k)
        (Drawn-refl d))
  | inr e ↦ rw e (Drawn-refl d)
]

Drawn-convert_pixel_420 :
    (d e : Decoder) (tile_x tile_y row col : ℕ)
    → Drawn d e
    → Drawn d (convert_pixel_420 d tile_x tile_y row col e)
Drawn-convert_pixel_420 d e tile_x tile_y row col h =
    elim (Bool-cases (leb d.height (tile_y * 16 + row) || leb d.width (tile_x * 16 + col))) [
      | inl c ↦ rw c h
      | inr c ↦ rw c (Drawn-paint d e _ _ h)
    ]

Drawn-convert_420 : (tile_x tile_y : ℕ) (d : Decoder) → Drawn d (convert_420 tile_x tile_y d)
Drawn-convert_420 tile_x tile_y d =
    for_each-keeps (Drawn d) (max_row d tile_y) 0
      (λ row. for_each 16 0 (convert_pixel_420 d tile_x tile_y row)) d
      (λ row f _.
        for_each-keeps (Drawn d) 16 0 (convert_pixel_420 d tile_x tile_y row) f
          (λ col g _. Drawn-convert_pixel_420 d g tile_x tile_y row col))
      (Drawn-refl d)

pub Drawn-convert_yuv_to_rgb :
    (tile_x tile_y : ℕ) (d : Decoder) → Drawn d (convert_yuv_to_rgb tile_x tile_y d)
unfolding convert_yuv_to_rgb
Drawn-convert_yuv_to_rgb tile_x tile_y d = elim (Bool-cases (d.mode420 == 0)) [
  | inl e ↦ rw e (
      each_pixel-keeps (Drawn d) (max_col d.width (tile_x * 8)) d.width d.height tile_x tile_y
        (convert_pixel d tile_x tile_y) d
        (λ row col f _ _ _ k.
          Drawn-paint d (remember_pixel d tile_x tile_y row col f) _ _ (Drawn-remember d f _ _ k))
        (Drawn-refl d))
  | inr e ↦ rw e (Drawn-convert_420 tile_x tile_y d)
]

pub Drawn-convert_yuv_to_rgb_pass2 :
    (tile_x tile_y : ℕ) (d : Decoder) → Drawn d (convert_yuv_to_rgb_pass2 tile_x tile_y d)
unfolding convert_yuv_to_rgb_pass2
Drawn-convert_yuv_to_rgb_pass2 tile_x tile_y d = elim (Bool-cases (d.mode420 == 0)) [
  | inl e ↦ rw e (
      each_pixel-keeps (Drawn d) (max_col d.width (tile_x * 8)) d.width d.height tile_x tile_y
        (refine_pixel d tile_x tile_y) d (λ row col f _ _ _ k. Drawn-paint d f _ _ k)
        (Drawn-refl d))
  | inr e ↦ rw e (Drawn-refl d)
]

pub Drawn-shown :
    (convert : Decoder → Decoder) (tile_x tile_y : ℕ) (d : Decoder)
    → Drawn d (convert d)
    → Drawn d (shown convert tile_x tile_y d)
Drawn-shown convert tile_x tile_y d h = elim (Bool-cases (is_neutral_block d)) [
  | inl e ↦ rw e (Drawn-update_previous_yuv tile_x tile_y d)
  | inr e ↦ rw e h
]
