-- ===== src/Ikvm/Decoder/Colors.antt =====
-- internal/ikvm/decompress.go: blocks of samples become pixels of the framebuffer.
use kvm_switcher.Ikvm.Decoder.Tables.{cr_to_r, cr_to_g, cb_to_g, cb_to_b, range_limit, y_table}
use kvm_switcher.Prelude.{
  zero, ◌||◌, suc, ◌&&◌, negsuc, leb, ◌%◌, ◌-◌, nat_eq, ◌-ℤ◌, true, ◌+ℤ◌, pos, ◌+◌, ◌*◌, ◌/◌, ltb,
  Bool, ◌==◌, if◌then◌else◌, ℤ, ℕ,
}
use kvm_switcher.Ikvm.Decoder.Idct.{is_zero}
use kvm_switcher.Ikvm.Decoder.Loops.{assign, for_each, for_until}
use kvm_switcher.Ikvm.Decoder.State.{no_yuv, Pixel, Yuv, Decoder}

-- `isNeutralBlock`: all the samples are 128.
abbrev pub all_neutral : (ℕ → ℤ) → ℕ → Bool
all_neutral tile zero = true
all_neutral tile (suc n) = is_zero (tile n -ℤ pos 128) && all_neutral tile n

unfoldable pub is_neutral_block : Decoder → Bool
is_neutral_block d = all_neutral d.yuv_tile (if d.mode420 == 1 then 384 else 192)

-- `if v < 0 { v = 0 } else if v > 255 { v = 255 }`
abbrev pub clamped : ℤ → ℕ
clamped (pos v) = if ltb 255 v then 255 else v
clamped (negsuc v) = 0

-- `if b >= 0 { b += 256 } else { b = 0 }`, then the table of limits, cut to a byte.
abbrev pub channel : ℤ → ℕ
channel (pos b) = range_limit (b + 256) % 256
channel (negsuc b) = range_limit 0 % 256

unfoldable pub pixel_of : Yuv → Pixel
pixel_of p =
    let y = y_table (clamped p.y) in
    let cb = clamped p.cb in
    let cr = clamped p.cr in
    record {
      blue = channel (y +ℤ cb_to_b cb);
      green = channel ((y +ℤ cb_to_g cb) +ℤ cr_to_g cr);
      red = channel (y +ℤ cr_to_r cr);
      alpha = 255;
    }

-- A write to the framebuffer, and one to `previousYUV`, with the tests of the length.
abbrev pub paint : ℕ → Pixel → Decoder → Decoder
paint i p d = if ltb i d.pixels then record d { framebuffer = assign d.framebuffer i p } else d

abbrev pub remember : ℕ → Yuv → Decoder → Decoder
remember i p d =
    if ltb i d.triples then record d { previous_yuv = assign d.previous_yuv i p } else d

-- The samples of a place in a block of 64 in the mode 4:4:4.
abbrev pub tile_yuv : Decoder → ℕ → Yuv
tile_yuv d i = record { y = d.yuv_tile i; cb = d.yuv_tile (64 + i); cr = d.yuv_tile (128 + i) }

-- The loops over the pixels of a block of 8 by 8, which end at the edges of a screen of the given size;
-- `cols` is at most 8.
abbrev pub each_pixel : ℕ → ℕ → ℕ → ℕ → ℕ → (ℕ → ℕ → Decoder → Decoder) → Decoder → Decoder
each_pixel cols w h tile_x tile_y body d =
    for_until 8 0 (λ row. leb h (tile_y * 8 + row))
      (λ row. for_until cols 0 (λ col. leb w (tile_x * 8 + col)) (body row)) d

-- `updatePreviousYUV`
abbrev pub remember_pixel : Decoder → ℕ → ℕ → ℕ → ℕ → Decoder → Decoder
remember_pixel d tile_x tile_y row col e =
    remember ((tile_y * 8 + row) * d.real_width + (tile_x * 8 + col)) (tile_yuv d (row * 8 + col)) e

unfoldable pub update_previous_yuv : ℕ → ℕ → Decoder → Decoder
update_previous_yuv tile_x tile_y d =
    if d.mode420 == 0
    then each_pixel 8 d.real_width d.real_height tile_x tile_y (remember_pixel d tile_x tile_y) d
    else d

-- `maxCol`: what is left of the line, if it is less than a block.
abbrev pub max_col : ℕ → ℕ → ℕ
max_col fb_w pix_x = if ltb (fb_w - pix_x) 8 && ltb 0 (fb_w - pix_x) then fb_w - pix_x else 8

-- The body in the mode 4:4:4: the samples are kept for the second pass.
abbrev pub convert_pixel : Decoder → ℕ → ℕ → ℕ → ℕ → Decoder → Decoder
convert_pixel d tile_x tile_y row col e =
    paint ((tile_y * 8 + row) * d.width + (tile_x * 8 + col))
      (pixel_of (tile_yuv d (row * 8 + col))) (remember_pixel d tile_x tile_y row col e)

-- The samples of a place in a block of 256 in the mode 4:2:0: `blk` of four blocks of luminance, read one
-- after the other within each, and one sample of chrominance for four pixels.
abbrev pub tile420_yuv : Decoder → ℕ → ℕ → Yuv
tile420_yuv d row col =
    let blk = row / 8 * 2 + col / 8 in
    let chroma = row / 2 * 8 + col / 2 in
    record {
      y = d.yuv_tile (blk * 64 + (row % 8 * 8 + col % 8));
      cb = d.yuv_tile (256 + chroma);
      cr = d.yuv_tile (320 + chroma);
    }

-- The last row of macroblocks of a screen 600 pixels high is half a block.
abbrev pub max_row : Decoder → ℕ → ℕ
max_row d tile_y = if d.padded_height == 608 && tile_y == 37 then 8 else 16

abbrev pub convert_pixel_420 : Decoder → ℕ → ℕ → ℕ → ℕ → Decoder → Decoder
convert_pixel_420 d tile_x tile_y row col e =
    if leb d.height (tile_y * 16 + row) || leb d.width (tile_x * 16 + col)
    then e
    else paint ((tile_y * 16 + row) * d.width + (tile_x * 16 + col))
        (pixel_of (tile420_yuv d row col)) e

abbrev pub convert_420 : ℕ → ℕ → Decoder → Decoder
convert_420 tile_x tile_y d =
    for_each (max_row d tile_y) 0 (λ row. for_each 16 0 (convert_pixel_420 d tile_x tile_y row)) d

unfoldable pub convert_yuv_to_rgb : ℕ → ℕ → Decoder → Decoder
convert_yuv_to_rgb tile_x tile_y d =
    if d.mode420 == 0
    then each_pixel (max_col d.width (tile_x * 8)) d.width d.height tile_x tile_y
        (convert_pixel d tile_x tile_y) d
    else convert_420 tile_x tile_y d

-- The second pass adds the difference from 128 to the sample kept before; the samples are not kept again.
abbrev pub plus_sample : ℤ → ℤ → ℤ
plus_sample before now = before +ℤ (now -ℤ pos 128)

abbrev pub refined : Decoder → ℕ → ℕ → Yuv
refined d i tile_idx =
    let before = d.previous_yuv i in
    let now = tile_yuv d tile_idx in
    if ltb i d.triples
    then record {
      y = plus_sample before.y now.y;
      cb = plus_sample before.cb now.cb;
      cr = plus_sample before.cr now.cr;
    }
    else no_yuv

abbrev pub refine_pixel : Decoder → ℕ → ℕ → ℕ → ℕ → Decoder → Decoder
refine_pixel d tile_x tile_y row col e =
    let i = (tile_y * 8 + row) * d.real_width + (tile_x * 8 + col) in
    paint ((tile_y * 8 + row) * d.width + (tile_x * 8 + col))
      (pixel_of (refined d i (row * 8 + col))) e

unfoldable pub convert_yuv_to_rgb_pass2 : ℕ → ℕ → Decoder → Decoder
convert_yuv_to_rgb_pass2 tile_x tile_y d =
    if d.mode420 == 0
    then each_pixel (max_col d.width (tile_x * 8)) d.width d.height tile_x tile_y
        (refine_pixel d tile_x tile_y) d
    else d
