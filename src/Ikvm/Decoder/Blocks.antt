-- ===== src/Ikvm/Decoder/Blocks.antt =====
-- internal/ikvm/decompress.go: the kinds of blocks, and the place of the next one.
use kvm_switcher.Ikvm.Decoder.Reader.{update_read_buf, skip_kbits, look_kbits}
use kvm_switcher.Prelude.{leb, ◌+◌, ◌^◌, nat_eq, negsuc, ◌%◌, ◌/◌, ◌==◌, pos, if◌then◌else◌, ℤ, ℕ}
use kvm_switcher.Ikvm.Decoder.Colors.{
  update_previous_yuv, convert_yuv_to_rgb, is_neutral_block, convert_yuv_to_rgb_pass2,
}
use kvm_switcher.Ikvm.Decoder.Idct.{inverse_dct}
use kvm_switcher.Ikvm.Decoder.Huffman.{decode_huffman_data_unit}
use kvm_switcher.Ikvm.Decoder.Loops.{assign, for_each}
use kvm_switcher.Ikvm.Decoder.State.{Decoder}

-- A block of 64 coefficients of luminance or chrominance, and its samples.
abbrev pub y_block : ℕ → ℕ → Decoder → Decoder
y_block offset qt_offset d =
    let (pred, e) = decode_huffman_data_unit 0 0 d.dc_y offset d in
    inverse_dct offset qt_offset (record e { dc_y = pred })

abbrev pub cb_block : ℕ → ℕ → Decoder → Decoder
cb_block offset qt_offset d =
    let (pred, e) = decode_huffman_data_unit 1 1 d.dc_cb offset d in
    inverse_dct offset (qt_offset + 1) (record e { dc_cb = pred })

abbrev pub cr_block : ℕ → ℕ → Decoder → Decoder
cr_block offset qt_offset d =
    let (pred, e) = decode_huffman_data_unit 1 1 d.dc_cr offset d in
    inverse_dct offset (qt_offset + 1) (record e { dc_cr = pred })

-- One block of each in the mode 4:4:4, and four of luminance in 4:2:0.
abbrev pub blocks_444 : ℕ → Decoder → Decoder
blocks_444 qt_offset d = cr_block 128 qt_offset (cb_block 64 qt_offset (y_block 0 qt_offset d))

abbrev pub blocks_420 : ℕ → Decoder → Decoder
blocks_420 qt_offset d =
    let ys =
      y_block 192 qt_offset
        (y_block 128 qt_offset (y_block 64 qt_offset (y_block 0 qt_offset d))) in
    cr_block 320 qt_offset (cb_block 256 qt_offset ys)

-- A neutral block is kept for the second pass and not shown; others are shown by `convert`.
abbrev pub shown : (Decoder → Decoder) → ℕ → ℕ → Decoder → Decoder
shown convert tile_x tile_y d =
    if is_neutral_block d then update_previous_yuv tile_x tile_y d else convert d

unfoldable pub decompress_jpeg : ℕ → ℕ → ℕ → Decoder → Decoder
decompress_jpeg tile_x tile_y qt_offset d =
    shown (convert_yuv_to_rgb tile_x tile_y) tile_x tile_y
      (if d.mode420 == 1 then blocks_420 qt_offset d else blocks_444 qt_offset d)

unfoldable pub decompress_jpeg_pass2 : ℕ → ℕ → ℕ → Decoder → Decoder
decompress_jpeg_pass2 tile_x tile_y qt_offset d =
    shown (convert_yuv_to_rgb_pass2 tile_x tile_y) tile_x tile_y (blocks_444 qt_offset d)

-- One colour of the header: an index into the cache, and perhaps a new colour for it.
abbrev pub vq_color_at : ℕ → Decoder → Decoder
vq_color_at i d =
    let cell = d.bits.reg0 / 2 ^ 29 % 4 in
    let indexed : Decoder = record d { vq_index = assign d.vq_index i cell } in
    if d.bits.reg0 / 2 ^ 31 % 2 == 0
    then record indexed { bits = update_read_buf 3 d.bits }
    else record indexed {
      vq_color = assign d.vq_color cell (d.bits.reg0 / 2 ^ 5 % 2 ^ 24);
      bits = update_read_buf 27 d.bits;
    }

unfoldable pub decode_vq_header : ℕ → Decoder → Decoder
decode_vq_header num_colors d = for_each num_colors 0 vq_color_at d

-- Sample `n` of a block gets a colour: luminance in the high byte.
abbrev pub vq_sample : ℕ → ℕ → (ℕ → ℤ) → ℕ → ℤ
vq_sample color n tile =
    let a = assign tile n (pos (color / 65_536 % 256)) in
    let b = assign a (n + 64) (pos (color / 256 % 256)) in assign b (n + 128) (pos (color % 256))

-- Which colour the next bits select; they are at most two, so the int16 is not negative.
abbrev pub selected : ℤ → ℕ
selected (pos n) = n
selected (negsuc n) = 0

abbrev pub vq_pixel : ℕ → Decoder → Decoder
vq_pixel n d =
    let sel = selected (look_kbits d.vq_bitmap_bits d.bits) in
    record d {
      yuv_tile = vq_sample (d.vq_color (d.vq_index sel)) n d.yuv_tile;
      bits = skip_kbits d.vq_bitmap_bits d.bits;
    }

abbrev pub vq_tile : Decoder → Decoder
vq_tile d =
    if d.vq_bitmap_bits == 0
    then record d { yuv_tile = for_each 64 0 (vq_sample (d.vq_color (d.vq_index 0))) d.yuv_tile }
    else for_each 64 0 vq_pixel d

unfoldable pub decompress_vq : ℕ → ℕ → Decoder → Decoder
decompress_vq tile_x tile_y d = shown (convert_yuv_to_rgb tile_x tile_y) tile_x tile_y (vq_tile d)

-- At least one block a row and a column.
abbrev pub at_least_one : ℕ → ℕ
at_least_one n = if n == 0 then 1 else n

unfoldable pub move_block_index : Decoder → Decoder
move_block_index d =
    let size = if d.mode420 == 0 then 8 else 16 in
    let next_x = d.txb + 1 in
    let next_y = d.tyb + 1 in
    if leb (at_least_one (d.grid_width / size)) next_x
    then record d {
      txb = 0;
      tyb = if leb (at_least_one (d.grid_height / size)) next_y then 0 else next_y;
    }
    else record d { txb = next_x }
