-- ===== src/Ikvm/Decoder/Frame.antt =====
-- internal/ikvm/decoder.go: `Decode`, a compressed frame onto the framebuffer. A panic, which the code turns
-- into an error, does not occur in the model: the arrays are functions.
use kvm_switcher.Prelude.{
  ◌++◌, pos, true, length, false, ◌||◌, ◌+◌, ◌-◌, [], ◌^◌, nat_eq, ltb, ◌/◌, zero, ◌∷◌, not, ◌==◌,
  ◌*◌, ◌%◌, Bool, if◌then◌else◌, suc, List, ℕ,
}
use kvm_switcher.Ikvm.Decoder.State.{no_yuv, black, Pixel, Decoder}
use kvm_switcher.Ikvm.Decoder.Coded.{new_reader}
use kvm_switcher.Ikvm.Decoder.Loops.{assign, for_each}
use kvm_switcher.Ikvm.Decoder.Blocks.{
  decompress_jpeg_pass2, decompress_jpeg, decode_vq_header, move_block_index, decompress_vq,
}
use kvm_switcher.Ikvm.Decoder.Reader.{update_read_buf, make_int_array}
use kvm_switcher.Ikvm.Decoder.Quantization.{frame_qt}
use kvm_switcher.Ikvm.Bytes.{Bytes}
use kvm_switcher.Ikvm.VideoHeader.{VideoHeader}

pub data DecodeError : Type 0 where
  invalid_resolution : ℕ → ℕ → DecodeError
  too_short : ℕ → DecodeError
  advance_block : ℕ → DecodeError
  unknown_block : ℕ → DecodeError

-- How a call ends, with the decoder as it is then.
pub data Decoded : Type 0 where
  finished : Decoder → Decoded
  failed : DecodeError → Decoder → Decoded
  out_of_fuel : Decoded

-- A block of 8 by 8 pixels as it was before it was written; `offset` is the index of its first pixel.
pub record SavedBlock : Type 0 where
  pub offset : ℕ
  pub pixels : ℕ → Pixel

-- The index of pixel `k` of the 64 of a block, 8 to a row, in a screen of width `w`.
abbrev pub place : ℕ → ℕ → ℕ → ℕ → ℕ
place pix_x pix_y w k = (pix_y + k / 8) * w + pix_x + k % 8

-- The two loops over the rows and columns are one over the 64 pixels, in the same order.
abbrev pub save_pixel : ℕ → ℕ → Decoder → ℕ → (ℕ → Pixel) → ℕ → Pixel
save_pixel pix_x pix_y d k saved =
    let idx = place pix_x pix_y d.width k in
    if ltb idx d.pixels then assign saved k (d.framebuffer idx) else saved

unfoldable pub save_block : ℕ → ℕ → Decoder → SavedBlock
save_block tile_x tile_y d = record {
  offset = tile_y * 8 * d.width + tile_x * 8;
  pixels = for_each 64 0 (save_pixel (tile_x * 8) (tile_y * 8) d) (λ _. black);
}

abbrev pub restore_pixel : SavedBlock → Decoder → ℕ → (ℕ → Pixel) → ℕ → Pixel
restore_pixel sb d k fb =
    let idx = place (sb.offset % d.width) (sb.offset / d.width) d.width k in
    if ltb idx d.pixels then assign fb idx (sb.pixels k) else fb

unfoldable pub restore_block : SavedBlock → Decoder → Decoder
restore_block sb d = record d { framebuffer = for_each 64 0 (restore_pixel sb d) d.framebuffer }

-- In the order in which they were saved.
unfoldable pub restore_blocks : List SavedBlock → Decoder → Decoder
restore_blocks [] d = d
restore_blocks (sb ∷ saved) d = restore_blocks saved (restore_block sb d)

-- The types with bit 3 set name the block's place in the 16 bits that follow.
abbrev pub placed : ℕ → Decoder → Decoder
placed kind d =
    if ltb kind 8
    then d
    else record d { txb = d.bits.reg0 / 2 ^ 20 % 256; tyb = d.bits.reg0 / 2 ^ 12 % 256 }

abbrev pub header_bits : ℕ → ℕ
header_bits kind = if ltb kind 8 then 4 else 20

abbrev pub vq_block : ℕ → ℕ → Decoder → Decoder
vq_block bitmap_bits num_colors d =
    decompress_vq d.txb d.tyb
      (decode_vq_header num_colors (record d { vq_bitmap_bits = bitmap_bits }))

-- What a block does after its header, by the low three bits of its type; the odd ones below 4 are not blocks.
unfoldable pub decompress_block : ℕ → Decoder → Decoder
decompress_block kind d =
    if kind % 8 == 0
    then decompress_jpeg d.txb d.tyb 0 d
    else if kind % 8 == 2
    then decompress_jpeg_pass2 d.txb d.tyb 2 d
    else if kind % 8 == 4
    then decompress_jpeg d.txb d.tyb 2 d
    else if kind % 8 == 5
    then vq_block 0 1 d
    else if kind % 8 == 6
    then vq_block 1 2 d
    else vq_block 2 4 d

abbrev pub is_advance : ℕ → Bool
is_advance kind = kind == 1 || kind == 3 || kind == 11

-- One block: its place, a copy of what is there, its header, its contents, the place of the next one.
abbrev pub read_block : ℕ → Decoder → Decoder
read_block kind d =
    let at = placed kind d in
    move_block_index
      (decompress_block kind (record at { bits = update_read_buf (header_bits kind) at.bits }))

abbrev pub saved_before : ℕ → Decoder → SavedBlock
saved_before kind d = let at = placed kind d in save_block at.txb at.tyb at

-- The loop over the blocks; `fuel` bounds its rounds. The type has four bits, so there is no unknown one.
unfoldable pub decode_blocks : ℕ → ℕ → List SavedBlock → Decoder → Decoded
decode_blocks compress_words zero saved d = out_of_fuel
decode_blocks compress_words (suc fuel) saved d =
    let kind = d.bits.reg0 / 2 ^ 28 in
    elim (ltb d.bits.index compress_words) [
      | false ↦ finished d
      | true ↦ elim (is_advance kind) [
        | true ↦ failed (advance_block kind) (restore_blocks saved d)
        | false ↦ elim (kind == 9) [
          | true ↦ finished d
          | false ↦ elim (ltb kind 16) [
            | true ↦
                decode_blocks compress_words fuel (saved ++ (saved_before kind d ∷ []))
                  (read_block kind d)
            | false ↦ failed (unknown_block kind) d
          ]
        ]
      ]
    ]

-- A length rounded up to whole blocks.
abbrev pub rounded : ℕ → ℕ → ℕ
rounded n size = if n % size == 0 then n else n + size - n % size

abbrev pub block_size : ℕ → ℕ
block_size mode420 = if mode420 == 1 then 16 else 8

-- A new size has a new framebuffer.
abbrev pub resized : ℕ → ℕ → Decoder → Decoder
resized w h d =
    if not (d.width == w) || not (d.height == h) || d.pixels == 0
    then record d {
      width = w;
      height = h;
      framebuffer = λ _. black;
      pixels = w * h;
      previous_yuv = λ _. no_yuv;
      triples = w * h;
    }
    else d

abbrev pub vq_start : ℕ → ℕ
vq_start zero = 0x0080_80
vq_start (suc zero) = 0xff80_80
vq_start (suc (suc zero)) = 0x8080_80
vq_start (suc (suc (suc n))) = 0xc080_80

-- The sizes, the caches and the tables of a frame, and its words.
unfoldable pub configured : (ℕ → ℕ → ℕ → ℕ) → VideoHeader → List ℕ → Decoder → Decoder
configured aan h words d =
    let size = block_size h.mode420 in
    let src_w = if h.src_x == 0 then h.dst_x else h.src_x in
    let src_h = if h.src_y == 0 then h.dst_y else h.src_y in
    record (resized h.dst_x h.dst_y d) {
      mode420 = h.mode420;
      real_width = src_w;
      real_height = src_h;
      padded_height = rounded src_h size;
      grid_width = rounded h.dst_x size;
      grid_height = rounded h.dst_y size;
      vq_index = λ i. i;
      vq_color = vq_start;
      qt = frame_qt aan h.jpeg_table_selector h.adv_table_selector h.jpeg_yuv_table_mapping;
      bits = record d.bits { buf = words };
    }

-- The reader at the first word, the first block and no prediction.
abbrev pub seeded : Decoder → Decoder
seeded d = record d {
  bits = new_reader d.bits.buf;
  txb = 0;
  tyb = 0;
  dc_y = pos 0;
  dc_cb = pos 0;
  dc_cr = pos 0;
}

unfoldable pub decode : (ℕ → ℕ → ℕ → ℕ) → ℕ → VideoHeader → Bytes → Decoder → Decoded
decode aan fuel h compressed_data d =
    let words = make_int_array compressed_data in
    let set = configured aan h words d in
    if h.dst_x == 0 || h.dst_y == 0
    then failed (invalid_resolution h.dst_x h.dst_y) d
    else if ltb (length words) 3
    then failed (too_short (length words)) set
    else decode_blocks (h.compress_size / 4) fuel [] (seeded set)
