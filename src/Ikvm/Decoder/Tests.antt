-- ===== src/Ikvm/Decoder/Tests.antt =====
-- The theorems on the decoder at concrete inputs, and frames that are decoded.
use kvm_switcher.Ikvm.Decoder.Reader.{look_kbits, skip_kbits, update_read_buf}
use kvm_switcher.Ikvm.Decoder.Frame.{
  restore_block, restore_blocks, save_block, decompress_block, failed, decode_blocks, out_of_fuel,
  configured, finished, Decoded, decode,
}
use kvm_switcher.Ikvm.Decoder.Clamped.{pixel_of-clamped}
use kvm_switcher.Prelude.{◌+ℤ◌, negsuc, pos, refl, arith, ◌≡◌, [], ◌∷◌, ◌≢◌, List, ℕ}
use kvm_switcher.Ikvm.Decoder.Colors.{clamped, pixel_of, convert_yuv_to_rgb, is_neutral_block}
use kvm_switcher.Ikvm.Decoder.TakenBack.{decode-taken_back}
use kvm_switcher.Ikvm.Decoder.State.{black, new_decoder, Decoder}
use kvm_switcher.Ikvm.Decoder.Undone.{drawn_blocks}
use kvm_switcher.Ikvm.Decoder.Blocks.{move_block_index, decode_vq_header, decompress_vq}
use kvm_switcher.Ikvm.Decoder.Tables.{cr_to_g, cr_to_r, cb_to_g, cb_to_b, y_table, range_limit}
use kvm_switcher.Ikvm.Decoder.Coded.{
  At-new_reader, read_numbers-field, numbers_at, new_reader, read_numbers,
}
use kvm_switcher.Ikvm.Decoder.Ends.{decode-Ends}
use kvm_switcher.Ikvm.VideoHeader.{VideoHeader}
use kvm_switcher.Ikvm.Bytes.{Bytes}

abbrev two_words : List ℕ
two_words = 0x1234_5678 ∷ 0x9abc_def0 ∷ []

abbrev widths : List ℕ
widths = 4 ∷ 12 ∷ 15 ∷ 0 ∷ 9 ∷ 15 ∷ 15 ∷ []

read_numbers-field_example :
    read_numbers widths (new_reader two_words) ≡ numbers_at two_words 0 widths
read_numbers-field_example =
    read_numbers-field two_words 0 widths (new_reader two_words) (omega arith, (omega arith, tt))
      (
        omega arith,
        (
          omega arith,
          (omega arith, (omega arith, (omega arith, (omega arith, (omega arith, tt))))),
        ),
      )
      (At-new_reader two_words (omega arith, (omega arith, tt)) (omega arith))

-- A frame of 8 by 8 pixels in 12 bytes.
abbrev small_header : VideoHeader
small_header = record {
  eng_version = 0;
  header_len = 0;
  src_x = 8;
  src_y = 8;
  src_color_depth = 0;
  src_refresh_rate = 0;
  src_mode_index = 0;
  dst_x = 8;
  dst_y = 8;
  dst_color_depth = 0;
  dst_refresh_rate = 0;
  dst_mode_index = 0;
  frame_start_code = 0;
  frame_number = 0;
  h_size = 0;
  v_size = 0;
  reserved = [];
  compression_mode = 0;
  jpeg_scale_factor = 0;
  jpeg_table_selector = 0;
  jpeg_yuv_table_mapping = 0;
  sharp_mode_selection = 0;
  adv_table_selector = 0;
  adv_scale_factor = 0;
  number_of_mb = 0;
  rc4_enable = 0;
  rc4_reset = 0;
  mode420 = 0;
  down_scaling_method = 0;
  diff_setting = 0;
  analog_diff_thresh = 0;
  digital_diff_thresh = 0;
  ext_signal_enable = 0;
  auto_mode = 0;
  vq_mode = 0;
  src_frame_size = 0;
  compress_size = 12;
  h_debug = 0;
  v_debug = 0;
  input_signal = 0;
  cursor_x_pos = 0;
  cursor_y_pos = 0;
}

abbrev no_scale : ℕ → ℕ → ℕ → ℕ
no_scale q row col = q

abbrev small_screen : Decoder
small_screen = record new_decoder { width = 8; height = 8; pixels = 64 }

-- One block of one colour and the end of the frame; the same before a block of type 1.
abbrev one_block : Bytes
one_block = 0 ∷ 0 ∷ 0x20 ∷ 0x51 ∷ 0 ∷ 0 ∷ 0 ∷ 0 ∷ 0 ∷ 0 ∷ 0 ∷ 0 ∷ []

abbrev cut_short : Bytes
cut_short = 0 ∷ 0 ∷ 0x20 ∷ 0x50 ∷ 0 ∷ 0 ∷ 0 ∷ 0 ∷ 0 ∷ 0 ∷ 0 ∷ 0 ∷ []

decode-Ends_example : decode no_scale 25 small_header one_block small_screen ≢ out_of_fuel
decode-Ends_example =
    decode-Ends no_scale 25 small_header one_block small_screen (omega arith) (omega arith)

abbrev ended : Decoded → Decoder
ended (finished d) = d
ended (failed e d) = d
ended out_of_fuel = new_decoder

one_block_pixel :
    (ended (decode no_scale 25 small_header one_block small_screen)).framebuffer 9
    ≡ record { blue = 0; green = 0; red = 0; alpha = 255 }
unfolding decode configured decode_blocks decompress_block decompress_vq decode_vq_header
    update_read_buf new_reader is_neutral_block convert_yuv_to_rgb pixel_of range_limit y_table
    cb_to_b cb_to_g cr_to_r cr_to_g move_block_index
one_block_pixel = refl

-- The block that is drawn before the end is taken back.
decode-taken_back_example :
    (ended (decode no_scale 25 small_header cut_short small_screen)).framebuffer 9 ≡ black
unfolding decode configured decode_blocks drawn_blocks decompress_block decompress_vq
    decode_vq_header update_read_buf new_reader move_block_index is_neutral_block convert_yuv_to_rgb
decode-taken_back_example =
    decode-taken_back no_scale 25 1 small_header cut_short small_screen
      (ended (decode no_scale 25 small_header cut_short small_screen)) refl refl refl (omega arith)
      (tt, tt) refl 9

pixel_of-clamped_example :
    ((pixel_of (record { y = pos 300; cb = negsuc 4; cr = pos 90 })).blue
      ≡ clamped (y_table 255 +ℤ cb_to_b 0))
    × ((pixel_of (record { y = pos 300; cb = negsuc 4; cr = pos 90 })).green
        ≡ clamped ((y_table 255 +ℤ cb_to_g 0) +ℤ cr_to_g 90))
    × ((pixel_of (record { y = pos 300; cb = negsuc 4; cr = pos 90 })).red
        ≡ clamped (y_table 255 +ℤ cr_to_r 90))
pixel_of-clamped_example = pixel_of-clamped (record { y = pos 300; cb = negsuc 4; cr = pos 90 })

-- A frame that draws the same place twice: what comes back is what was there between.
abbrev drawn_twice : Bytes
drawn_twice = 0 ∷ 0x40 ∷ 0xa0 ∷ 0x50 ∷ 0 ∷ 0 ∷ 0 ∷ 0 ∷ 0 ∷ 0 ∷ 0 ∷ 0 ∷ []

between_comes_back :
    (ended (decode no_scale 25 small_header drawn_twice small_screen)).framebuffer 9
    ≡ record { blue = 0; green = 0; red = 0; alpha = 255 }
unfolding decode configured decode_blocks decompress_block decompress_vq decode_vq_header
    update_read_buf new_reader is_neutral_block convert_yuv_to_rgb pixel_of range_limit y_table
    cb_to_b cb_to_g cr_to_r cr_to_g move_block_index save_block restore_blocks restore_block
between_comes_back = refl

-- A frame of three words whose header says four: the last word is read again and again, as a block of four
-- colours each time, beyond the 33 rounds that a whole frame takes at most.
abbrev three_words : Bytes
three_words = 0 ∷ 0x70 ∷ 0 ∷ 0x70 ∷ 0 ∷ 0x70 ∷ 0 ∷ 0x70 ∷ 0 ∷ 0x70 ∷ 0 ∷ 0x70 ∷ []

short_frame_goes_on :
    decode no_scale 34 (record small_header { compress_size = 16 }) three_words small_screen
    ≡ out_of_fuel
unfolding decode configured decode_blocks decompress_block decompress_vq decode_vq_header
    update_read_buf new_reader move_block_index is_neutral_block convert_yuv_to_rgb skip_kbits
    look_kbits
short_frame_goes_on = refl
