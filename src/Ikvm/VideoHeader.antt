-- ===== src/Ikvm/VideoHeader.antt =====
-- internal/ikvm/protocol.go: the header at the start of a video frame.
use kvm_switcher.Prelude.{some, none, drop, take, length, ltb, if◌then◌else◌, Option, ℕ}
use kvm_switcher.Ikvm.Protocol.{video_header_size}
use kvm_switcher.Ikvm.Bytes.{r32, r8, r16, Bytes}

pub record VideoHeader : Type 0 where
  pub eng_version : ℕ
  pub header_len : ℕ
  pub src_x : ℕ
  pub src_y : ℕ
  pub src_color_depth : ℕ
  pub src_refresh_rate : ℕ
  pub src_mode_index : ℕ
  pub dst_x : ℕ
  pub dst_y : ℕ
  pub dst_color_depth : ℕ
  pub dst_refresh_rate : ℕ
  pub dst_mode_index : ℕ
  pub frame_start_code : ℕ
  pub frame_number : ℕ
  pub h_size : ℕ
  pub v_size : ℕ
  pub reserved : Bytes
  pub compression_mode : ℕ
  pub jpeg_scale_factor : ℕ
  pub jpeg_table_selector : ℕ
  pub jpeg_yuv_table_mapping : ℕ
  pub sharp_mode_selection : ℕ
  pub adv_table_selector : ℕ
  pub adv_scale_factor : ℕ
  pub number_of_mb : ℕ
  pub rc4_enable : ℕ
  pub rc4_reset : ℕ
  pub mode420 : ℕ
  pub down_scaling_method : ℕ
  pub diff_setting : ℕ
  pub analog_diff_thresh : ℕ
  pub digital_diff_thresh : ℕ
  pub ext_signal_enable : ℕ
  pub auto_mode : ℕ
  pub vq_mode : ℕ
  pub src_frame_size : ℕ
  pub compress_size : ℕ
  pub h_debug : ℕ
  pub v_debug : ℕ
  pub input_signal : ℕ
  pub cursor_x_pos : ℕ
  pub cursor_y_pos : ℕ

abbrev reserved_of : Bytes → Bytes × Bytes
reserved_of bs = (take 8 bs, drop 8 bs)

-- The fields one after the other; `reserved` is eight bytes.
unfoldable pub video_fields : Bytes → VideoHeader
video_fields bs0 =
    let (eng_version, bs1) = r16 bs0 in
    let (header_len, bs2) = r16 bs1 in
    let (src_x, bs3) = r16 bs2 in
    let (src_y, bs4) = r16 bs3 in
    let (src_color_depth, bs5) = r16 bs4 in
    let (src_refresh_rate, bs6) = r16 bs5 in
    let (src_mode_index, bs7) = r8 bs6 in
    let (dst_x, bs8) = r16 bs7 in
    let (dst_y, bs9) = r16 bs8 in
    let (dst_color_depth, bs10) = r16 bs9 in
    let (dst_refresh_rate, bs11) = r16 bs10 in
    let (dst_mode_index, bs12) = r8 bs11 in
    let (frame_start_code, bs13) = r32 bs12 in
    let (frame_number, bs14) = r32 bs13 in
    let (h_size, bs15) = r16 bs14 in
    let (v_size, bs16) = r16 bs15 in
    let (reserved, bs17) = reserved_of bs16 in
    let (compression_mode, bs18) = r8 bs17 in
    let (jpeg_scale_factor, bs19) = r8 bs18 in
    let (jpeg_table_selector, bs20) = r8 bs19 in
    let (jpeg_yuv_table_mapping, bs21) = r8 bs20 in
    let (sharp_mode_selection, bs22) = r8 bs21 in
    let (adv_table_selector, bs23) = r8 bs22 in
    let (adv_scale_factor, bs24) = r8 bs23 in
    let (number_of_mb, bs25) = r32 bs24 in
    let (rc4_enable, bs26) = r8 bs25 in
    let (rc4_reset, bs27) = r8 bs26 in
    let (mode420, bs28) = r8 bs27 in
    let (down_scaling_method, bs29) = r8 bs28 in
    let (diff_setting, bs30) = r8 bs29 in
    let (analog_diff_thresh, bs31) = r16 bs30 in
    let (digital_diff_thresh, bs32) = r16 bs31 in
    let (ext_signal_enable, bs33) = r8 bs32 in
    let (auto_mode, bs34) = r8 bs33 in
    let (vq_mode, bs35) = r8 bs34 in
    let (src_frame_size, bs36) = r32 bs35 in
    let (compress_size, bs37) = r32 bs36 in
    let (h_debug, bs38) = r32 bs37 in
    let (v_debug, bs39) = r32 bs38 in
    let (input_signal, bs40) = r8 bs39 in
    let (cursor_x_pos, bs41) = r16 bs40 in
    let (cursor_y_pos, bs42) = r16 bs41 in
    record {
      eng_version = eng_version;
      header_len = header_len;
      src_x = src_x;
      src_y = src_y;
      src_color_depth = src_color_depth;
      src_refresh_rate = src_refresh_rate;
      src_mode_index = src_mode_index;
      dst_x = dst_x;
      dst_y = dst_y;
      dst_color_depth = dst_color_depth;
      dst_refresh_rate = dst_refresh_rate;
      dst_mode_index = dst_mode_index;
      frame_start_code = frame_start_code;
      frame_number = frame_number;
      h_size = h_size;
      v_size = v_size;
      reserved = reserved;
      compression_mode = compression_mode;
      jpeg_scale_factor = jpeg_scale_factor;
      jpeg_table_selector = jpeg_table_selector;
      jpeg_yuv_table_mapping = jpeg_yuv_table_mapping;
      sharp_mode_selection = sharp_mode_selection;
      adv_table_selector = adv_table_selector;
      adv_scale_factor = adv_scale_factor;
      number_of_mb = number_of_mb;
      rc4_enable = rc4_enable;
      rc4_reset = rc4_reset;
      mode420 = mode420;
      down_scaling_method = down_scaling_method;
      diff_setting = diff_setting;
      analog_diff_thresh = analog_diff_thresh;
      digital_diff_thresh = digital_diff_thresh;
      ext_signal_enable = ext_signal_enable;
      auto_mode = auto_mode;
      vq_mode = vq_mode;
      src_frame_size = src_frame_size;
      compress_size = compress_size;
      h_debug = h_debug;
      v_debug = v_debug;
      input_signal = input_signal;
      cursor_x_pos = cursor_x_pos;
      cursor_y_pos = cursor_y_pos;
    }

unfoldable pub decode_aspeed_video_header : Bytes → Option VideoHeader
decode_aspeed_video_header bs =
    if ltb (length bs) video_header_size then none else some (video_fields bs)
