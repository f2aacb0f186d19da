-- ===== src/Ikvm/Decoder/State.antt =====
-- internal/ikvm/decoder.go: the decoder's state. The framebuffer is kept by the pixel (its four bytes) and
-- `previousYUV` by the triple: the code reads and writes them only at the first index of one, and tests
-- the last one against the length. Both are nil before the first frame, with length 0.
use kvm_switcher.Prelude.{[], ℤ, pos, ℕ}
use kvm_switcher.Ikvm.Decoder.Reader.{Reader}

pub record Pixel : Type 0 where
  pub blue : ℕ
  pub green : ℕ
  pub red : ℕ
  pub alpha : ℕ

pub record Yuv : Type 0 where
  pub y : ℤ
  pub cb : ℤ
  pub cr : ℤ

pub record Decoder : Type 0 where
  pub width : ℕ
  pub height : ℕ
  pub framebuffer : ℕ → Pixel
  pub pixels : ℕ
  pub real_width : ℕ
  pub real_height : ℕ
  pub padded_height : ℕ
  pub grid_width : ℕ
  pub grid_height : ℕ
  pub txb : ℕ
  pub tyb : ℕ
  pub mode420 : ℕ
  pub bits : Reader
  pub qt : ℕ → ℕ → ℤ
  pub dct_coeff : ℕ → ℤ
  pub yuv_tile : ℕ → ℤ
  pub dc_y : ℤ
  pub dc_cb : ℤ
  pub dc_cr : ℤ
  pub previous_yuv : ℕ → Yuv
  pub triples : ℕ
  pub vq_color : ℕ → ℕ
  pub vq_index : ℕ → ℕ
  pub vq_bitmap_bits : ℕ

abbrev pub black : Pixel
black = record { blue = 0; green = 0; red = 0; alpha = 0 }

abbrev pub no_yuv : Yuv
no_yuv = record { y = pos 0; cb = pos 0; cr = pos 0 }

-- `NewDecoder`: all zero; the tables are constants.
abbrev pub new_decoder : Decoder
new_decoder = record {
  width = 0;
  height = 0;
  framebuffer = λ _. black;
  pixels = 0;
  real_width = 0;
  real_height = 0;
  padded_height = 0;
  grid_width = 0;
  grid_height = 0;
  txb = 0;
  tyb = 0;
  mode420 = 0;
  bits = record { buf = []; reg0 = 0; reg1 = 0; newbits = 0; index = 0 };
  qt = λ _ _. pos 0;
  dct_coeff = λ _. pos 0;
  yuv_tile = λ _. pos 0;
  dc_y = pos 0;
  dc_cb = pos 0;
  dc_cr = pos 0;
  previous_yuv = λ _. no_yuv;
  triples = 0;
  vq_color = λ _. 0;
  vq_index = λ _. 0;
  vq_bitmap_bits = 0;
}
