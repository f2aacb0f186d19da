-- ===== src/Ikvm/Decoder/Parsing.antt =====
-- internal/ikvm/decompress.go: decoding a block reads on in the frame and leaves the screen to the conversion.
use kvm_switcher.Ikvm.Decoder.Loops.{assign, for_each-keeps}
use kvm_switcher.Ikvm.Decoder.Lengths.{decode_symbol-small, ht_dc-len, ht_ac-len}
use kvm_switcher.Prelude.{
  ◌^◌, ℤ, nat_eq, zero, ◌+◌, ◌/◌, ◌==◌, inl, inr, ltb, Bool-cases, ◌%◌, suc, refl, ◌≡◌, ◌∙◌, arith,
  ◌<◌, ◌≤◌, ℕ,
}
use kvm_switcher.Ikvm.Decoder.Progress.{
  Read-update_read_buf, Read-fewer, Read-skip_kbits, Read-get_kbits, Read-decode_symbol, Read,
}
use kvm_switcher.Ikvm.Decoder.Tables.{ht_dc, ht_ac}
use kvm_switcher.Ikvm.Decoder.Huffman.{
  decode_dc, decode_huffman_data_unit, decode_symbol, DataUnit, decode_ac,
}
use kvm_switcher.Ikvm.Decoder.Reader.{update_read_buf, get_kbits}
use kvm_switcher.Ikvm.Decoder.Blocks.{
  cr_block, vq_color_at, vq_tile, blocks_420, blocks_444, vq_pixel, y_block, cb_block,
  decode_vq_header,
}
use kvm_switcher.Ikvm.Decoder.Idct.{inverse_dct}
use kvm_switcher.Ikvm.Decoder.Shape.{SameScreen}
use kvm_switcher.Ikvm.Decoder.State.{Decoder}

module _ (goal size : ℕ) (short : goal ≤ size) (some_words : 0 < size) where
  -- From `d` to `e` the pixels are the same, and no bit is given back.
  pub record Parsed (d e : Decoder) : Type 0 where
    pub screen : SameScreen d e
    pub same_framebuffer : e.framebuffer ≡ d.framebuffer
    pub reads : (b : ℕ) → Read goal size b d.bits → Read goal size b e.bits

  Parsed-refl : (d : Decoder) → Parsed d d
  Parsed-refl d = record { screen = ground arith; same_framebuffer = refl; reads = λ b h. h }

  pub Parsed-trans : (d e f : Decoder) → Parsed d e → Parsed e f → Parsed d f
  Parsed-trans d e f g h = record {
    screen = ground (arith, g.screen, h.screen);
    same_framebuffer = h.same_framebuffer ∙ g.same_framebuffer;
    reads = λ b r. h.reads b (g.reads b r);
  }

  decode_ac-reads :
      (n offset rounds k b : ℕ) (u : DataUnit)
      → Read goal size b u.bits
      → Read goal size b (decode_ac (ht_ac n) offset rounds k u).bits
  unfolding decode_ac
  decode_ac-reads n offset zero k b u h = h
  decode_ac-reads n offset (suc rounds) k b u h =
      let (sym, bits) = decode_symbol (ht_ac n) u.bits in
      let r = Read-decode_symbol goal size short some_words b (ht_ac n) u.bits (ht_ac-len n) h in
      let (value, after) = get_kbits (sym % 16) bits in
      let g = Read-get_kbits goal size short some_words b (sym % 16) bits (omega arith) r in
      elim (Bool-cases (ltb k 64)) [
        | inr e ↦ rw (decode_ac, e) h
        | inl e ↦ elim (Bool-cases (sym % 16 == 0)) [
          | inl z ↦ elim (Bool-cases (sym / 16 % 16 == 15)) [
            | inr t ↦ rw (decode_ac, e, z, t) r
            | inl t ↦ rw (decode_ac, e, z, t) (decode_ac-reads n offset rounds (k + 16) b _ r)
          ]
          | inr z ↦ elim (Bool-cases (ltb (k + sym / 16 % 16) 64)) [
            | inl t ↦ rw (decode_ac, e, z, t) (decode_ac-reads n offset rounds _ b _ g)
            | inr t ↦ rw (decode_ac, e, z, t) (decode_ac-reads n offset rounds _ b _ r)
          ]
        ]
      ]

  decode_dc-reads :
      (n offset b : ℕ) (pred : ℤ) (u : DataUnit)
      → Read goal size b u.bits
      → Read goal size b (decode_dc (ht_dc n) pred offset u).1.bits
  decode_dc-reads n offset b pred u h =
      let (category, bits) = decode_symbol (ht_dc n) u.bits in
      let r = Read-decode_symbol goal size short some_words b (ht_dc n) u.bits (ht_dc-len n) h in
      let c : category ≤ 32 = omega (arith, decode_symbol-small n u.bits) in
      elim (Bool-cases (category == 0)) [
        | inl e ↦ rw (decode_dc, e) r
        | inr e ↦ rw (decode_dc, e) (Read-get_kbits goal size short some_words b category bits c r)
      ]

  Parsed-data_unit :
      (n m : ℕ) (pred : ℤ) (offset : ℕ) (d : Decoder)
      → Parsed d (decode_huffman_data_unit n m pred offset d).1
  unfolding decode_huffman_data_unit
  Parsed-data_unit n m pred offset d = record {
    screen = ground arith;
    same_framebuffer = refl;
    reads = λ b h. decode_ac-reads m offset 64 1 b _ (decode_dc-reads n offset b pred _ h);
  }

  Parsed-inverse_dct : (offset qt_idx : ℕ) (d : Decoder) → Parsed d (inverse_dct offset qt_idx d)
  unfolding inverse_dct
  Parsed-inverse_dct offset qt_idx d = record {
    screen = ground arith;
    same_framebuffer = refl;
    reads = λ b h. h;
  }

  -- Nothing but what a step reads and shows counts.
  Parsed-then_same :
      (d e f : Decoder)
      → Parsed d e
      → SameScreen e f
      → f.framebuffer ≡ e.framebuffer
      → f.bits ≡ e.bits
      → Parsed d f
  Parsed-then_same d e f h s b r = record {
    screen = ground (arith, h.screen);
    same_framebuffer = b ∙ h.same_framebuffer;
    reads = λ n u. rw r (h.reads n u);
  }

  -- A block of coefficients, of luminance or chrominance.
  Parsed-y_block : (offset qt_offset : ℕ) (d : Decoder) → Parsed d (y_block offset qt_offset d)
  Parsed-y_block offset qt_offset d =
      let p = decode_huffman_data_unit 0 0 d.dc_y offset d in
      let e : Decoder = record p.1 { dc_y = p.0 } in
      let u =
        Parsed-then_same d p.1 e (Parsed-data_unit 0 0 d.dc_y offset d) (ground arith) refl refl in
      Parsed-trans d e _ u (Parsed-inverse_dct offset qt_offset e)

  Parsed-cb_block : (offset qt_offset : ℕ) (d : Decoder) → Parsed d (cb_block offset qt_offset d)
  Parsed-cb_block offset qt_offset d =
      let p = decode_huffman_data_unit 1 1 d.dc_cb offset d in
      let e : Decoder = record p.1 { dc_cb = p.0 } in
      let u =
        Parsed-then_same d p.1 e (Parsed-data_unit 1 1 d.dc_cb offset d) (ground arith) refl refl in
      Parsed-trans d e _ u (Parsed-inverse_dct offset (qt_offset + 1) e)

  Parsed-cr_block : (offset qt_offset : ℕ) (d : Decoder) → Parsed d (cr_block offset qt_offset d)
  Parsed-cr_block offset qt_offset d =
      let p = decode_huffman_data_unit 1 1 d.dc_cr offset d in
      let e : Decoder = record p.1 { dc_cr = p.0 } in
      let u =
        Parsed-then_same d p.1 e (Parsed-data_unit 1 1 d.dc_cr offset d) (ground arith) refl refl in
      Parsed-trans d e _ u (Parsed-inverse_dct offset (qt_offset + 1) e)

  pub Parsed-blocks_444 : (qt_offset : ℕ) (d : Decoder) → Parsed d (blocks_444 qt_offset d)
  Parsed-blocks_444 q d =
      let a = y_block 0 q d in
      let b = cb_block 64 q a in
      Parsed-trans d b _ (Parsed-trans d a b (Parsed-y_block 0 q d) (Parsed-cb_block 64 q a))
        (Parsed-cr_block 128 q b)

  pub Parsed-blocks_420 : (qt_offset : ℕ) (d : Decoder) → Parsed d (blocks_420 qt_offset d)
  Parsed-blocks_420 q d =
      let a = y_block 0 q d in
      let b = y_block 64 q a in
      let c = y_block 128 q b in
      let e = y_block 192 q c in
      let f = cb_block 256 q e in
      let ab = Parsed-trans d a b (Parsed-y_block 0 q d) (Parsed-y_block 64 q a) in
      let ac = Parsed-trans d b c ab (Parsed-y_block 128 q b) in
      let ae = Parsed-trans d c e ac (Parsed-y_block 192 q c) in
      let af = Parsed-trans d e f ae (Parsed-cb_block 256 q e) in
      Parsed-trans d f _ af (Parsed-cr_block 320 q f)

  -- The colours of a block of few colours, and its bitmap.
  Parsed-vq_color_at : (d e : Decoder) (i : ℕ) → Parsed d e → Parsed d (vq_color_at i e)
  Parsed-vq_color_at d e i h = elim (Bool-cases (e.bits.reg0 / 2 ^ 31 % 2 == 0)) [
    | inl c ↦ rw c (
        reading 3
          (record e {
            vq_index = assign e.vq_index i (e.bits.reg0 / 2 ^ 29 % 4);
            bits = update_read_buf 3 e.bits;
          })
          (omega arith) (ground arith) refl refl)
    | inr c ↦ rw c (
        reading 27
          (record e {
            vq_index = assign e.vq_index i (e.bits.reg0 / 2 ^ 29 % 4);
            vq_color = assign e.vq_color (e.bits.reg0 / 2 ^ 29 % 4) (e.bits.reg0 / 2 ^ 5 % 2 ^ 24);
            bits = update_read_buf 27 e.bits;
          })
          (omega arith) (ground arith) refl refl)
  ]
    where
      reading :
          (n : ℕ) (f : Decoder)
          → n ≤ 32
          → SameScreen e f
          → f.framebuffer ≡ e.framebuffer
          → f.bits ≡ update_read_buf n e.bits
          → Parsed d f
      reading n f l s b r = record {
        screen = ground (arith, h.screen);
        same_framebuffer = b ∙ h.same_framebuffer;
        reads = λ m u. rw r (
            Read-fewer goal size m n _
              (Read-update_read_buf goal size short some_words m n e.bits l (h.reads m u)));
      }

  pub Parsed-decode_vq_header : (n : ℕ) (d : Decoder) → Parsed d (decode_vq_header n d)
  unfolding decode_vq_header
  Parsed-decode_vq_header n d =
      for_each-keeps (Parsed d) n 0 vq_color_at d (λ i e _. Parsed-vq_color_at d e i)
        (Parsed-refl d)

  Parsed-vq_pixel :
      (d e : Decoder) (n : ℕ)
      → d.vq_bitmap_bits ≤ 2
      → Parsed d e × (e.vq_bitmap_bits ≡ d.vq_bitmap_bits)
      → Parsed d (vq_pixel n e) × (e.vq_bitmap_bits ≡ d.vq_bitmap_bits)
  Parsed-vq_pixel d e n l (h, s) = (
    record {
      screen = ground (arith, h.screen);
      same_framebuffer = h.same_framebuffer;
      reads = λ b u.
          Read-skip_kbits goal size short some_words b e.vq_bitmap_bits e.bits (omega arith)
            (h.reads b u);
    },
    s,
  )

  pub Parsed-vq_tile : (d : Decoder) → d.vq_bitmap_bits ≤ 2 → Parsed d (vq_tile d)
  Parsed-vq_tile d l = elim (Bool-cases (d.vq_bitmap_bits == 0)) [
    | inl e ↦ rw e (Parsed-then_same d d _ (Parsed-refl d) (ground arith) refl refl)
    | inr e ↦ rw e (
        (for_each-keeps (λ f. Parsed d f × (f.vq_bitmap_bits ≡ d.vq_bitmap_bits)) 64 0 vq_pixel d
          (λ n f _. Parsed-vq_pixel d f n l) (Parsed-refl d, refl)).0)
  ]

-- The header of the colours leaves the width of the bitmap as it is.
pub decode_vq_header-bitmap :
    (n : ℕ) (d : Decoder) → (decode_vq_header n d).vq_bitmap_bits ≡ d.vq_bitmap_bits
unfolding decode_vq_header
decode_vq_header-bitmap n d =
    for_each-keeps (λ e. e.vq_bitmap_bits ≡ d.vq_bitmap_bits) n 0 vq_color_at d
      (λ i e _ h. ground arith) refl
