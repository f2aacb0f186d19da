-- ===== src/Ikvm/Decoder/Showing.antt =====
-- internal/ikvm/decompress.go: every kind of block is read into a tile, which is then shown at its place.
use kvm_switcher.Prelude.{
  refl, nat_eq, ◌⊎◌, inr, inl, ◌≡◌, ◌==◌, arith, ◌%◌, if◌then◌else◌, Bool-cases, ◌<◌, ◌≤◌, ℕ,
}
use kvm_switcher.Ikvm.Decoder.Colors.{convert_yuv_to_rgb_pass2, convert_yuv_to_rgb}
use kvm_switcher.Ikvm.Decoder.Parsing.{
  Parsed-blocks_420, Parsed-vq_tile, Parsed-trans, decode_vq_header-bitmap, Parsed-decode_vq_header,
  Parsed-blocks_444, Parsed,
}
use kvm_switcher.Ikvm.Decoder.Blocks.{
  blocks_420, shown, vq_tile, blocks_444, decode_vq_header, decompress_jpeg, decompress_jpeg_pass2,
  decompress_vq,
}
use kvm_switcher.Ikvm.Decoder.Frame.{vq_block, decompress_block}
use kvm_switcher.Ikvm.Decoder.State.{Decoder}

module _ (goal size : ℕ) (short : goal ≤ size) (some_words : 0 < size) where
  pub record Block (x y : ℕ) (d f : Decoder) : Type 0 where
    pub tile : Decoder
    pub parsed : Parsed goal size short some_words d tile
    pub shows :
        (f ≡ shown (convert_yuv_to_rgb x y) x y tile)
        ⊎ (f ≡ shown (convert_yuv_to_rgb_pass2 x y) x y tile)

  Block-decompress_jpeg : (x y q : ℕ) (d : Decoder) → Block x y d (decompress_jpeg x y q d)
  unfolding decompress_jpeg
  Block-decompress_jpeg x y q d = elim (Bool-cases (d.mode420 == 1)) [
    | inl e ↦ rw e (record {
      tile = blocks_420 q d;
      parsed = Parsed-blocks_420 goal size short some_words q d;
      shows = inl refl;
    })
    | inr e ↦ rw e (record {
      tile = blocks_444 q d;
      parsed = Parsed-blocks_444 goal size short some_words q d;
      shows = inl refl;
    })
  ]

  Block-decompress_jpeg_pass2 :
      (x y q : ℕ) (d : Decoder) → Block x y d (decompress_jpeg_pass2 x y q d)
  unfolding decompress_jpeg_pass2
  Block-decompress_jpeg_pass2 x y q d = record {
    tile = blocks_444 q d;
    parsed = Parsed-blocks_444 goal size short some_words q d;
    shows = inr refl;
  }

  Block-decompress_vq :
      (d e : Decoder) (x y : ℕ)
      → Parsed goal size short some_words d e
      → e.vq_bitmap_bits ≤ 2
      → Block x y d (decompress_vq x y e)
  unfolding decompress_vq
  Block-decompress_vq d e x y p l = record {
    tile = vq_tile e;
    parsed =
        Parsed-trans goal size short some_words d e (vq_tile e) p
          (Parsed-vq_tile goal size short some_words e l);
    shows = inl refl;
  }

  Parsed-header :
      (n k : ℕ) (d : Decoder)
      → Parsed goal size short some_words d (decode_vq_header k (record d { vq_bitmap_bits = n }))
  Parsed-header n k d =
      let c : Decoder = record d { vq_bitmap_bits = n } in
      let h = Parsed-decode_vq_header goal size short some_words k c in
      record {
        screen = ground (arith, h.screen);
        same_framebuffer = h.same_framebuffer;
        reads = h.reads;
      }

  Block-vq :
      (n k x y : ℕ) (d : Decoder)
      → n ≤ 2
      → Block x y d (decompress_vq x y (decode_vq_header k (record d { vq_bitmap_bits = n })))
  Block-vq n k x y d l =
      Block-decompress_vq d (decode_vq_header k (record d { vq_bitmap_bits = n })) x y
        (Parsed-header n k d)
        (omega (arith, l, decode_vq_header-bitmap k (record d { vq_bitmap_bits = n })))

  Block-colours :
      (kind : ℕ) (d : Decoder)
      → Block d.txb d.tyb d (
          if kind % 8 == 5
          then vq_block 0 1 d
          else if kind % 8 == 6
          then vq_block 1 2 d
          else vq_block 2 4 d)
  Block-colours kind d = elim (Bool-cases (kind % 8 == 5)) [
    | inl a ↦ rw a (Block-vq 0 1 d.txb d.tyb d (omega arith))
    | inr a ↦ elim (Bool-cases (kind % 8 == 6)) [
      | inl b ↦ rw (a, b) (Block-vq 1 2 d.txb d.tyb d (omega arith))
      | inr b ↦ rw (a, b) (Block-vq 2 4 d.txb d.tyb d (omega arith))
    ]
  ]

  pub Block-decompress_block :
      (kind : ℕ) (d : Decoder) → Block d.txb d.tyb d (decompress_block kind d)
  unfolding decompress_block
  Block-decompress_block kind d = elim (Bool-cases (kind % 8 == 0)) [
    | inl a ↦ rw a (Block-decompress_jpeg d.txb d.tyb 0 d)
    | inr a ↦ elim (Bool-cases (kind % 8 == 2)) [
      | inl b ↦ rw (a, b) (Block-decompress_jpeg_pass2 d.txb d.tyb 2 d)
      | inr b ↦ elim (Bool-cases (kind % 8 == 4)) [
        | inl c ↦ rw (a, b, c) (Block-decompress_jpeg d.txb d.tyb 2 d)
        | inr c ↦ rw (a, b, c) (Block-colours kind d)
      ]
    ]
  ]
