-- ===== src/Ikvm/Decoder/Ends.antt =====
-- internal/ikvm/decoder.go: `Decode` comes to its end on a whole frame.
use kvm_switcher.Prelude.{
  zero, nat_eq, ltb, ◌||◌, ◌^◌, ◌==◌, suc, Bool-cases, [], ◌∷◌, refl, ◌/◌, ◌≢◌, ◌*◌, length, List,
  inr, inl, arith, ◌+◌, ◌≡◌, ◌<◌, ◌≤◌, ℕ,
}
use kvm_switcher.Ikvm.Decoder.Frame.{
  is_advance, out_of_fuel, SavedBlock, seeded, configured, decode_blocks, decode, header_bits,
  read_block, decompress_block, placed,
}
use kvm_switcher.Ikvm.Decoder.Reader.{make_int_array, update_read_buf}
use kvm_switcher.Ikvm.Decoder.Coded.{new_reader}
use kvm_switcher.Ikvm.VideoHeader.{VideoHeader}
use kvm_switcher.Ikvm.Bytes.{Bytes}
use kvm_switcher.Ikvm.Decoder.Progress.{Read-less, Read-update_read_buf, Read}
use kvm_switcher.Ikvm.Decoder.Shape.{
  Drawn-convert_yuv_to_rgb_pass2, Drawn-convert_yuv_to_rgb, Drawn-shown,
}
use kvm_switcher.Ikvm.Decoder.Showing.{Block-decompress_block}
use kvm_switcher.Ikvm.Decoder.Blocks.{move_block_index}
use kvm_switcher.Ikvm.Decoder.State.{Decoder}

module _ (goal size : ℕ) (short : goal ≤ size) (some_words : 0 < size) where
  Read-decompress_block :
      (b kind : ℕ) (d : Decoder)
      → Read goal size b d.bits
      → Read goal size b (decompress_block kind d).bits
  Read-decompress_block b kind d r =
      let k = Block-decompress_block goal size short some_words kind d in
      let p = k.parsed.reads b r in
      elim k.shows [
        | inl e ↦
            rw
              (
                e,
                (Drawn-shown _ d.txb d.tyb k.tile
                    (Drawn-convert_yuv_to_rgb d.txb d.tyb k.tile)).same_bits,
              )
              p
        | inr e ↦
            rw
              (
                e,
                (Drawn-shown _ d.txb d.tyb k.tile
                    (Drawn-convert_yuv_to_rgb_pass2 d.txb d.tyb k.tile)).same_bits,
              )
              p
      ]

  move_block_index-bits : (d : Decoder) → (move_block_index d).bits ≡ d.bits
  unfolding move_block_index
  move_block_index-bits d = ground arith

  placed-bits : (kind : ℕ) (d : Decoder) → (placed kind d).bits ≡ d.bits
  placed-bits kind d = ground arith

  -- A block takes four bits at least.
  Read-read_block :
      (b kind : ℕ) (d : Decoder)
      → Read goal size b d.bits
      → Read goal size (b + 4) (read_block kind d).bits
  Read-read_block b kind d r =
      let at = placed kind d in
      let s : Read goal size b at.bits = rw (placed-bits kind d) r in
      let n = header_bits kind in
      let l : b + 4 ≤ b + n = ground arith in
      let h = Read-update_read_buf goal size short some_words b n at.bits (ground arith) s in
      let e : Decoder = record at { bits = update_read_buf n at.bits } in
      rw (move_block_index-bits (decompress_block kind e))
        (Read-decompress_block (b + 4) kind e (Read-less goal size (b + 4) (b + n) e.bits l h))

  decode_blocks-Ends :
      (fuel b : ℕ) (saved : List SavedBlock) (d : Decoder)
      → Read goal size b d.bits
      → 0 < fuel
      → 32 * goal + 32 < 4 * fuel + b
      → decode_blocks goal fuel saved d ≢ out_of_fuel
  unfolding decode_blocks
  decode_blocks-Ends zero b saved d r p l = absurd (omega arith)
  decode_blocks-Ends (suc fuel) b saved d r p l =
      let kind = d.bits.reg0 / 2 ^ 28 in
      elim (Bool-cases (ltb d.bits.index goal)) [
        | inr e ↦ rw (decode_blocks, e) (λ x. ground arith)
        | inl e ↦ elim (Bool-cases (is_advance kind)) [
          | inl a ↦ rw (decode_blocks, e, a) (λ x. ground arith)
          | inr a ↦ elim (Bool-cases (kind == 9)) [
            | inl f ↦ rw (decode_blocks, e, a, f) (λ x. ground arith)
            | inr f ↦ elim (Bool-cases (ltb kind 16)) [
              | inl g ↦
                  rw (decode_blocks, e, a, f, g)
                    (decode_blocks-Ends fuel (b + 4) _ _ (Read-read_block b kind d r)
                      (ground (arith, r.far)) (omega arith))
              | inr g ↦ rw (decode_blocks, e, a, f, g) (λ x. ground arith)
            ]
          ]
        ]
      ]

length-make_int_array : (bs : Bytes) → length bs ≤ 4 * length (make_int_array bs)
length-make_int_array [] = omega arith
length-make_int_array (a ∷ []) = omega arith
length-make_int_array (a ∷ b ∷ []) = omega arith
length-make_int_array (a ∷ b ∷ c ∷ []) = omega arith
length-make_int_array (a ∷ b ∷ c ∷ d ∷ bs) = omega (arith, length-make_int_array bs)

seeded-Read :
    (aan : ℕ → ℕ → ℕ → ℕ) (goal : ℕ) (h : VideoHeader) (ws : List ℕ) (d : Decoder)
    → 3 ≤ length ws
    → Read goal (length ws) 32 (seeded (configured aan h ws d)).bits
unfolding configured new_reader
seeded-Read aan goal h ws d l = record {
  all_words = refl;
  inside = omega arith;
  most_bits = omega arith;
  far = inr (omega arith);
}

-- A frame that has as many bytes as its header says is decoded to an end, whatever they are: the loop
-- over the blocks takes at most eight rounds for every word of the frame.
pub decode-Ends :
    (aan : ℕ → ℕ → ℕ → ℕ) (fuel : ℕ) (h : VideoHeader) (bytes : Bytes) (d : Decoder)
    → h.compress_size ≤ length bytes
    → 8 * (h.compress_size / 4) < fuel
    → decode aan fuel h bytes d ≢ out_of_fuel
unfolding decode
decode-Ends aan fuel h bytes d whole enough =
    let ws = make_int_array bytes in
    let set = configured aan h ws d in
    elim (Bool-cases (h.dst_x == 0 || h.dst_y == 0)) [
      | inl e ↦ rw e (λ x. ground arith)
      | inr e ↦ elim (Bool-cases (ltb (length ws) 3)) [
        | inl f ↦ rw (e, f) (λ x. ground arith)
        | inr f ↦
            rw (e, f)
              (decode_blocks-Ends (h.compress_size / 4) (length ws)
                (omega (arith, length-make_int_array bytes)) (ground arith) fuel 32 [] (seeded set)
                (seeded-Read aan (h.compress_size / 4) h ws d (ground arith)) (omega arith)
                (omega arith))
      ]
    ]
