-- ===== src/Ikvm/Decoder/Progress.antt =====
-- internal/ikvm/decoder.go: the loop over the blocks ends, since every block takes bits of the frame.
use kvm_switcher.Prelude.{
  nat_eq, ◌==◌, if◌then◌else◌, ◌%◌, ◌*◌, ◌/◌, arith, ◌⊎◌, ◌+◌, ◌≡◌, ◌<◌, length, ◌≤◌, ℕ,
}
use kvm_switcher.Ikvm.Decoder.Tables.{HuffmanTable}
use kvm_switcher.Ikvm.Decoder.Huffman.{decode_symbol}
use kvm_switcher.Ikvm.Decoder.Reader.{skip_kbits, update_read_buf, get_kbits, Reader}

-- The reader has read `bits` bits at least, or it is beyond the frame's `goal` words.
pub record Read (goal : ℕ) (size : ℕ) (bits : ℕ) (r : Reader) : Type 0 where
  pub all_words : length r.buf ≡ size
  pub inside : r.index ≤ size
  pub most_bits : r.newbits ≤ 32
  pub far : (goal ≤ r.index) ⊎ (bits + r.newbits ≤ 32 * r.index + 32)

pub Read-fewer : (goal size b n : ℕ) (r : Reader) → Read goal size (b + n) r → Read goal size b r
Read-fewer goal size b n r h = ground arith

pub Read-less : (goal size a b : ℕ) (r : Reader) → a ≤ b → Read goal size b r → Read goal size a r
Read-less goal size a b r l h = ground arith

module _ (goal size : ℕ) (short : goal ≤ size) (some_words : 0 < size) where
  pub Read-update_read_buf :
      (b n : ℕ) (r : Reader)
      → n ≤ 32
      → Read goal size b r
      → Read goal size (b + n) (update_read_buf n r)
  unfolding update_read_buf
  Read-update_read_buf b n r l h = ground arith

  pub Read-skip_kbits :
      (b n : ℕ) (r : Reader) → n ≤ 32 → Read goal size b r → Read goal size b (skip_kbits n r)
  unfolding skip_kbits
  Read-skip_kbits b n r l h = ground arith

  pub Read-get_kbits :
      (b n : ℕ) (r : Reader) → n ≤ 32 → Read goal size b r → Read goal size b (get_kbits n r).1
  unfolding get_kbits
  Read-get_kbits b n r l h = Read-skip_kbits b n r l h

  pub Read-decode_symbol :
      (b : ℕ) (ht : HuffmanTable) (r : Reader)
      → ((i : ℕ) → ht.len i ≤ 16)
      → Read goal size b r
      → Read goal size b (decode_symbol ht r).1
  unfolding decode_symbol
  Read-decode_symbol b ht r l h =
      let looked = ht.len (r.reg0 / 65_536 % 65_536) in
      Read-skip_kbits b (if looked == 0 then 1 else looked) r
        (ground (arith, l (r.reg0 / 65_536 % 65_536))) h
