-- ===== src/Ikvm/Decoder/Reads.antt =====
-- internal/ikvm/bitstream.go: the registers hold the next bits of the frame.
use kvm_switcher.Ikvm.Decoder.Shifts.{rest_back, old_front, next_back, new_front}
use kvm_switcher.Ikvm.Decoder.BitString.{word-lt, field-word, AreWords, word, field}
use kvm_switcher.Prelude.{
  inr, inl, leb, Bool-cases, get_or, length, ◌-◌, sym, List, ap, ◌∙◌, arith, ◌+◌, ◌^◌, ◌≡◌, ◌<◌,
  ◌*◌, ◌≤◌, ℕ,
}
use kvm_switcher.Ikvm.Decoder.Reader.{update_read_buf, clipped, Reader}

-- Bit `p` of the frame is the first one in the registers: `reg0` holds the 32 bits from there on,
-- `reg1` at its top the `newbits` after them, which end where a word of the frame ends.
pub record At (ws : List ℕ) (p : ℕ) (r : Reader) : Type 0 where
  pub same_words : r.buf ≡ ws
  pub some_words : 0 < length ws
  pub words : ℕ
  pub read_index : (words ≤ length ws → r.index ≡ words) × (length ws ≤ words → r.index ≡ length ws)
  pub position : p + r.newbits + 32 ≡ 32 * words
  pub some_bits : 0 < r.newbits
  pub most_bits : r.newbits ≤ 32
  pub front : r.reg0 ≡ field ws p 32
  pub back : r.reg1 ≡ field ws (p + 32) r.newbits * 2 ^ (32 - r.newbits)

-- The word that is read next, and the index after it.
next-word :
    (ws : List ℕ) (p : ℕ) (r : Reader) (h : At ws p r)
    → get_or r.buf (clipped r) 0 ≡ word ws h.words
unfolding word
next-word ws p r h = ground (arith, h.read_index, h.same_words)

-- Reading `n` bits moves on by `n` bits.
pub At-update_read_buf :
    (ws : List ℕ) (p n : ℕ) (r : Reader)
    → AreWords ws
    → n ≤ 32
    → At ws p r
    → At ws (p + n) (update_read_buf n r)
unfolding update_read_buf
At-update_read_buf ws p n r w l h = elim (Bool-cases (leb r.newbits n)) [
  | inl e ↦ rw e (record {
    same_words = h.same_words;
    some_words = h.some_words;
    words = h.words + 1;
    read_index = ground (arith, h.read_index, h.same_words, h.some_words);
    position = ground (arith, h.position);
    some_bits = ground (arith, h.some_bits);
    most_bits = ground (arith, h.most_bits);
    front = rw (h.front, h.back, next) (new_front ws p n r.newbits h.most_bits l);
    back = rw next (next_back ws p n r.newbits (ground arith) l);
  })
  | inr e ↦ rw e (record {
    same_words = h.same_words;
    some_words = h.some_words;
    words = h.words;
    read_index = h.read_index;
    position = ground (arith, h.position);
    some_bits = ground arith;
    most_bits = ground (arith, h.most_bits);
    front = rw (h.front, h.back) (old_front ws p n r.newbits (ground arith) h.most_bits);
    back = rw h.back (rest_back ws p n r.newbits (ground arith) h.most_bits);
  })
]
  where
    next : get_or r.buf (clipped r) 0 ≡ field ws (p + 32 + r.newbits) 32
    next =
        next-word ws p r h
        ∙ sym (field-word ws h.words (word-lt ws h.words w))
        ∙ ap (λ q. field ws q 32) (omega (arith, h.position))
