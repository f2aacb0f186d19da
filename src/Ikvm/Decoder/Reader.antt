-- ===== src/Ikvm/Decoder/Reader.antt =====
-- internal/ikvm/bitstream.go: the words of a frame, and the two registers through which they are read
-- bit by bit. A uint32 is a number below 2^32; `n` stays at most 32, since the tables' codes are short.
use kvm_switcher.Prelude.{
  nat_eq, low_bits, minus, ltb, ◌/◌, ◌-◌, [], ◌+◌, ◌||◌, length, pos, ◌+ℤ◌, ◌%◌, leb, ◌∷◌, ◌==◌,
  ◌^◌, int16, Bool, ℤ, ◌*◌, if◌then◌else◌, get_or, List, ℕ,
}
use kvm_switcher.Ikvm.Bytes.{u32, Bytes}
use Prim.Native.Nat.{bit_or}

pub record Reader : Type 0 where
  pub buf : List ℕ
  pub reg0 : ℕ
  pub reg1 : ℕ
  pub newbits : ℕ
  pub index : ℕ

-- Four bytes a word, the low one first; the last bytes are padded with zeros.
abbrev pub make_int_array : Bytes → List ℕ
make_int_array [] = []
make_int_array (a ∷ []) = a ∷ []
make_int_array (a ∷ b ∷ []) = u32 a b 0 0 ∷ []
make_int_array (a ∷ b ∷ c ∷ []) = u32 a b c 0 ∷ []
make_int_array (a ∷ b ∷ c ∷ d ∷ bs) = u32 a b c d ∷ make_int_array bs

-- A shift of a uint32.
abbrev pub shl32 : ℕ → ℕ → ℕ
shl32 x n = x * 2 ^ n % 2 ^ 32

unfoldable pub look_kbits : ℕ → Reader → ℤ
look_kbits k r = if k == 0 then pos 0 else int16 (pos (r.reg0 / 2 ^ (32 - k)))

-- `if d.index >= len(d.buf) { d.index = len(d.buf) - 1 }`
abbrev pub clipped : Reader → ℕ
clipped r = if leb (length r.buf) r.index then length r.buf - 1 else r.index

unfoldable pub skip_kbits : ℕ → Reader → Reader
skip_kbits n r =
    let i = clipped r in
    let next_word = get_or r.buf i 0 in
    if leb r.newbits n
    then record r {
      index = i + 1;
      reg0 =
          bit_or (shl32 r.reg0 n)
            (bit_or r.reg1 (next_word / 2 ^ r.newbits) / 2 ^ (32 - n) % 2 ^ 32);
      reg1 = shl32 next_word (n - r.newbits);
      newbits = 32 + r.newbits - n;
    }
    else record r {
      reg0 = bit_or (shl32 r.reg0 n) (r.reg1 / 2 ^ (32 - n));
      reg1 = shl32 r.reg1 n;
      newbits = r.newbits - n;
    }

-- The same on uint64, cut to uint32.
unfoldable pub update_read_buf : ℕ → Reader → Reader
update_read_buf n r =
    let i = clipped r in
    let next_word = get_or r.buf i 0 in
    if leb r.newbits n
    then record r {
      index = i + 1;
      reg0 =
          bit_or (r.reg0 * 2 ^ n % 2 ^ 32)
            (bit_or r.reg1 (next_word / 2 ^ r.newbits) / 2 ^ (32 - n) % 2 ^ 32);
      reg1 = next_word * 2 ^ (n - r.newbits) % 2 ^ 32;
      newbits = 32 + r.newbits - n;
    }
    else record r {
      reg0 = bit_or (r.reg0 * 2 ^ n % 2 ^ 32) (r.reg1 / 2 ^ (32 - n) % 2 ^ 32);
      reg1 = r.reg1 * 2 ^ n % 2 ^ 32;
      newbits = r.newbits - n;
    }

-- `initNegPow2`: 1 - 2^i as an int16.
abbrev pub neg_pow2 : ℕ → ℤ
neg_pow2 i = if i == 0 then pos 0 else int16 (minus 1 (2 ^ i))

-- `(1<<(k-1))&val == 0` on int16
abbrev pub top_bit_clear : ℕ → ℤ → Bool
top_bit_clear k val = k == 0 || ltb 16 k || low_bits val k / 2 ^ (k - 1) == 0

unfoldable pub get_kbits : ℕ → Reader → ℤ × Reader
get_kbits k r =
    let val = look_kbits k r in
    (if top_bit_clear k val then int16 (val +ℤ neg_pow2 k) else val, skip_kbits k r)
