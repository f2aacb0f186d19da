-- ===== src/Ikvm/Decoder/Coded.antt =====
-- internal/ikvm/bitstream.go: `getKbits` against the numbers of JPEG that a frame's bits spell.
use kvm_switcher.Prelude.{
  inr, inl, Bool-cases, ltb→lt, true, nat_eq, false, zero, ◌==◌, sym, suc, negsuc, refl, ◌∙◌, arith,
  ◌+ℤ◌, ◌%◌, ◌-◌, int16, pos, minus, ap, ◌/◌, ◌+◌, ◌*◌, ◌≡◌, [], All, ◌^◌, get_or, length, ltb,
  if◌then◌else◌, ◌∷◌, ◌<◌, ◌≤◌, ℤ, List, ℕ,
}
use native.Mathlib.Nat.{div-one}
use kvm_switcher.Ikvm.Decoder.BitString.{
  word-lt, field-word, field_front, pow_add, pow_pos, word, field, AreWords, field-lt,
}
use kvm_switcher.Ikvm.Decoder.Reads.{At-update_read_buf, At}
use kvm_switcher.Ikvm.Decoder.Reader.{
  neg_pow2, top_bit_clear, update_read_buf, Reader, look_kbits, skip_kbits, get_kbits,
}
use native.Mathlib.Nat

-- EXTEND of JPEG: the number that the field `v` of `k` bits stands for.
abbrev pub extend : ℕ → ℕ → ℤ
extend k v = if ltb (v * 2) (2 ^ k) then minus (v + 1) (2 ^ k) else pos v

-- The numbers read one after the other with the given widths, by the registers and from the bits.
abbrev pub read_numbers : List ℕ → Reader → List ℤ
read_numbers [] r = []
read_numbers (k ∷ ks) r = let (v, next) = get_kbits k r in v ∷ read_numbers ks next

abbrev pub numbers_at : List ℕ → ℕ → List ℕ → List ℤ
numbers_at ws p [] = []
numbers_at ws p (k ∷ ks) = extend k (field ws p k) ∷ numbers_at ws (p + k) ks

-- `d.reg0 = d.buf[0]` and so on
unfoldable pub new_reader : List ℕ → Reader
new_reader ws = record {
  buf = ws;
  reg0 = get_or ws 0 0;
  reg1 = get_or ws 1 0;
  newbits = 32;
  index = 2;
}

-- Both ways to skip do the same, as long as the second register is a uint32.
pub skip_kbits-update_read_buf :
    (n : ℕ) (r : Reader) → r.reg1 < 2 ^ 32 → skip_kbits n r ≡ update_read_buf n r
unfolding skip_kbits update_read_buf
skip_kbits-update_read_buf n r h =
    let s : r.reg1 / 2 ^ (32 - n) % 2 ^ 32 ≡ r.reg1 / 2 ^ (32 - n) =
      omega (arith, Nat.div-le_self r.reg1 (2 ^ (32 - n))) in
    rw s refl

back-lt : (ws : List ℕ) (q b : ℕ) → b ≤ 32 → field ws q b * 2 ^ (32 - b) < 2 ^ 32
back-lt ws q b h =
    let whole : b + (32 - b) ≡ 32 = omega arith in
    let e : 2 ^ b * 2 ^ (32 - b) ≡ 2 ^ 32 = sym (pow_add b (32 - b)) ∙ ap (λ k. 2 ^ k) whole in
    rw (← e) (Nat.mul-lt-mul_of_pos_right (field-lt ws q b) (pow_pos (32 - b)))

pub At-skip_kbits :
    (ws : List ℕ) (p n : ℕ) (r : Reader)
    → AreWords ws
    → n ≤ 32
    → At ws p r
    → At ws (p + n) (skip_kbits n r)
At-skip_kbits ws p n r w l h =
    let b : r.reg1 < 2 ^ 32 = rw h.back (back-lt ws (p + 32) r.newbits h.most_bits) in
    rw (skip_kbits-update_read_buf n r b) (At-update_read_buf ws p n r w l h)

first_words :
    (ws : List ℕ) (i : ℕ) → AreWords ws → i < length ws → field ws (32 * i) 32 ≡ get_or ws i 0
unfolding word
first_words ws i w l = field-word ws i (word-lt ws i w) ∙ ground arith

pub At-new_reader : (ws : List ℕ) → AreWords ws → 2 ≤ length ws → At ws 0 (new_reader ws)
unfolding new_reader
At-new_reader ws w l = record {
  same_words = refl;
  some_words = omega arith;
  words = 2;
  read_index = (λ _. refl, λ m. omega arith);
  position = refl;
  some_bits = omega arith;
  most_bits = omega arith;
  front = sym (first_words ws 0 w (omega arith));
  back = omega (arith, first_words ws 1 w (omega arith));
}

field-zero : (ws : List ℕ) (p : ℕ) → field ws p 0 ≡ 0
unfolding field
field-zero ws p = refl

look_kbits-field :
    (ws : List ℕ) (p k : ℕ) (r : Reader) → k ≤ 15 → At ws p r → look_kbits k r ≡ pos (field ws p k)
unfolding look_kbits
look_kbits-field ws p zero r l h = ap pos (sym (field-zero ws p))
look_kbits-field ws p (suc k) r l h =
    let t : (suc k == 0) ≡ false = ground arith in
    rw t (ap (λ v. int16 (pos v)) (top r.reg0 h.front) ∙ small)
  where
    parts : 32 ≡ suc k + (32 - suc k)
    parts = omega arith

    top : (x : ℕ) → x ≡ field ws p 32 → x / 2 ^ (32 - suc k) ≡ field ws p (suc k)
    top x e =
        ap (λ y. y / 2 ^ (32 - suc k)) (e ∙ ap (field ws p) parts)
        ∙ field_front ws p (suc k) (32 - suc k)

    limit : 2 ^ suc k ≤ 2 ^ 15
    limit = Nat.pow-le-pow_right (omega arith) l

    small : int16 (pos (field ws p (suc k))) ≡ pos (field ws p (suc k))
    small = let b = field-lt ws p (suc k) in ground (arith, limit, b)

neg_pow2_lem :
    (k q : ℕ) → 0 < k → 2 ^ k ≡ q * 2 → 0 < q → q ≤ 2 ^ 14 → neg_pow2 k ≡ negsuc (q * 2 - 2)
neg_pow2_lem k q p e f g = let t : (k == 0) ≡ false = ground arith in rw (t, e) (ground arith)

extend_pow :
    (k v q : ℕ)
    → 0 < k
    → k ≤ 15
    → 2 ^ k ≡ q * 2
    → 2 ^ (k - 1) ≡ q
    → q ≤ 2 ^ 14
    → 0 < q
    → v < 2 ^ k
    → (if top_bit_clear k (pos v) then int16 (pos v +ℤ neg_pow2 k) else pos v) ≡ extend k v
extend_pow k v q p l e d g f h = elim (Bool-cases (ltb v q)) [
  | inl c ↦ rw (clear c, neg_pow2_lem k q p e f g, e) (ground arith)
  | inr c ↦ rw (kept c, e) (ground arith)
]
  where
    top : (v / q == 0) ≡ ltb v q → top_bit_clear k (pos v) ≡ ltb v q
    top t =
        let z : (k == 0) ≡ false = ground arith in
        let s : ltb 16 k ≡ false = ground arith in rw (z, s, Nat.mod-eq_of_lt h, d) t

    clear : ltb v q ≡ true → top_bit_clear k (pos v) ≡ true
    clear c = let z : v / q ≡ 0 = Nat.div-eq_of_lt (ltb→lt v q c) in top (rw (z, c) refl) ∙ c

    kept : ltb v q ≡ false → top_bit_clear k (pos v) ≡ false
    kept c =
        let m : 1 * q ≤ v = ground arith in
        let o : 1 ≤ v / q = (Nat.le-div_iff_mul-le f).1 m in
        let b : (v / q == 0) ≡ false = ground arith in top (b ∙ sym c) ∙ c

extend_lem :
    (k v : ℕ)
    → k ≤ 15
    → v < 2 ^ k
    → (if top_bit_clear k (pos v) then int16 (pos v +ℤ neg_pow2 k) else pos v) ≡ extend k v
extend_lem zero v l h = ground arith
extend_lem (suc k) v l h =
    let m : k ≤ 14 = omega arith in
    let limit : 2 ^ k ≤ 2 ^ 14 = Nat.pow-le-pow_right (omega arith) m in
    let less : 2 ^ (suc k - 1) ≡ 2 ^ k = ap (λ j. 2 ^ j) (Nat.suc-sub-suc k 0 ∙ Nat.sub-zero k) in
    extend_pow (suc k) v (2 ^ k) (omega arith) l (Nat.pow-suc 2 k) less limit (pow_pos k) h

-- Reading numbers through the registers gives the numbers that the frame's bits spell one after the
-- other, whatever their widths of at most 15 bits, beyond the last word too.
pub read_numbers-field :
    (ws : List ℕ) (p : ℕ) (ks : List ℕ) (r : Reader)
    → AreWords ws
    → All (λ k. k ≤ 15) ks
    → At ws p r
    → read_numbers ks r ≡ numbers_at ws p ks
unfolding get_kbits
read_numbers-field ws p [] r w l h = refl
read_numbers-field ws p (k ∷ ks) r w (l, ls) h =
    ap
      (λ v.
        (if top_bit_clear k v then int16 (v +ℤ neg_pow2 k) else v)
        ∷ read_numbers ks (skip_kbits k r))
      (look_kbits-field ws p k r l h)
    ∙ ap (λ v. v ∷ read_numbers ks (skip_kbits k r))
        (extend_lem k (field ws p k) l (field-lt ws p k))
    ∙ ap (λ vs. extend k (field ws p k) ∷ vs)
        (read_numbers-field ws (p + k) ks (skip_kbits k r) w ls
          (At-skip_kbits ws p k r w (omega arith) h))
