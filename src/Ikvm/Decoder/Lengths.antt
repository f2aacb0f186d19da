-- ===== src/Ikvm/Decoder/Lengths.antt =====
-- internal/ikvm/decoder.go: the codes of the Huffman tables, and the numbers that follow a code, are short.
use kvm_switcher.Prelude.{
  nat_eq, ◌-ℤ◌, low_bits, ◌==◌, if◌then◌else◌, ◌%◌, ◌/◌, length, inr, refl, inl, zero, [], ◌&&◌,
  ltb, Bool-cases, leb, suc, arith, ◌∷◌, true, Bool, ◌+◌, ◌≤◌, ◌*◌, get_or, ◌≡◌, List, ℕ,
}
use kvm_switcher.Ikvm.Decoder.Reader.{look_kbits, Reader}
use kvm_switcher.Ikvm.Decoder.Huffman.{decode_symbol}
use kvm_switcher.Ikvm.Decoder.Standard.{
  std_dc_chrominance_nr_codes, std_dc_luminance_nr_codes, ac_chrominance_huffman_code,
  std_dc_chrominance_values, dc_chrominance_huffman_code, std_dc_luminance_values,
  dc_luminance_huffman_code, ac_luminance_huffman_code,
}
use kvm_switcher.Ikvm.Decoder.Tables.{
  code_lengths, load_value, load_huffman_table, next_length, ht_ac, ht_dc, fast_length, load_values,
  scan_lengths,
}
use kvm_switcher.Ikvm.Decoder.Loops.{for_each, for_each-keeps}

-- Every second number of a list, the lengths of a fast lookup, is at most 16.
abbrev are_short : List ℕ → Bool
are_short [] = true
are_short (b ∷ []) = true
are_short (b ∷ l ∷ rest) = leb l 16 && are_short rest

get_or-short : (codes : List ℕ) (m : ℕ) → are_short codes ≡ true → get_or codes (m * 2 + 1) 0 ≤ 16
get_or-short [] m h = omega arith
get_or-short (b ∷ []) zero h = omega arith
get_or-short (b ∷ []) (suc m) h =
    let e : suc m * 2 + 1 ≡ suc (suc (m * 2 + 1)) = omega arith in rw e (omega arith)
get_or-short (b ∷ l ∷ rest) zero h = ground arith
get_or-short (b ∷ l ∷ rest) (suc m) h =
    let e : suc m * 2 + 1 ≡ suc (suc (m * 2 + 1)) = omega arith in
    rw e (get_or-short rest m (ground arith))

record Stands (codes : List ℕ) (at : ℕ × ℕ) : Type 0 where
  pair : ℕ
  even : at.0 ≡ pair * 2
  short : at.1 ≤ 16

next_length-Stands :
    (codes : List ℕ) (i ci m : ℕ)
    → ci ≡ m * 2
    → are_short codes ≡ true
    → Stands codes (next_length codes i ci)
next_length-Stands codes i ci m e h =
    let here : ci + 1 ≡ m * 2 + 1 = omega arith in
    let next : ci + 3 ≡ (m + 1) * 2 + 1 = omega arith in
    let a : get_or codes (ci + 1) 0 ≤ 16 = rw here (get_or-short codes m h) in
    let b : get_or codes (ci + 3) 0 ≤ 16 = rw next (get_or-short codes (m + 1) h) in
    elim (Bool-cases (ltb i (get_or codes ci 0))) [
      | inl t ↦ rw t (record { pair = m; even = e; short = omega arith })
      | inr t ↦ elim (Bool-cases (ltb (ci + 3) (length codes))) [
        | inl u ↦ rw (t, u) (record { pair = m + 1; even = omega arith; short = omega arith })
        | inr u ↦ rw (t, u) (record { pair = m + 1; even = omega arith; short = omega arith })
      ]
    ]

scan_lengths-Stands :
    (codes : List ℕ) (i : ℕ) → are_short codes ≡ true → Stands codes (scan_lengths codes i)
unfolding scan_lengths
scan_lengths-Stands codes zero h = record { pair = 1; even = refl; short = omega arith }
scan_lengths-Stands codes (suc i) h =
    let s = scan_lengths-Stands codes i h in
    next_length-Stands codes (suc i) (scan_lengths codes i).0 s.pair s.even h

pub fast_length-le : (codes : List ℕ) (i : ℕ) → are_short codes ≡ true → fast_length codes i ≤ 16
unfolding fast_length
fast_length-le codes i h = let s = scan_lengths-Stands codes i h in ground (arith, s.short)

-- The symbols of a table are those of its list, or 0.
abbrev all_below : ℕ → List ℕ → Bool
all_below bound [] = true
all_below bound (v ∷ vs) = leb v bound && all_below bound vs

get_or-below :
    (bound : ℕ) (values : List ℕ) (n : ℕ)
    → all_below bound values ≡ true
    → get_or values n 0 ≤ bound
get_or-below bound [] n h = omega arith
get_or-below bound (v ∷ vs) zero h = ground arith
get_or-below bound (v ∷ vs) (suc n) h = get_or-below bound vs n (ground arith)

abbrev AtMost : ℕ → ℕ × (ℕ → ℕ) → Type 0
AtMost bound s = (i : ℕ) → s.1 i ≤ bound

load_values-AtMost :
    (bound : ℕ) (lengths : ℕ → ℕ) (values : List ℕ) (rounds first : ℕ) (s : ℕ × (ℕ → ℕ))
    → all_below bound values ≡ true
    → AtMost bound s
    → AtMost bound (load_values lengths values rounds first s)
load_values-AtMost bound lengths values rounds first s h start =
    for_each-keeps (AtMost bound) rounds first (λ i. for_each (lengths i) 0 (load_value values i)) s
      (λ i t _.
        for_each-keeps (AtMost bound) (lengths i) 0 (load_value values i) t
          (λ j u _ k l. ground (arith, k l, get_or-below bound values u.0 h)))
      start

-- The tables of the decoder: codes of at most 16 bits, and numbers of at most 11 bits for the first coefficient.
pub ht_dc-len : (n i : ℕ) → (ht_dc n).len i ≤ 16
unfolding ht_dc load_huffman_table
ht_dc-len zero i = fast_length-le dc_luminance_huffman_code i refl
ht_dc-len (suc zero) i = fast_length-le dc_chrominance_huffman_code i refl
ht_dc-len (suc (suc n)) i = omega arith

pub ht_ac-len : (n i : ℕ) → (ht_ac n).len i ≤ 16
unfolding ht_ac load_huffman_table
ht_ac-len zero i = fast_length-le ac_luminance_huffman_code i refl
ht_ac-len (suc zero) i = fast_length-le ac_chrominance_huffman_code i refl
ht_ac-len (suc (suc n)) i = omega arith

pub ht_dc-v : (n i : ℕ) → (ht_dc n).v i ≤ 11
unfolding ht_dc load_huffman_table
ht_dc-v zero i =
    load_values-AtMost 11 (code_lengths std_dc_luminance_nr_codes) std_dc_luminance_values 16 1
      (0, λ _. 0) refl (λ _. omega arith) i
ht_dc-v (suc zero) i =
    load_values-AtMost 11 (code_lengths std_dc_chrominance_nr_codes) std_dc_chrominance_values 16 1
      (0, λ _. 0) refl (λ _. omega arith) i
ht_dc-v (suc (suc n)) i = omega arith

pub decode_symbol-small : (n : ℕ) (r : Reader) → (decode_symbol (ht_dc n) r).0 ≤ 11
unfolding decode_symbol
decode_symbol-small n r =
    let looked = (ht_dc n).len (r.reg0 / 65_536 % 65_536) in
    let code_len = if looked == 0 then 1 else looked in
    let place = low_bits (look_kbits code_len r -ℤ (ht_dc n).minor_code code_len) 8 in
    omega (arith, ht_dc-v n (code_len * 256 + place))
