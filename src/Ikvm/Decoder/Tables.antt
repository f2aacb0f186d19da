-- ===== src/Ikvm/Decoder/Tables.antt =====
-- internal/ikvm/decoder.go: the tables that `NewDecoder` fills in. The factors of the colours are those that
-- `fixG` rounds to; `neg_pow2` stands with the reader.
use kvm_switcher.Ikvm.Decoder.Standard.{
  dc_chrominance_huffman_code, ac_chrominance_huffman_code, std_ac_chrominance_values,
  std_dc_chrominance_values, std_dc_chrominance_nr_codes, std_ac_chrominance_nr_codes,
  dc_luminance_huffman_code, ac_luminance_huffman_code, std_ac_luminance_values,
  std_dc_luminance_values, std_dc_luminance_nr_codes, std_ac_luminance_nr_codes,
}
use kvm_switcher.Prelude.{
  nat_eq, zero, length, int16, ◌+ℤ◌, minus, ◌%◌, negsuc, ◌-◌, ◌*ℤ◌, get_or, ◌*◌, ◌==◌, neg, ltb,
  shr, ◌+◌, suc, if◌then◌else◌, ℤ, pos, List, ℕ,
}
use kvm_switcher.Ikvm.Decoder.Loops.{assign, for_each}

-- `initRangeLimitTable`
unfoldable pub range_limit : ℕ → ℕ
range_limit i =
    if ltb i 256
    then 0
    else if ltb i 512
    then i - 256
    else if ltb i 895
    then 255
    else if ltb i 1280
    then 0
    else i % 256

-- `initColorTable`: a factor times the value less an offset, rounded.
abbrev pub scaled : ℤ → ℕ → ℕ → ℤ
scaled factor offset i = shr (factor *ℤ minus i offset +ℤ pos 32_768) 16

unfoldable pub cr_to_r : ℕ → ℤ
cr_to_r i = scaled (pos 104_704) 128 i

unfoldable pub cb_to_b : ℕ → ℤ
cb_to_b i = scaled (pos 132_096) 128 i

unfoldable pub cr_to_g : ℕ → ℤ
cr_to_g i = scaled (neg (pos 53_248)) 128 i

unfoldable pub cb_to_g : ℕ → ℤ
cb_to_g i = scaled (neg (pos 25_600)) 128 i

unfoldable pub y_table : ℕ → ℤ
y_table i = scaled (pos 76_284) 16 i

pub record HuffmanTable : Type 0 where
  pub length : ℕ → ℕ
  pub v : ℕ → ℕ
  pub minor_code : ℕ → ℤ
  pub major_code : ℕ → ℤ
  pub len : ℕ → ℕ

-- The loop that fills `v`: the symbols of the codes of each length, `n` of them before.
abbrev pub load_value : List ℕ → ℕ → ℕ → ℕ × (ℕ → ℕ) → ℕ × (ℕ → ℕ)
load_value values i j (n, v) = (n + 1, assign v (i * 256 + j) (get_or values n 0))

abbrev pub load_values : (ℕ → ℕ) → List ℕ → ℕ → ℕ → ℕ × (ℕ → ℕ) → ℕ × (ℕ → ℕ)
load_values lengths values rounds first =
    for_each rounds first (λ i. for_each (lengths i) 0 (load_value values i))

-- The loop that fills the first and last code of each length.
pub record Codes : Type 0 where
  pub code : ℕ
  pub minor : ℕ → ℤ
  pub major : ℕ → ℤ

abbrev pub load_codes : (ℕ → ℕ) → ℕ → ℕ → Codes → Codes
load_codes lengths rounds first = for_each rounds first (λ i c.
    let last = c.code + lengths i in
    if lengths i == 0
    then record {
      code = last * 2;
      minor = assign c.minor i (negsuc 0);
      major = assign c.major i (pos 0);
    }
    else record {
      code = last * 2;
      minor = assign c.minor i (int16 (pos c.code));
      major = assign c.major i (int16 (minus last 1));
    })

-- The fast lookup: where the loop stands in the boundaries after index `i`, and the length that it sets there.
abbrev pub next_length : List ℕ → ℕ → ℕ → ℕ × ℕ
next_length codes i ci =
    if ltb i (get_or codes ci 0)
    then (ci, get_or codes (ci + 1) 0 % 256)
    else if ltb (ci + 3) (length codes)
    then (ci + 2, get_or codes (ci + 3) 0 % 256)
    else (ci + 2, 0)

unfoldable pub scan_lengths : List ℕ → ℕ → ℕ × ℕ
scan_lengths codes zero = (2, 2)
scan_lengths codes (suc i) = next_length codes (suc i) (scan_lengths codes i).0

-- The last entry is not set.
unfoldable pub fast_length : List ℕ → ℕ → ℕ
fast_length codes i = if ltb i 65_535 then (scan_lengths codes i).1 else 0

abbrev pub code_lengths : List ℕ → ℕ → ℕ
code_lengths nrcodes i = if i == 0 then 0 else get_or nrcodes i 0

unfoldable pub load_huffman_table : List ℕ → List ℕ → List ℕ → HuffmanTable
load_huffman_table nrcodes values huff_code =
    let lengths = code_lengths nrcodes in
    let codes =
      load_codes lengths 16 1 (record { code = 0; minor = λ _. pos 0; major = λ _. pos 0 }) in
    record {
      length = lengths;
      v = (load_values lengths values 16 1 (0, λ _. 0)).1;
      minor_code = codes.minor;
      major_code = codes.major;
      len = fast_length huff_code;
    }

-- `initHuffmanTables`: number 0 for luminance, 1 for chrominance; the others stay empty.
abbrev pub no_table : HuffmanTable
no_table = record {
  length = λ _. 0;
  v = λ _. 0;
  minor_code = λ _. pos 0;
  major_code = λ _. pos 0;
  len = λ _. 0;
}

unfoldable pub ht_dc : ℕ → HuffmanTable
ht_dc zero =
    load_huffman_table std_dc_luminance_nr_codes std_dc_luminance_values dc_luminance_huffman_code
ht_dc (suc zero) =
    load_huffman_table std_dc_chrominance_nr_codes std_dc_chrominance_values
      dc_chrominance_huffman_code
ht_dc (suc (suc n)) = no_table

unfoldable pub ht_ac : ℕ → HuffmanTable
ht_ac zero =
    load_huffman_table std_ac_luminance_nr_codes std_ac_luminance_values ac_luminance_huffman_code
ht_ac (suc zero) =
    load_huffman_table std_ac_chrominance_nr_codes std_ac_chrominance_values
      ac_chrominance_huffman_code
ht_ac (suc (suc n)) = no_table
