-- ===== src/Ikvm/Decoder/Idct.antt =====
-- internal/ikvm/decompress.go: `inverseDCT`, the samples of a block from its coefficients. The numbers stay far
-- below 2^63: coefficients of 17 bits times quantizers of 25 bits, shifted back by 16.
use kvm_switcher.Prelude.{
  nat_eq, false, ◌&&◌, negsuc, low_bits, neg, if◌then◌else◌, ◌*ℤ◌, ◌*◌, ◌==◌, pos, ◌+◌, shr, Bool,
  ◌-ℤ◌, ◌+ℤ◌, ℤ, ℕ,
}
use kvm_switcher.Ikvm.Decoder.Tables.{range_limit}
use kvm_switcher.Ikvm.Decoder.Loops.{assign, for_each}
use kvm_switcher.Ikvm.Decoder.State.{Decoder}

abbrev pub idct_multiply : ℤ → ℕ → ℤ
idct_multiply a b = shr (a *ℤ pos b) 8

-- The eight numbers of a pass, the outputs in the order 0 to 7.
pub record Eight : Type 0 where
  pub e0 : ℤ
  pub e1 : ℤ
  pub e2 : ℤ
  pub e3 : ℤ
  pub e4 : ℤ
  pub e5 : ℤ
  pub e6 : ℤ
  pub e7 : ℤ

-- The butterflies that both passes do.
unfoldable pub butterflies : Eight → Eight
butterflies x =
    let s0 = x.e0 +ℤ x.e4 in
    let s1 = x.e0 -ℤ x.e4 in
    let s2 = x.e2 +ℤ x.e6 in
    let s3 = idct_multiply (x.e2 -ℤ x.e6) 362 -ℤ s2 in
    let tmp0 = s0 +ℤ s2 in
    let tmp3 = s0 -ℤ s2 in
    let tmp1 = s1 +ℤ s3 in
    let tmp2 = s1 -ℤ s3 in
    let z13 = x.e5 +ℤ x.e3 in
    let z10 = x.e5 -ℤ x.e3 in
    let z11 = x.e1 +ℤ x.e7 in
    let z12 = x.e1 -ℤ x.e7 in
    let tmp7 = z11 +ℤ z13 in
    let tmp11 = idct_multiply (z11 -ℤ z13) 362 in
    let z5 = idct_multiply (z10 +ℤ z12) 473 in
    let tmp10 = idct_multiply z12 277 -ℤ z5 in
    let tmp12 = shr (z10 *ℤ neg (pos 669)) 8 +ℤ z5 in
    let tmp6 = tmp12 -ℤ tmp7 in
    let tmp5 = tmp11 -ℤ tmp6 in
    let tmp4 = tmp10 +ℤ tmp5 in
    record {
      e0 = tmp0 +ℤ tmp7;
      e1 = tmp1 +ℤ tmp6;
      e2 = tmp2 +ℤ tmp5;
      e3 = tmp3 -ℤ tmp4;
      e4 = tmp3 +ℤ tmp4;
      e5 = tmp2 -ℤ tmp5;
      e6 = tmp1 -ℤ tmp6;
      e7 = tmp0 -ℤ tmp7;
    }

abbrev pub is_zero : ℤ → Bool
is_zero (pos n) = n == 0
is_zero (negsuc n) = false

-- Column `col`: without a coefficient below the first one it is constant.
abbrev pub column : (ℕ → ℤ) → (ℕ → ℤ) → ℕ → ℕ → Eight
column coeff qt src col =
    let term : ℕ → ℤ = λ row. shr (coeff (src + row * 8) *ℤ qt (col + row * 8)) 16 in
    if is_zero (coeff (src + 8))
      && is_zero (coeff (src + 16))
      && is_zero (coeff (src + 24))
      && is_zero (coeff (src + 32))
      && is_zero (coeff (src + 40))
      && is_zero (coeff (src + 48))
      && is_zero (coeff (src + 56))
    then record {
      e0 = term 0;
      e1 = term 0;
      e2 = term 0;
      e3 = term 0;
      e4 = term 0;
      e5 = term 0;
      e6 = term 0;
      e7 = term 0;
    }
    else butterflies (record {
      e0 = term 0;
      e1 = term 1;
      e2 = term 2;
      e3 = term 3;
      e4 = term 4;
      e5 = term 5;
      e6 = term 6;
      e7 = term 7;
    })

-- Eight numbers `step` apart from `first` on, and back.
abbrev pub store_eight : Eight → ℕ → ℕ → (ℕ → ℤ) → ℕ → ℤ
store_eight x first step a =
    let b = assign (assign a first x.e0) (first + step) x.e1 in
    let c = assign (assign b (first + step * 2) x.e2) (first + step * 3) x.e3 in
    let e = assign (assign c (first + step * 4) x.e4) (first + step * 5) x.e5 in
    assign (assign e (first + step * 6) x.e6) (first + step * 7) x.e7

abbrev pub load_eight : (ℕ → ℤ) → ℕ → Eight
load_eight a first = record {
  e0 = a first;
  e1 = a (first + 1);
  e2 = a (first + 2);
  e3 = a (first + 3);
  e4 = a (first + 4);
  e5 = a (first + 5);
  e6 = a (first + 6);
  e7 = a (first + 7);
}

-- `rangeLimit[128 + (x >> 3 & 0x3FF) + 256]`
abbrev pub sample : ℤ → ℤ
sample x = pos (range_limit (128 + low_bits (shr x 3) 10 + 256))

abbrev pub samples : Eight → Eight
samples x = record {
  e0 = sample x.e0;
  e1 = sample x.e1;
  e2 = sample x.e2;
  e3 = sample x.e3;
  e4 = sample x.e4;
  e5 = sample x.e5;
  e6 = sample x.e6;
  e7 = sample x.e7;
}

-- The workspace is filled by columns, and read by rows.
unfoldable pub column_pass : (ℕ → ℤ) → (ℕ → ℤ) → ℕ → ℕ → ℤ
column_pass coeff qt offset =
    for_each 8 0 (λ col ws. store_eight (column coeff qt (offset + col) col) col 8 ws) (λ _. pos 0)

unfoldable pub inverse_dct : ℕ → ℕ → Decoder → Decoder
inverse_dct offset qt_idx d =
    let ws = column_pass d.dct_coeff (d.qt qt_idx) offset in
    record d {
      yuv_tile =
          for_each 8 0
            (λ row t.
              store_eight (samples (butterflies (load_eight ws (row * 8)))) (offset + row * 8) 1 t)
            d.yuv_tile;
    }
