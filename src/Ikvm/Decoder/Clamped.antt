-- ===== src/Ikvm/Decoder/Clamped.antt =====
-- internal/ikvm/decompress.go: the table of limits cuts the colours to a byte and never wraps.
use kvm_switcher.Prelude.{
  ◌≤◌, false, ◌&&◌, ◌+ℤ◌, if◌then◌else◌, zero, negsuc, refl, suc, arith, ◌+◌, leb, pos, true, ◌<◌,
  ◌≡◌, Bool, ℤ, ℕ,
}
use kvm_switcher.Ikvm.Decoder.State.{Yuv}
use kvm_switcher.Ikvm.Decoder.Colors.{pixel_of, channel, clamped}
use kvm_switcher.Ikvm.Decoder.Tables.{cb_to_g, cr_to_g, cr_to_r, range_limit, cb_to_b, y_table}

-- A test of every number below a limit.
every : (ℕ → Bool) → ℕ → Bool
every test zero = true
every test (suc n) = if test n then every test n else false

every-lt : (test : ℕ → Bool) (n i : ℕ) → every test n ≡ true → i < n → test i ≡ true
unfolding every
every-lt test zero i h l = absurd (omega arith)
every-lt test (suc n) i h l = ground (arith, every-lt test n i)

-- The int is between two numbers, the lower one negated.
abbrev between : ℕ → ℕ → ℤ → Bool
between low high (pos n) = leb n high
between low high (negsuc n) = leb (n + 1) low

y_table-between : (i : ℕ) → i < 256 → between 20 280 (y_table i) ≡ true
unfolding every y_table
y_table-between i l = every-lt (λ n. between 20 280 (y_table n)) 256 i refl l

chroma-between :
    (i : ℕ)
    → i < 256
    → (between 260 260 (cb_to_b i)
        && between 260 260 (cr_to_r i)
        && between 110 110 (cr_to_g i)
        && between 60 60 (cb_to_g i))
      ≡ true
unfolding every cb_to_b cr_to_r cr_to_g cb_to_g
chroma-between i l =
    every-lt
      (λ n.
        between 260 260 (cb_to_b n)
        && between 260 260 (cr_to_r n)
        && between 110 110 (cr_to_g n)
        && between 60 60 (cb_to_g n))
      256 i refl l

clamped-lt : (z : ℤ) → clamped z < 256
clamped-lt (pos n) = ground arith
clamped-lt (negsuc n) = omega arith

channel-clamped : (z : ℤ) → between 400 600 z ≡ true → channel z ≡ clamped z
unfolding range_limit
channel-clamped (pos n) h = ground arith
channel-clamped (negsuc n) h = refl

between-add :
    (a b c d : ℕ) (x y : ℤ)
    → between a b x ≡ true
    → between c d y ≡ true
    → between (a + c) (b + d) (x +ℤ y) ≡ true
between-add a b c d (pos x) (pos y) h k = ground arith
between-add a b c d (pos x) (negsuc y) h k = ground arith
between-add a b c d (negsuc x) (pos y) h k = ground arith
between-add a b c d (negsuc x) (negsuc y) h k = ground arith

-- Whatever the samples of a pixel are, each of its colours is the sum of the parts that the luminance and
-- the chrominance give it, cut to 0 at the bottom and to 255 at the top.
pub pixel_of-clamped :
    (p : Yuv)
    → ((pixel_of p).blue ≡ clamped (y_table (clamped p.y) +ℤ cb_to_b (clamped p.cb)))
      × ((pixel_of p).green
          ≡ clamped ((y_table (clamped p.y) +ℤ cb_to_g (clamped p.cb)) +ℤ cr_to_g (clamped p.cr)))
      × ((pixel_of p).red ≡ clamped (y_table (clamped p.y) +ℤ cr_to_r (clamped p.cr)))
unfolding pixel_of
pixel_of-clamped p = (
  within 280 540 (y +ℤ cb_to_b (clamped p.cb)) (omega arith) (omega arith) blue,
  within 190 450 ((y +ℤ cb_to_g (clamped p.cb)) +ℤ cr_to_g (clamped p.cr)) (omega arith)
      (omega arith) green,
  within 280 540 (y +ℤ cr_to_r (clamped p.cr)) (omega arith) (omega arith) red,
)
  where
    y : ℤ
    y = y_table (clamped p.y)

    y_in : between 20 280 y ≡ true
    y_in = y_table-between (clamped p.y) (clamped-lt p.y)

    within : (a b : ℕ) (z : ℤ) → a ≤ 400 → b ≤ 600 → between a b z ≡ true → channel z ≡ clamped z
    within a b (pos n) l m h = channel-clamped (pos n) (ground arith)
    within a b (negsuc n) l m h = channel-clamped (negsuc n) (ground arith)

    blue : between 280 540 (y +ℤ cb_to_b (clamped p.cb)) ≡ true
    blue =
        between-add 20 280 260 260 y (cb_to_b (clamped p.cb)) y_in
          (ground (arith, chroma-between (clamped p.cb) (clamped-lt p.cb)))

    red : between 280 540 (y +ℤ cr_to_r (clamped p.cr)) ≡ true
    red =
        between-add 20 280 260 260 y (cr_to_r (clamped p.cr)) y_in
          (ground (arith, chroma-between (clamped p.cr) (clamped-lt p.cr)))

    green : between 190 450 ((y +ℤ cb_to_g (clamped p.cb)) +ℤ cr_to_g (clamped p.cr)) ≡ true
    green =
        between-add 80 340 110 110 (y +ℤ cb_to_g (clamped p.cb)) (cr_to_g (clamped p.cr))
          (between-add 20 280 60 60 y (cb_to_g (clamped p.cb)) y_in
            (ground (arith, chroma-between (clamped p.cb) (clamped-lt p.cb))))
          (ground (arith, chroma-between (clamped p.cr) (clamped-lt p.cr)))
