-- ===== src/Ikvm/Decoder/Quantization.antt =====
-- internal/ikvm/decompress.go: the quantization tables of a frame. `aan q row col` stands for Go's float32
-- product of `q` with the scales of the row and the column, cut to an int.
use kvm_switcher.Ikvm.Decoder.Quality.{
  tbl100_y, tbl100_uv, tbl086_y, tbl086_uv, tbl071_y, tbl071_uv, tbl057_y, tbl057_uv, tbl043_y,
  tbl043_uv, tbl029_uv, tbl029_y, tbl014_y, tbl014_uv, tbl000_y, tbl000_uv,
}
use kvm_switcher.Prelude.{
  ◌+◌, nat_eq, ◌*◌, minus, ◌-◌, negsuc, ◌%◌, ltb, zero, ◌*ℤ◌, ◌==◌, ◌/◌, pos, if◌then◌else◌, get_or,
  suc, List, ℤ, ℕ,
}
use kvm_switcher.Ikvm.Decoder.Loops.{assign, for_each}
use kvm_switcher.Ikvm.Decoder.Standard.{zigzag}

-- `int8(b)`, and `/` of Go, which rounds toward zero.
abbrev pub int8 : ℕ → ℤ
int8 b = if ltb b 128 then pos b else negsuc (255 - b)

abbrev pub div_int : ℤ → ℕ → ℤ
div_int (pos a) d = pos (a / d)
div_int (negsuc a) d = minus 0 ((a + 1) / d)

-- `v <= 0` becomes 1 and `v > 255` becomes 255.
abbrev pub limited : ℤ → ℕ
limited (pos v) = if v == 0 then 1 else if ltb 255 v then 255 else v
limited (negsuc v) = 1

unfoldable pub quantizer : List ℕ → ℕ → ℕ → ℕ
quantizer src_table scale_factor i =
    limited (div_int (int8 (get_or src_table i 0) *ℤ pos 16) scale_factor)

unfoldable pub set_quantization_table : List ℕ → ℕ → ℕ → ℕ
set_quantization_table src_table scale_factor =
    for_each 64 0 (λ i out. assign out (get_or zigzag i 0) (quantizer src_table scale_factor i))
      (λ _. 0)

unfoldable pub build_qt : (ℕ → ℕ → ℕ → ℕ) → List ℕ → ℕ → ℕ → ℤ
build_qt aan table scale_factor n =
    let scaled = set_quantization_table table scale_factor (get_or zigzag n 0) in
    pos (aan scaled (n / 8) (n % 8) * 65_536)

unfoldable pub select_luminance_table : ℕ → List ℕ
select_luminance_table sel =
    if sel == 0
    then tbl000_y
    else if sel == 1
    then tbl014_y
    else if sel == 2
    then tbl029_y
    else if sel == 3
    then tbl043_y
    else if sel == 4
    then tbl057_y
    else if sel == 5
    then tbl071_y
    else if sel == 6
    then tbl086_y
    else if sel == 7
    then tbl100_y
    else tbl000_y

unfoldable pub select_chrominance_table : ℕ → ℕ → List ℕ
select_chrominance_table sel mapping =
    if mapping == 1
    then select_luminance_table sel
    else if sel == 0
    then tbl000_uv
    else if sel == 1
    then tbl014_uv
    else if sel == 2
    then tbl029_uv
    else if sel == 3
    then tbl043_uv
    else if sel == 4
    then tbl057_uv
    else if sel == 5
    then tbl071_uv
    else if sel == 6
    then tbl086_uv
    else if sel == 7
    then tbl100_uv
    else tbl000_uv

-- The four tables of a frame, all with the scale factor 16: those of the selector, and of the advance
-- selector for the second pass.
unfoldable pub frame_qt : (ℕ → ℕ → ℕ → ℕ) → ℕ → ℕ → ℕ → ℕ → ℕ → ℤ
frame_qt aan selector advance_selector mapping zero =
    build_qt aan (select_luminance_table selector) 16
frame_qt aan selector advance_selector mapping (suc zero) =
    build_qt aan (select_chrominance_table selector mapping) 16
frame_qt aan selector advance_selector mapping (suc (suc zero)) =
    build_qt aan (select_luminance_table advance_selector) 16
frame_qt aan selector advance_selector mapping (suc (suc (suc n))) =
    build_qt aan (select_chrominance_table advance_selector mapping) 16
