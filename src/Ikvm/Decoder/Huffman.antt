-- ===== src/Ikvm/Decoder/Huffman.antt =====
-- internal/ikvm/decompress.go: `decodeHuffmanDataUnit`, the coefficients of one block of 64.
use kvm_switcher.Prelude.{
  zero, nat_eq, ◌*◌, get_or, ◌+◌, ◌-ℤ◌, ◌+ℤ◌, true, int16, low_bits, false, ltb, ◌==◌, pos,
  if◌then◌else◌, ◌%◌, ◌/◌, suc, ℤ, ℕ,
}
use kvm_switcher.Ikvm.Decoder.Standard.{dezigzag}
use kvm_switcher.Ikvm.Decoder.Reader.{skip_kbits, look_kbits, get_kbits, Reader}
use kvm_switcher.Ikvm.Decoder.Tables.{ht_ac, ht_dc, HuffmanTable}
use kvm_switcher.Ikvm.Decoder.Loops.{assign, for_each}
use kvm_switcher.Ikvm.Decoder.State.{Decoder}

-- Reading one symbol: the length of the code by the fast lookup, then the symbol at its place among the
-- codes of that length. `byte(code - minor)` is cut to eight bits.
unfoldable pub decode_symbol : HuffmanTable → Reader → ℕ × Reader
decode_symbol ht r =
    let looked = ht.len (r.reg0 / 65_536 % 65_536) in
    let code_len = if looked == 0 then 1 else looked in
    let place = low_bits (look_kbits code_len r -ℤ ht.minor_code code_len) 8 in
    (ht.v (code_len * 256 + place) % 256, skip_kbits code_len r)

-- What the loop over the other coefficients keeps: the reader and the coefficients.
pub record DataUnit : Type 0 where
  pub bits : Reader
  pub coeff : ℕ → ℤ

-- From coefficient `k` on, at most `rounds` symbols.
unfoldable pub decode_ac : HuffmanTable → ℕ → ℕ → ℕ → DataUnit → DataUnit
decode_ac ht offset zero k u = u
decode_ac ht offset (suc rounds) k u =
    let (sym, bits) = decode_symbol ht u.bits in
    let size = sym % 16 in
    let run = sym / 16 % 16 in
    let (value, after) = get_kbits size bits in
    elim (ltb k 64) [
      | false ↦ u
      | true ↦ elim (size == 0) [
        | true ↦ elim (run == 15) [
          | false ↦ record u { bits = bits }
          | true ↦ decode_ac ht offset rounds (k + 16) (record u { bits = bits })
        ]
        | false ↦ elim (ltb (k + run) 64) [
          | true ↦ decode_ac ht offset rounds (k + run + 1) (record {
            bits = after;
            coeff = assign u.coeff (offset + get_or dezigzag (k + run) 0) value;
          })
          | false ↦ decode_ac ht offset rounds (k + run + 1) (record u { bits = bits })
        ]
      ]
    ]

-- The first coefficient, and the prediction for the next block.
abbrev pub decode_dc : HuffmanTable → ℤ → ℕ → DataUnit → ℤ × DataUnit
decode_dc ht dc_pred offset u =
    let (category, bits) = decode_symbol ht u.bits in
    let (diff, after) = get_kbits category bits in
    elim (category == 0) [
      | true ↦ (dc_pred, record { bits = bits; coeff = assign u.coeff offset dc_pred })
      | false ↦ (
        int16 (dc_pred +ℤ diff),
        record { bits = after; coeff = assign u.coeff offset (dc_pred +ℤ diff) },
      )
    ]

-- The loop over the other coefficients goes on by at least one of them a round, so 64 rounds are enough.
unfoldable pub decode_huffman_data_unit : ℕ → ℕ → ℤ → ℕ → Decoder → ℤ × Decoder
decode_huffman_data_unit dc_table ac_table dc_pred offset d =
    let cleared = for_each 64 offset (λ i c. assign c i (pos 0)) d.dct_coeff in
    let (pred, u) =
      decode_dc (ht_dc dc_table) dc_pred offset (record { bits = d.bits; coeff = cleared }) in
    let v = decode_ac (ht_ac ac_table) offset 64 1 u in
    (pred, record d { bits = v.bits; dct_coeff = v.coeff })
