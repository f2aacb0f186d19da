-- ===== src/Ikvm/Decoder/Standard.antt =====
-- internal/ikvm/tables.go: the scan orders and the Huffman tables of JPEG.
use kvm_switcher.Prelude.{[], ◌∷◌, List, ℕ}

abbrev pub zigzag : List ℕ
zigzag =
    0 ∷ 1 ∷ 5 ∷ 6 ∷ 14 ∷ 15 ∷ 27 ∷ 28 ∷ 2 ∷ 4 ∷ 7 ∷ 13 ∷ 16 ∷ 26 ∷ 29 ∷ 42 ∷ 3 ∷ 8 ∷ 12 ∷ 17 ∷ 25
    ∷ 30 ∷ 41 ∷ 43 ∷ 9 ∷ 11 ∷ 18 ∷ 24 ∷ 31 ∷ 40 ∷ 44 ∷ 53 ∷ 10 ∷ 19 ∷ 23 ∷ 32 ∷ 39 ∷ 45 ∷ 52 ∷ 54
    ∷ 20 ∷ 22 ∷ 33 ∷ 38 ∷ 46 ∷ 51 ∷ 55 ∷ 60 ∷ 21 ∷ 34 ∷ 37 ∷ 47 ∷ 50 ∷ 56 ∷ 59 ∷ 61 ∷ 35 ∷ 36 ∷ 48
    ∷ 49 ∷ 57 ∷ 58 ∷ 62 ∷ 63 ∷ []

abbrev pub dezigzag : List ℕ
dezigzag =
    0 ∷ 1 ∷ 8 ∷ 16 ∷ 9 ∷ 2 ∷ 3 ∷ 10 ∷ 17 ∷ 24 ∷ 32 ∷ 25 ∷ 18 ∷ 11 ∷ 4 ∷ 5 ∷ 12 ∷ 19 ∷ 26 ∷ 33 ∷ 40
    ∷ 48 ∷ 41 ∷ 34 ∷ 27 ∷ 20 ∷ 13 ∷ 6 ∷ 7 ∷ 14 ∷ 21 ∷ 28 ∷ 35 ∷ 42 ∷ 49 ∷ 56 ∷ 57 ∷ 50 ∷ 43 ∷ 36
    ∷ 29 ∷ 22 ∷ 15 ∷ 23 ∷ 30 ∷ 37 ∷ 44 ∷ 51 ∷ 58 ∷ 59 ∷ 52 ∷ 45 ∷ 38 ∷ 31 ∷ 39 ∷ 46 ∷ 53 ∷ 60 ∷ 61
    ∷ 54 ∷ 47 ∷ 55 ∷ 62 ∷ 63 ∷ []

abbrev pub std_dc_luminance_nr_codes : List ℕ
std_dc_luminance_nr_codes = 0 ∷ 0 ∷ 1 ∷ 5 ∷ 1 ∷ 1 ∷ 1 ∷ 1 ∷ 1 ∷ 1 ∷ 0 ∷ 0 ∷ 0 ∷ 0 ∷ 0 ∷ 0 ∷ 0 ∷ []

abbrev pub std_dc_luminance_values : List ℕ
std_dc_luminance_values = 0 ∷ 1 ∷ 2 ∷ 3 ∷ 4 ∷ 5 ∷ 6 ∷ 7 ∷ 8 ∷ 9 ∷ 10 ∷ 11 ∷ []

abbrev pub std_dc_chrominance_nr_codes : List ℕ
std_dc_chrominance_nr_codes = 0 ∷ 0 ∷ 3 ∷ 1 ∷ 1 ∷ 1 ∷ 1 ∷ 1 ∷ 1 ∷ 1 ∷ 1 ∷ 1 ∷ 0 ∷ 0 ∷ 0 ∷ 0 ∷ 0 ∷ []

abbrev pub std_dc_chrominance_values : List ℕ
std_dc_chrominance_values = 0 ∷ 1 ∷ 2 ∷ 3 ∷ 4 ∷ 5 ∷ 6 ∷ 7 ∷ 8 ∷ 9 ∷ 10 ∷ 11 ∷ []

abbrev pub std_ac_luminance_nr_codes : List ℕ
std_ac_luminance_nr_codes = 0 ∷ 0 ∷ 2 ∷ 1 ∷ 3 ∷ 3 ∷ 2 ∷ 4 ∷ 3 ∷ 5 ∷ 5 ∷ 4 ∷ 4 ∷ 0 ∷ 0 ∷ 1 ∷ 125 ∷ []

abbrev pub std_ac_luminance_values : List ℕ
std_ac_luminance_values =
    1 ∷ 2 ∷ 3 ∷ 0 ∷ 4 ∷ 17 ∷ 5 ∷ 18 ∷ 33 ∷ 49 ∷ 65 ∷ 6 ∷ 19 ∷ 81 ∷ 97 ∷ 7 ∷ 34 ∷ 113 ∷ 20 ∷ 50 ∷ 129
    ∷ 145 ∷ 161 ∷ 8 ∷ 35 ∷ 66 ∷ 177 ∷ 193 ∷ 21 ∷ 82 ∷ 209 ∷ 240 ∷ 36 ∷ 51 ∷ 98 ∷ 114 ∷ 130 ∷ 9 ∷ 10
    ∷ 22 ∷ 23 ∷ 24 ∷ 25 ∷ 26 ∷ 37 ∷ 38 ∷ 39 ∷ 40 ∷ 41 ∷ 42 ∷ 52 ∷ 53 ∷ 54 ∷ 55 ∷ 56 ∷ 57 ∷ 58 ∷ 67
    ∷ 68 ∷ 69 ∷ 70 ∷ 71 ∷ 72 ∷ 73 ∷ 74 ∷ 83 ∷ 84 ∷ 85 ∷ 86 ∷ 87 ∷ 88 ∷ 89 ∷ 90 ∷ 99 ∷ 100 ∷ 101
    ∷ 102 ∷ 103 ∷ 104 ∷ 105 ∷ 106 ∷ 115 ∷ 116 ∷ 117 ∷ 118 ∷ 119 ∷ 120 ∷ 121 ∷ 122 ∷ 131 ∷ 132 ∷ 133
    ∷ 134 ∷ 135 ∷ 136 ∷ 137 ∷ 138 ∷ 146 ∷ 147 ∷ 148 ∷ 149 ∷ 150 ∷ 151 ∷ 152 ∷ 153 ∷ 154 ∷ 162 ∷ 163
    ∷ 164 ∷ 165 ∷ 166 ∷ 167 ∷ 168 ∷ 169 ∷ 170 ∷ 178 ∷ 179 ∷ 180 ∷ 181 ∷ 182 ∷ 183 ∷ 184 ∷ 185 ∷ 186
    ∷ 194 ∷ 195 ∷ 196 ∷ 197 ∷ 198 ∷ 199 ∷ 200 ∷ 201 ∷ 202 ∷ 210 ∷ 211 ∷ 212 ∷ 213 ∷ 214 ∷ 215 ∷ 216
    ∷ 217 ∷ 218 ∷ 225 ∷ 226 ∷ 227 ∷ 228 ∷ 229 ∷ 230 ∷ 231 ∷ 232 ∷ 233 ∷ 234 ∷ 241 ∷ 242 ∷ 243 ∷ 244
    ∷ 245 ∷ 246 ∷ 247 ∷ 248 ∷ 249 ∷ 250 ∷ []

abbrev pub std_ac_chrominance_nr_codes : List ℕ
std_ac_chrominance_nr_codes =
    0 ∷ 0 ∷ 2 ∷ 1 ∷ 2 ∷ 4 ∷ 4 ∷ 3 ∷ 4 ∷ 7 ∷ 5 ∷ 4 ∷ 4 ∷ 0 ∷ 1 ∷ 2 ∷ 119 ∷ []

abbrev pub std_ac_chrominance_values : List ℕ
std_ac_chrominance_values =
    0 ∷ 1 ∷ 2 ∷ 3 ∷ 17 ∷ 4 ∷ 5 ∷ 33 ∷ 49 ∷ 6 ∷ 18 ∷ 65 ∷ 81 ∷ 7 ∷ 97 ∷ 113 ∷ 19 ∷ 34 ∷ 50 ∷ 129 ∷ 8
    ∷ 20 ∷ 66 ∷ 145 ∷ 161 ∷ 177 ∷ 193 ∷ 9 ∷ 35 ∷ 51 ∷ 82 ∷ 240 ∷ 21 ∷ 98 ∷ 114 ∷ 209 ∷ 10 ∷ 22 ∷ 36
    ∷ 52 ∷ 225 ∷ 37 ∷ 241 ∷ 23 ∷ 24 ∷ 25 ∷ 26 ∷ 38 ∷ 39 ∷ 40 ∷ 41 ∷ 42 ∷ 53 ∷ 54 ∷ 55 ∷ 56 ∷ 57 ∷ 58
    ∷ 67 ∷ 68 ∷ 69 ∷ 70 ∷ 71 ∷ 72 ∷ 73 ∷ 74 ∷ 83 ∷ 84 ∷ 85 ∷ 86 ∷ 87 ∷ 88 ∷ 89 ∷ 90 ∷ 99 ∷ 100 ∷ 101
    ∷ 102 ∷ 103 ∷ 104 ∷ 105 ∷ 106 ∷ 115 ∷ 116 ∷ 117 ∷ 118 ∷ 119 ∷ 120 ∷ 121 ∷ 122 ∷ 130 ∷ 131 ∷ 132
    ∷ 133 ∷ 134 ∷ 135 ∷ 136 ∷ 137 ∷ 138 ∷ 146 ∷ 147 ∷ 148 ∷ 149 ∷ 150 ∷ 151 ∷ 152 ∷ 153 ∷ 154 ∷ 162
    ∷ 163 ∷ 164 ∷ 165 ∷ 166 ∷ 167 ∷ 168 ∷ 169 ∷ 170 ∷ 178 ∷ 179 ∷ 180 ∷ 181 ∷ 182 ∷ 183 ∷ 184 ∷ 185
    ∷ 186 ∷ 194 ∷ 195 ∷ 196 ∷ 197 ∷ 198 ∷ 199 ∷ 200 ∷ 201 ∷ 202 ∷ 210 ∷ 211 ∷ 212 ∷ 213 ∷ 214 ∷ 215
    ∷ 216 ∷ 217 ∷ 218 ∷ 226 ∷ 227 ∷ 228 ∷ 229 ∷ 230 ∷ 231 ∷ 232 ∷ 233 ∷ 234 ∷ 242 ∷ 243 ∷ 244 ∷ 245
    ∷ 246 ∷ 247 ∷ 248 ∷ 249 ∷ 250 ∷ []

abbrev pub dc_luminance_huffman_code : List ℕ
dc_luminance_huffman_code =
    0 ∷ 0 ∷ 16_384 ∷ 2 ∷ 24_576 ∷ 3 ∷ 32_768 ∷ 3 ∷ 40_960 ∷ 3 ∷ 49_152 ∷ 3 ∷ 57_344 ∷ 3 ∷ 61_440 ∷ 4
    ∷ 63_488 ∷ 5 ∷ 64_512 ∷ 6 ∷ 65_024 ∷ 7 ∷ 65_280 ∷ 8 ∷ 65_535 ∷ 9 ∷ []

abbrev pub dc_chrominance_huffman_code : List ℕ
dc_chrominance_huffman_code =
    0 ∷ 0 ∷ 16_384 ∷ 2 ∷ 32_768 ∷ 2 ∷ 49_152 ∷ 2 ∷ 57_344 ∷ 3 ∷ 61_440 ∷ 4 ∷ 63_488 ∷ 5 ∷ 64_512 ∷ 6
    ∷ 65_024 ∷ 7 ∷ 65_280 ∷ 8 ∷ 65_408 ∷ 9 ∷ 65_472 ∷ 10 ∷ 65_535 ∷ 11 ∷ []

abbrev pub ac_luminance_huffman_code : List ℕ
ac_luminance_huffman_code =
    0 ∷ 0 ∷ 16_384 ∷ 2 ∷ 32_768 ∷ 2 ∷ 40_960 ∷ 3 ∷ 45_056 ∷ 4 ∷ 49_152 ∷ 4 ∷ 53_248 ∷ 4 ∷ 55_296 ∷ 5
    ∷ 57_344 ∷ 5 ∷ 59_392 ∷ 5 ∷ 60_416 ∷ 6 ∷ 61_440 ∷ 6 ∷ 61_952 ∷ 7 ∷ 62_464 ∷ 7 ∷ 62_976 ∷ 7
    ∷ 63_488 ∷ 7 ∷ 63_744 ∷ 8 ∷ 64_000 ∷ 8 ∷ 64_256 ∷ 8 ∷ 64_384 ∷ 9 ∷ 64_512 ∷ 9 ∷ 64_640 ∷ 9
    ∷ 64_768 ∷ 9 ∷ 64_896 ∷ 9 ∷ 64_960 ∷ 10 ∷ 65_024 ∷ 10 ∷ 65_088 ∷ 10 ∷ 65_152 ∷ 10 ∷ 65_216 ∷ 10
    ∷ 65_248 ∷ 11 ∷ 65_280 ∷ 11 ∷ 65_312 ∷ 11 ∷ 65_344 ∷ 11 ∷ 65_360 ∷ 12 ∷ 65_376 ∷ 12 ∷ 65_392
    ∷ 12 ∷ 65_408 ∷ 12 ∷ 65_410 ∷ 15 ∷ 65_535 ∷ 16 ∷ []

abbrev pub ac_chrominance_huffman_code : List ℕ
ac_chrominance_huffman_code =
    0 ∷ 0 ∷ 16_384 ∷ 2 ∷ 32_768 ∷ 2 ∷ 40_960 ∷ 3 ∷ 45_056 ∷ 4 ∷ 49_152 ∷ 4 ∷ 51_200 ∷ 5 ∷ 53_248 ∷ 5
    ∷ 55_296 ∷ 5 ∷ 57_344 ∷ 5 ∷ 58_368 ∷ 6 ∷ 59_392 ∷ 6 ∷ 60_416 ∷ 6 ∷ 61_440 ∷ 6 ∷ 61_952 ∷ 7
    ∷ 62_464 ∷ 7 ∷ 62_976 ∷ 7 ∷ 63_232 ∷ 8 ∷ 63_488 ∷ 8 ∷ 63_744 ∷ 8 ∷ 64_000 ∷ 8 ∷ 64_128 ∷ 9
    ∷ 64_256 ∷ 9 ∷ 64_384 ∷ 9 ∷ 64_512 ∷ 9 ∷ 64_640 ∷ 9 ∷ 64_768 ∷ 9 ∷ 64_896 ∷ 9 ∷ 64_960 ∷ 10
    ∷ 65_024 ∷ 10 ∷ 65_088 ∷ 10 ∷ 65_152 ∷ 10 ∷ 65_216 ∷ 10 ∷ 65_248 ∷ 11 ∷ 65_280 ∷ 11 ∷ 65_312
    ∷ 11 ∷ 65_344 ∷ 11 ∷ 65_360 ∷ 12 ∷ 65_376 ∷ 12 ∷ 65_392 ∷ 12 ∷ 65_408 ∷ 12 ∷ 65_412 ∷ 14
    ∷ 65_414 ∷ 15 ∷ 65_416 ∷ 15 ∷ 65_535 ∷ 16 ∷ []
