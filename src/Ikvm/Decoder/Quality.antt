-- ===== src/Ikvm/Decoder/Quality.antt =====
-- internal/ikvm/tables.go: the quantization tables, eight qualities of luminance and of chrominance.
use kvm_switcher.Prelude.{[], ◌∷◌, List, ℕ}

abbrev pub tbl000_y : List ℕ
tbl000_y =
    20 ∷ 13 ∷ 12 ∷ 20 ∷ 30 ∷ 50 ∷ 63 ∷ 76 ∷ 15 ∷ 15 ∷ 17 ∷ 23 ∷ 32 ∷ 72 ∷ 75 ∷ 68 ∷ 17 ∷ 16 ∷ 20
    ∷ 30 ∷ 50 ∷ 71 ∷ 86 ∷ 70 ∷ 17 ∷ 21 ∷ 27 ∷ 36 ∷ 63 ∷ 108 ∷ 100 ∷ 77 ∷ 22 ∷ 27 ∷ 46 ∷ 70 ∷ 85
    ∷ 136 ∷ 128 ∷ 96 ∷ 30 ∷ 43 ∷ 68 ∷ 80 ∷ 101 ∷ 130 ∷ 141 ∷ 115 ∷ 61 ∷ 80 ∷ 97 ∷ 108 ∷ 128 ∷ 151
    ∷ 150 ∷ 126 ∷ 90 ∷ 115 ∷ 118 ∷ 122 ∷ 140 ∷ 125 ∷ 128 ∷ 123 ∷ []

abbrev pub tbl014_y : List ℕ
tbl014_y =
    17 ∷ 12 ∷ 10 ∷ 17 ∷ 26 ∷ 43 ∷ 55 ∷ 66 ∷ 13 ∷ 13 ∷ 15 ∷ 20 ∷ 28 ∷ 63 ∷ 65 ∷ 60 ∷ 15 ∷ 14 ∷ 17
    ∷ 26 ∷ 43 ∷ 62 ∷ 75 ∷ 61 ∷ 15 ∷ 18 ∷ 24 ∷ 31 ∷ 55 ∷ 95 ∷ 87 ∷ 67 ∷ 19 ∷ 24 ∷ 40 ∷ 61 ∷ 74 ∷ 119
    ∷ 112 ∷ 84 ∷ 26 ∷ 38 ∷ 60 ∷ 70 ∷ 88 ∷ 113 ∷ 123 ∷ 100 ∷ 53 ∷ 70 ∷ 85 ∷ 95 ∷ 112 ∷ 132 ∷ 131
    ∷ 110 ∷ 78 ∷ 100 ∷ 103 ∷ 107 ∷ 122 ∷ 109 ∷ 112 ∷ 108 ∷ []

abbrev pub tbl029_y : List ℕ
tbl029_y =
    14 ∷ 9 ∷ 9 ∷ 14 ∷ 21 ∷ 36 ∷ 46 ∷ 55 ∷ 10 ∷ 10 ∷ 12 ∷ 17 ∷ 23 ∷ 52 ∷ 54 ∷ 49 ∷ 12 ∷ 11 ∷ 14 ∷ 21
    ∷ 36 ∷ 51 ∷ 62 ∷ 50 ∷ 12 ∷ 15 ∷ 19 ∷ 26 ∷ 46 ∷ 78 ∷ 72 ∷ 56 ∷ 16 ∷ 19 ∷ 33 ∷ 50 ∷ 61 ∷ 98 ∷ 93
    ∷ 69 ∷ 21 ∷ 31 ∷ 49 ∷ 58 ∷ 73 ∷ 94 ∷ 102 ∷ 83 ∷ 44 ∷ 58 ∷ 70 ∷ 78 ∷ 93 ∷ 109 ∷ 108 ∷ 91 ∷ 65
    ∷ 83 ∷ 86 ∷ 88 ∷ 101 ∷ 90 ∷ 93 ∷ 89 ∷ []

abbrev pub tbl043_y : List ℕ
tbl043_y =
    11 ∷ 7 ∷ 7 ∷ 11 ∷ 17 ∷ 28 ∷ 36 ∷ 43 ∷ 8 ∷ 8 ∷ 10 ∷ 13 ∷ 18 ∷ 41 ∷ 43 ∷ 39 ∷ 10 ∷ 9 ∷ 11 ∷ 17
    ∷ 28 ∷ 40 ∷ 49 ∷ 40 ∷ 10 ∷ 12 ∷ 15 ∷ 20 ∷ 36 ∷ 62 ∷ 57 ∷ 44 ∷ 12 ∷ 15 ∷ 26 ∷ 40 ∷ 48 ∷ 78 ∷ 74
    ∷ 55 ∷ 17 ∷ 25 ∷ 39 ∷ 46 ∷ 58 ∷ 74 ∷ 81 ∷ 66 ∷ 35 ∷ 46 ∷ 56 ∷ 62 ∷ 74 ∷ 86 ∷ 86 ∷ 72 ∷ 51 ∷ 66
    ∷ 68 ∷ 70 ∷ 80 ∷ 71 ∷ 74 ∷ 71 ∷ []

abbrev pub tbl057_y : List ℕ
tbl057_y =
    9 ∷ 6 ∷ 5 ∷ 9 ∷ 13 ∷ 22 ∷ 28 ∷ 34 ∷ 6 ∷ 6 ∷ 7 ∷ 10 ∷ 14 ∷ 32 ∷ 33 ∷ 30 ∷ 7 ∷ 7 ∷ 9 ∷ 13 ∷ 22
    ∷ 32 ∷ 38 ∷ 31 ∷ 7 ∷ 9 ∷ 12 ∷ 16 ∷ 28 ∷ 48 ∷ 45 ∷ 34 ∷ 10 ∷ 12 ∷ 20 ∷ 31 ∷ 38 ∷ 61 ∷ 57 ∷ 43
    ∷ 13 ∷ 19 ∷ 30 ∷ 36 ∷ 45 ∷ 58 ∷ 63 ∷ 51 ∷ 27 ∷ 36 ∷ 43 ∷ 48 ∷ 57 ∷ 68 ∷ 67 ∷ 56 ∷ 40 ∷ 51 ∷ 53
    ∷ 55 ∷ 63 ∷ 56 ∷ 57 ∷ 55 ∷ []

abbrev pub tbl071_y : List ℕ
tbl071_y =
    6 ∷ 4 ∷ 3 ∷ 6 ∷ 9 ∷ 15 ∷ 19 ∷ 22 ∷ 4 ∷ 4 ∷ 5 ∷ 7 ∷ 9 ∷ 21 ∷ 22 ∷ 20 ∷ 5 ∷ 4 ∷ 6 ∷ 9 ∷ 15 ∷ 21
    ∷ 25 ∷ 21 ∷ 5 ∷ 6 ∷ 8 ∷ 10 ∷ 19 ∷ 32 ∷ 30 ∷ 23 ∷ 6 ∷ 8 ∷ 13 ∷ 21 ∷ 25 ∷ 40 ∷ 38 ∷ 28 ∷ 9 ∷ 13
    ∷ 20 ∷ 24 ∷ 30 ∷ 39 ∷ 42 ∷ 34 ∷ 18 ∷ 24 ∷ 29 ∷ 32 ∷ 38 ∷ 45 ∷ 45 ∷ 37 ∷ 27 ∷ 34 ∷ 35 ∷ 36 ∷ 42
    ∷ 37 ∷ 38 ∷ 37 ∷ []

abbrev pub tbl086_y : List ℕ
tbl086_y =
    3 ∷ 2 ∷ 1 ∷ 3 ∷ 4 ∷ 7 ∷ 9 ∷ 11 ∷ 2 ∷ 2 ∷ 2 ∷ 3 ∷ 4 ∷ 10 ∷ 11 ∷ 10 ∷ 2 ∷ 2 ∷ 3 ∷ 4 ∷ 7 ∷ 10 ∷ 12
    ∷ 10 ∷ 2 ∷ 3 ∷ 4 ∷ 5 ∷ 9 ∷ 16 ∷ 15 ∷ 11 ∷ 3 ∷ 4 ∷ 6 ∷ 10 ∷ 12 ∷ 20 ∷ 19 ∷ 14 ∷ 4 ∷ 6 ∷ 10 ∷ 12
    ∷ 15 ∷ 19 ∷ 21 ∷ 17 ∷ 9 ∷ 12 ∷ 14 ∷ 16 ∷ 19 ∷ 22 ∷ 22 ∷ 18 ∷ 13 ∷ 17 ∷ 17 ∷ 18 ∷ 21 ∷ 18 ∷ 19
    ∷ 18 ∷ []

abbrev pub tbl100_y : List ℕ
tbl100_y =
    2 ∷ 1 ∷ 1 ∷ 2 ∷ 3 ∷ 5 ∷ 6 ∷ 7 ∷ 1 ∷ 1 ∷ 1 ∷ 2 ∷ 3 ∷ 7 ∷ 7 ∷ 6 ∷ 1 ∷ 1 ∷ 2 ∷ 3 ∷ 5 ∷ 7 ∷ 8 ∷ 7
    ∷ 1 ∷ 2 ∷ 2 ∷ 3 ∷ 6 ∷ 10 ∷ 10 ∷ 7 ∷ 2 ∷ 2 ∷ 4 ∷ 7 ∷ 8 ∷ 13 ∷ 12 ∷ 9 ∷ 3 ∷ 4 ∷ 6 ∷ 8 ∷ 10 ∷ 13
    ∷ 14 ∷ 11 ∷ 6 ∷ 8 ∷ 9 ∷ 10 ∷ 12 ∷ 15 ∷ 15 ∷ 12 ∷ 9 ∷ 11 ∷ 11 ∷ 12 ∷ 14 ∷ 12 ∷ 12 ∷ 12 ∷ []

abbrev pub tbl000_uv : List ℕ
tbl000_uv =
    31 ∷ 33 ∷ 45 ∷ 88 ∷ 185 ∷ 185 ∷ 185 ∷ 185 ∷ 33 ∷ 39 ∷ 48 ∷ 123 ∷ 185 ∷ 185 ∷ 185 ∷ 185 ∷ 45 ∷ 48
    ∷ 105 ∷ 185 ∷ 185 ∷ 185 ∷ 185 ∷ 185 ∷ 88 ∷ 123 ∷ 185 ∷ 185 ∷ 185 ∷ 185 ∷ 185 ∷ 185 ∷ 185 ∷ 185
    ∷ 185 ∷ 185 ∷ 185 ∷ 185 ∷ 185 ∷ 185 ∷ 185 ∷ 185 ∷ 185 ∷ 185 ∷ 185 ∷ 185 ∷ 185 ∷ 185 ∷ 185 ∷ 185
    ∷ 185 ∷ 185 ∷ 185 ∷ 185 ∷ 185 ∷ 185 ∷ 185 ∷ 185 ∷ 185 ∷ 185 ∷ 185 ∷ 185 ∷ 185 ∷ 185 ∷ []

abbrev pub tbl014_uv : List ℕ
tbl014_uv =
    27 ∷ 29 ∷ 39 ∷ 76 ∷ 160 ∷ 160 ∷ 160 ∷ 160 ∷ 29 ∷ 34 ∷ 42 ∷ 107 ∷ 160 ∷ 160 ∷ 160 ∷ 160 ∷ 39 ∷ 42
    ∷ 91 ∷ 160 ∷ 160 ∷ 160 ∷ 160 ∷ 160 ∷ 76 ∷ 107 ∷ 160 ∷ 160 ∷ 160 ∷ 160 ∷ 160 ∷ 160 ∷ 160 ∷ 160
    ∷ 160 ∷ 160 ∷ 160 ∷ 160 ∷ 160 ∷ 160 ∷ 160 ∷ 160 ∷ 160 ∷ 160 ∷ 160 ∷ 160 ∷ 160 ∷ 160 ∷ 160 ∷ 160
    ∷ 160 ∷ 160 ∷ 160 ∷ 160 ∷ 160 ∷ 160 ∷ 160 ∷ 160 ∷ 160 ∷ 160 ∷ 160 ∷ 160 ∷ 160 ∷ 160 ∷ []

abbrev pub tbl029_uv : List ℕ
tbl029_uv =
    22 ∷ 24 ∷ 32 ∷ 63 ∷ 133 ∷ 133 ∷ 133 ∷ 133 ∷ 24 ∷ 28 ∷ 34 ∷ 88 ∷ 133 ∷ 133 ∷ 133 ∷ 133 ∷ 32 ∷ 34
    ∷ 75 ∷ 133 ∷ 133 ∷ 133 ∷ 133 ∷ 133 ∷ 63 ∷ 88 ∷ 133 ∷ 133 ∷ 133 ∷ 133 ∷ 133 ∷ 133 ∷ 133 ∷ 133
    ∷ 133 ∷ 133 ∷ 133 ∷ 133 ∷ 133 ∷ 133 ∷ 133 ∷ 133 ∷ 133 ∷ 133 ∷ 133 ∷ 133 ∷ 133 ∷ 133 ∷ 133 ∷ 133
    ∷ 133 ∷ 133 ∷ 133 ∷ 133 ∷ 133 ∷ 133 ∷ 133 ∷ 133 ∷ 133 ∷ 133 ∷ 133 ∷ 133 ∷ 133 ∷ 133 ∷ []

abbrev pub tbl043_uv : List ℕ
tbl043_uv =
    18 ∷ 19 ∷ 26 ∷ 51 ∷ 108 ∷ 108 ∷ 108 ∷ 108 ∷ 19 ∷ 22 ∷ 28 ∷ 72 ∷ 108 ∷ 108 ∷ 108 ∷ 108 ∷ 26 ∷ 28
    ∷ 61 ∷ 108 ∷ 108 ∷ 108 ∷ 108 ∷ 108 ∷ 51 ∷ 72 ∷ 108 ∷ 108 ∷ 108 ∷ 108 ∷ 108 ∷ 108 ∷ 108 ∷ 108
    ∷ 108 ∷ 108 ∷ 108 ∷ 108 ∷ 108 ∷ 108 ∷ 108 ∷ 108 ∷ 108 ∷ 108 ∷ 108 ∷ 108 ∷ 108 ∷ 108 ∷ 108 ∷ 108
    ∷ 108 ∷ 108 ∷ 108 ∷ 108 ∷ 108 ∷ 108 ∷ 108 ∷ 108 ∷ 108 ∷ 108 ∷ 108 ∷ 108 ∷ 108 ∷ 108 ∷ []

abbrev pub tbl057_uv : List ℕ
tbl057_uv =
    13 ∷ 14 ∷ 19 ∷ 38 ∷ 80 ∷ 80 ∷ 80 ∷ 80 ∷ 14 ∷ 17 ∷ 21 ∷ 53 ∷ 80 ∷ 80 ∷ 80 ∷ 80 ∷ 19 ∷ 21 ∷ 45
    ∷ 80 ∷ 80 ∷ 80 ∷ 80 ∷ 80 ∷ 38 ∷ 53 ∷ 80 ∷ 80 ∷ 80 ∷ 80 ∷ 80 ∷ 80 ∷ 80 ∷ 80 ∷ 80 ∷ 80 ∷ 80 ∷ 80
    ∷ 80 ∷ 80 ∷ 80 ∷ 80 ∷ 80 ∷ 80 ∷ 80 ∷ 80 ∷ 80 ∷ 80 ∷ 80 ∷ 80 ∷ 80 ∷ 80 ∷ 80 ∷ 80 ∷ 80 ∷ 80 ∷ 80
    ∷ 80 ∷ 80 ∷ 80 ∷ 80 ∷ 80 ∷ 80 ∷ 80 ∷ []

abbrev pub tbl071_uv : List ℕ
tbl071_uv =
    9 ∷ 10 ∷ 13 ∷ 26 ∷ 55 ∷ 55 ∷ 55 ∷ 55 ∷ 10 ∷ 11 ∷ 14 ∷ 37 ∷ 55 ∷ 55 ∷ 55 ∷ 55 ∷ 13 ∷ 14 ∷ 31 ∷ 55
    ∷ 55 ∷ 55 ∷ 55 ∷ 55 ∷ 26 ∷ 37 ∷ 55 ∷ 55 ∷ 55 ∷ 55 ∷ 55 ∷ 55 ∷ 55 ∷ 55 ∷ 55 ∷ 55 ∷ 55 ∷ 55 ∷ 55
    ∷ 55 ∷ 55 ∷ 55 ∷ 55 ∷ 55 ∷ 55 ∷ 55 ∷ 55 ∷ 55 ∷ 55 ∷ 55 ∷ 55 ∷ 55 ∷ 55 ∷ 55 ∷ 55 ∷ 55 ∷ 55 ∷ 55
    ∷ 55 ∷ 55 ∷ 55 ∷ 55 ∷ 55 ∷ 55 ∷ []

abbrev pub tbl086_uv : List ℕ
tbl086_uv =
    4 ∷ 5 ∷ 6 ∷ 13 ∷ 27 ∷ 27 ∷ 27 ∷ 27 ∷ 5 ∷ 5 ∷ 7 ∷ 18 ∷ 27 ∷ 27 ∷ 27 ∷ 27 ∷ 6 ∷ 7 ∷ 15 ∷ 27 ∷ 27
    ∷ 27 ∷ 27 ∷ 27 ∷ 13 ∷ 18 ∷ 27 ∷ 27 ∷ 27 ∷ 27 ∷ 27 ∷ 27 ∷ 27 ∷ 27 ∷ 27 ∷ 27 ∷ 27 ∷ 27 ∷ 27 ∷ 27
    ∷ 27 ∷ 27 ∷ 27 ∷ 27 ∷ 27 ∷ 27 ∷ 27 ∷ 27 ∷ 27 ∷ 27 ∷ 27 ∷ 27 ∷ 27 ∷ 27 ∷ 27 ∷ 27 ∷ 27 ∷ 27 ∷ 27
    ∷ 27 ∷ 27 ∷ 27 ∷ 27 ∷ 27 ∷ []

abbrev pub tbl100_uv : List ℕ
tbl100_uv =
    3 ∷ 3 ∷ 4 ∷ 8 ∷ 18 ∷ 18 ∷ 18 ∷ 18 ∷ 3 ∷ 3 ∷ 4 ∷ 12 ∷ 18 ∷ 18 ∷ 18 ∷ 18 ∷ 4 ∷ 4 ∷ 10 ∷ 18 ∷ 18
    ∷ 18 ∷ 18 ∷ 18 ∷ 8 ∷ 12 ∷ 18 ∷ 18 ∷ 18 ∷ 18 ∷ 18 ∷ 18 ∷ 18 ∷ 18 ∷ 18 ∷ 18 ∷ 18 ∷ 18 ∷ 18 ∷ 18
    ∷ 18 ∷ 18 ∷ 18 ∷ 18 ∷ 18 ∷ 18 ∷ 18 ∷ 18 ∷ 18 ∷ 18 ∷ 18 ∷ 18 ∷ 18 ∷ 18 ∷ 18 ∷ 18 ∷ 18 ∷ 18 ∷ 18
    ∷ 18 ∷ 18 ∷ 18 ∷ 18 ∷ 18 ∷ []
