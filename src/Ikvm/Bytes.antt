-- ===== src/Ikvm/Bytes.antt =====
-- encoding/binary: numbers as bytes, and the bytes of a slice. Reading beyond the end of a slice gives
-- 0 here, where Go panics; the code tests the length first.
use kvm_switcher.Prelude.{arith, ◌*◌, ◌≡◌, [], ◌∷◌, ◌/◌, List, ◌%◌, ◌<◌, ◌+◌, get_or, ℕ}

abbrev pub Bytes : Type 0
Bytes = List ℕ

-- PutUint16 and PutUint32 of encoding/binary, the low byte first.
abbrev pub le16 : ℕ → Bytes
le16 n = n % 256 ∷ n / 256 % 256 ∷ []

abbrev pub le32 : ℕ → Bytes
le32 n = n % 256 ∷ n / 256 % 256 ∷ n / 65_536 % 256 ∷ n / 16_777_216 % 256 ∷ []

-- The high byte first.
abbrev pub be16 : ℕ → Bytes
be16 n = n / 256 % 256 ∷ n % 256 ∷ []

abbrev pub be32 : ℕ → Bytes
be32 n = n / 16_777_216 % 256 ∷ n / 65_536 % 256 ∷ n / 256 % 256 ∷ n % 256 ∷ []

-- `data[i]`
abbrev pub at : Bytes → ℕ → ℕ
at bs i = get_or bs i 0

abbrev pub u16 : ℕ → ℕ → ℕ
u16 a b = a + 256 * b

abbrev pub u32 : ℕ → ℕ → ℕ → ℕ → ℕ
u32 a b c d = a + 256 * b + 65_536 * c + 16_777_216 * d

-- Reading in order: the number at the front and the rest.
abbrev pub r8 : Bytes → ℕ × Bytes
r8 [] = (0, [])
r8 (a ∷ bs) = (a, bs)

abbrev pub r16 : Bytes → ℕ × Bytes
r16 (a ∷ b ∷ bs) = (u16 a b, bs)
r16 (a ∷ []) = (0, [])
r16 [] = (0, [])

abbrev pub r32 : Bytes → ℕ × Bytes
r32 (a ∷ b ∷ c ∷ d ∷ bs) = (u32 a b c d, bs)
r32 (a ∷ b ∷ c ∷ []) = (0, [])
r32 (a ∷ b ∷ []) = (0, [])
r32 (a ∷ []) = (0, [])
r32 [] = (0, [])

-- Every number is a byte.
abbrev pub AreBytes : Bytes → Type 0
AreBytes [] = Unit {0}
AreBytes (b ∷ bs) = (b < 256) × AreBytes bs

pub u16-le16 : (n : ℕ) → n < 65_536 → u16 (n % 256) (n / 256 % 256) ≡ n
u16-le16 n h = omega arith

pub u32-le32 :
    (n : ℕ)
    → n < 4_294_967_296
    → u32 (n % 256) (n / 256 % 256) (n / 65_536 % 256) (n / 16_777_216 % 256) ≡ n
u32-le32 n h = omega arith
