-- ===== src/Ikvm/Decoder/BitString.antt =====
-- A frame's words as one string of bits, the high bit of a word first: what a decoder of the frame reads,
-- independently of the registers. After the last word it goes on with that word.
use kvm_switcher.Prelude.{
  inr, inl, [], ◌∷◌, Bool-cases, ◌≤◌, get_or, sym, length, ◌%◌, ◌∙◌, ap, ◌-◌, zero, ◌≡◌, leb, ◌*◌,
  arith, suc, if◌then◌else◌, ◌/◌, ◌+◌, All, List, ◌<◌, ◌^◌, ℕ,
}
use native.Mathlib.Nat

unfoldable pub word : List ℕ → ℕ → ℕ
word ws i = if leb (length ws) i then get_or ws (length ws - 1) 0 else get_or ws i 0

unfoldable pub bit : List ℕ → ℕ → ℕ
bit ws i = word ws (i / 32) / 2 ^ (31 - i % 32) % 2

-- The number that `k` bits spell from bit `p` on.
unfoldable pub field : List ℕ → ℕ → ℕ → ℕ
field ws p zero = 0
field ws p (suc k) = field ws p k * 2 + bit ws (p + k)

abbrev pub AreWords : List ℕ → Type 0
AreWords ws = All (λ w. w < 2 ^ 32) ws

pub pow_pos : (k : ℕ) → 0 < 2 ^ k
pow_pos k = Nat.one-le-pow k 2 (omega arith)

pub pow_add : (a b : ℕ) → 2 ^ (a + b) ≡ 2 ^ a * 2 ^ b
pow_add a zero = ap (λ x. 2 ^ x) (Nat.add-zero a) ∙ omega arith
pow_add a (suc b) =
    ap (λ x. 2 ^ x) (Nat.add-suc a b)
    ∙ Nat.pow-suc 2 (a + b)
    ∙ ap (λ x. x * 2) (pow_add a b)
    ∙ Nat.mul_assoc (2 ^ a) (2 ^ b) 2
    ∙ ap (λ x. 2 ^ a * x) (sym (Nat.pow-suc 2 b))

pub field-lt : (ws : List ℕ) (p k : ℕ) → field ws p k < 2 ^ k
unfolding field bit
field-lt ws p zero = omega arith
field-lt ws p (suc k) = omega (arith, field-lt ws p k, Nat.pow-suc 2 k)

-- A field is its front followed by its back.
pub field_split :
    (ws : List ℕ) (p a b : ℕ) → field ws p (a + b) ≡ field ws p a * 2 ^ b + field ws (p + a) b
unfolding field
field_split ws p a zero = ap (field ws p) (Nat.add-zero a) ∙ omega arith
field_split ws p a (suc b) =
    let e : field ws p (a + b) * 2 ≡ field ws p a * 2 ^ suc b + field ws (p + a) b * 2 =
      ap (λ x. x * 2) (field_split ws p a b)
      ∙ Nat.add-mul (field ws p a * 2 ^ b) (field ws (p + a) b) 2
      ∙ ap (λ x. x + field ws (p + a) b * 2)
          (Nat.mul_assoc (field ws p a) (2 ^ b) 2
            ∙ ap (λ x. field ws p a * x) (sym (Nat.pow-suc 2 b))) in
    let g : p + (a + b) ≡ p + a + b = omega arith in
    ap (field ws p) (Nat.add-suc a b)
    ∙ ap (λ x. x + bit ws (p + (a + b))) e
    ∙ ap (λ x. field ws p a * 2 ^ suc b + field ws (p + a) b * 2 + bit ws x) g
    ∙ omega arith

pub field_front : (ws : List ℕ) (p a b : ℕ) → field ws p (a + b) / 2 ^ b ≡ field ws p a
field_front ws p a b =
    ap (λ x. x / 2 ^ b) (field_split ws p a b)
    ∙ Nat.mul-add-div_right (pow_pos b) (field ws p a) (field ws (p + a) b)
    ∙ ap (λ x. field ws p a + x) (Nat.div-eq_of_lt (field-lt ws (p + a) b))
    ∙ omega arith

-- Shifting a register of `a + b` bits left by `a` drops its front.
mul-mod_mul : (x a b : ℕ) → 0 < a → 0 < b → x * a % (b * a) ≡ x % b * a
mul-mod_mul x a b ha hb =
    ap (λ y. y % (b * a)) whole
    ∙ Nat.add-mul-mod_self_right (x % b * a) (x / b) (b * a)
    ∙ Nat.mod-eq_of_lt (Nat.mul-lt-mul_of_pos_right (Nat.mod-lt x hb) ha)
  where
    whole : x * a ≡ x % b * a + x / b * (b * a)
    whole =
        ap (λ y. y * a) (sym (Nat.mod-add-div' x b))
        ∙ Nat.add-mul (x % b) (x / b * b) a
        ∙ ap (λ y. x % b * a + y) (Nat.mul_assoc (x / b) b a)

pub mul-mod_pow : (x a b : ℕ) → x * 2 ^ a % 2 ^ (b + a) ≡ x % 2 ^ b * 2 ^ a
mul-mod_pow x a b =
    ap (λ w. x * 2 ^ a % w) (pow_add b a) ∙ mul-mod_mul x (2 ^ a) (2 ^ b) (pow_pos a) (pow_pos b)

pub field_back : (ws : List ℕ) (p a b : ℕ) → field ws p (a + b) % 2 ^ b ≡ field ws (p + a) b
field_back ws p a b =
    ap (λ x. x % 2 ^ b) (field_split ws p a b ∙ Nat.add_comm _ _)
    ∙ Nat.add-mul-mod_self_right (field ws (p + a) b) (field ws p a) (2 ^ b)
    ∙ Nat.mod-eq_of_lt (field-lt ws (p + a) b)

-- The 32 bits of a word spell the word.
field-word_front :
    (ws : List ℕ) (i k : ℕ)
    → k ≤ 32
    → word ws i < 2 ^ 32
    → field ws (32 * i) k ≡ word ws i / 2 ^ (32 - k)
unfolding field bit
field-word_front ws i zero h w = omega (arith, Nat.div-eq_of_lt w)
field-word_front ws i (suc k) h w =
    let e : 32 - k ≡ suc (31 - k) = omega arith in
    let d : word ws i / 2 ^ (32 - k) ≡ word ws i / 2 ^ (31 - k) / 2 =
      ap (λ x. word ws i / 2 ^ x) e
      ∙ ap (λ x. word ws i / x) (Nat.pow-suc 2 (31 - k))
      ∙ sym (Nat.div-div-eq-div-mul (word ws i) (2 ^ (31 - k)) 2) in
    let b : bit ws (32 * i + k) ≡ word ws i / 2 ^ (31 - k) % 2 =
      ap (λ x. word ws x / 2 ^ (31 - (32 * i + k) % 32) % 2) (omega arith)
      ∙ ap (λ x. word ws i / 2 ^ (31 - x) % 2) (omega arith) in
    let s : 32 - suc k ≡ 31 - k = omega arith in
    ap (λ x. x * 2 + bit ws (32 * i + k)) (field-word_front ws i k (omega arith) w ∙ d)
    ∙ ap (λ x. word ws i / 2 ^ (31 - k) / 2 * 2 + x) b
    ∙ omega arith
    ∙ ap (λ x. word ws i / 2 ^ x) (sym s)

pub field-word : (ws : List ℕ) (i : ℕ) → word ws i < 2 ^ 32 → field ws (32 * i) 32 ≡ word ws i
field-word ws i w = field-word_front ws i 32 (omega arith) w ∙ Nat.div-one (word ws i)

get_or-All : (ws : List ℕ) (i : ℕ) → AreWords ws → get_or ws i 0 < 2 ^ 32
get_or-All [] i h = omega arith
get_or-All (w ∷ ws) zero h = h.0
get_or-All (w ∷ ws) (suc i) h = get_or-All ws i h.1

pub word-lt : (ws : List ℕ) (i : ℕ) → AreWords ws → word ws i < 2 ^ 32
unfolding word
word-lt ws i h = elim (Bool-cases (leb (length ws) i)) [
  | inl e ↦ rw e (get_or-All ws (length ws - 1) h)
  | inr e ↦ rw e (get_or-All ws i h)
]
