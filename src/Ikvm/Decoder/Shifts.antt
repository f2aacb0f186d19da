-- ===== src/Ikvm/Decoder/Shifts.antt =====
-- internal/ikvm/bitstream.go: the shifts of the registers, on the bits of the frame.
use kvm_switcher.Ikvm.Decoder.BitString.{
  field_back, pow_pos, field_split, mul-mod_pow, pow_add, field_front, field-lt, field,
}
use kvm_switcher.Prelude.{
  ◌%◌, ◌-◌, sym, List, ap, refl, zero, ◌/◌, suc, ◌∙◌, arith, ◌+◌, ◌^◌, ◌≡◌, ◌<◌, ◌*◌, ◌≤◌, ℕ,
}
use kvm_switcher.Ikvm.Decoder.Reader.{shl32}
use Prim.Native.Nat.{bit_or, bit_or-bitwise, digits, max}
use native.Mathlib.Nat

-- The bitwise or of numbers without a common bit is their sum.
or_digits_zero : (m a : ℕ) → a ≤ m → digits (λ b. b) max m a 0 ≡ a
or_digits_zero zero a h = omega arith
or_digits_zero (suc m) zero h = refl
or_digits_zero (suc m) (suc a) h = omega (arith, or_digits_zero m (suc a / 2) (omega arith))

or_digits_add :
    (n m x q b : ℕ) → x ≡ q * 2 ^ n → x ≤ m → b < 2 ^ n → digits (λ d. d) max m x b ≡ x + b
or_digits_add zero m x q b e h l =
    let z : b ≡ 0 = omega arith in rw z (or_digits_zero m x h ∙ omega arith)
or_digits_add (suc n) zero x q b e h l = omega arith
or_digits_add (suc n) (suc m) zero q b e h l = omega arith
or_digits_add (suc n) (suc m) (suc a) q b e h l =
    let d : suc a ≡ q * 2 ^ n * 2 =
      e ∙ ap (λ y. q * y) (Nat.pow-suc 2 n) ∙ sym (Nat.mul_assoc q (2 ^ n) 2) in
    omega (
      arith,
      or_digits_add n m (suc a / 2) q (b / 2) (omega (arith, d)) (omega arith)
          (omega (arith, Nat.pow-suc 2 n)),
      d,
    )

pub bit_or-add : (a n b : ℕ) → b < 2 ^ n → bit_or (a * 2 ^ n) b ≡ a * 2 ^ n + b
bit_or-add a n b l =
    bit_or-bitwise (a * 2 ^ n) b ∙ or_digits_add n (a * 2 ^ n) (a * 2 ^ n) a b refl (omega arith) l

-- A word shifted left by `n`, and the bits behind it shifted in.
shl32-field :
    (ws : List ℕ) (p n k : ℕ) → n + k ≡ 32 → shl32 (field ws p 32) n ≡ field ws (p + n) k * 2 ^ n
shl32-field ws p n k e =
    ap (λ w. field ws p 32 * 2 ^ n % 2 ^ w) whole
    ∙ mul-mod_pow (field ws p 32) n k
    ∙ ap (λ w. field ws p w % 2 ^ k * 2 ^ n) (sym e)
    ∙ ap (λ x. x * 2 ^ n) (field_back ws p n k)
  where
    whole : 32 ≡ k + n
    whole = omega arith

shifted_in :
    (ws : List ℕ) (p n : ℕ)
    → n ≤ 32
    → bit_or (shl32 (field ws p 32) n) (field ws (p + 32) n) ≡ field ws (p + n) 32
shifted_in ws p n h =
    ap (λ x. bit_or x (field ws (p + 32) n)) (shl32-field ws p n (32 - n) (omega arith))
    ∙ bit_or-add (field ws (p + n) (32 - n)) n (field ws (p + 32) n) (field-lt ws (p + 32) n)
    ∙ ap (λ q. field ws (p + n) (32 - n) * 2 ^ n + field ws q n) whole
    ∙ sym (field_split ws (p + n) (32 - n) n)
    ∙ ap (field ws (p + n)) all_bits
  where
    whole : p + 32 ≡ p + n + (32 - n)
    whole = omega arith

    all_bits : 32 - n + n ≡ 32
    all_bits = omega arith

-- The first `n` of `b` bits that stand at the top of a word.
top-field :
    (ws : List ℕ) (q n b : ℕ)
    → n ≤ b
    → b ≤ 32
    → field ws q b * 2 ^ (32 - b) / 2 ^ (32 - n) ≡ field ws q n
top-field ws q n b l h =
    ap (λ k. field ws q b * 2 ^ (32 - b) / 2 ^ k) room
    ∙ ap (λ d. field ws q b * 2 ^ (32 - b) / d) (pow_add (32 - b) (b - n))
    ∙ sym (Nat.div-div-eq-div-mul (field ws q b * 2 ^ (32 - b)) (2 ^ (32 - b)) (2 ^ (b - n)))
    ∙ ap (λ x. x / 2 ^ (b - n)) (Nat.mul-div_cancel (field ws q b) (pow_pos (32 - b)))
    ∙ ap (λ k. field ws q k / 2 ^ (b - n)) parts
    ∙ field_front ws q n (b - n)
  where
    room : 32 - n ≡ 32 - b + (b - n)
    room = omega arith

    parts : b ≡ n + (b - n)
    parts = omega arith

-- The second register filled up from the word that follows it.
filled :
    (ws : List ℕ) (q b : ℕ)
    → b ≤ 32
    → bit_or (field ws q b * 2 ^ (32 - b)) (field ws (q + b) 32 / 2 ^ b) ≡ field ws q 32
filled ws q b h =
    ap (λ k. bit_or (field ws q b * 2 ^ (32 - b)) (field ws (q + b) k / 2 ^ b)) (sym (less b h))
    ∙ ap (bit_or (field ws q b * 2 ^ (32 - b))) (field_front ws (q + b) (32 - b) b)
    ∙ bit_or-add (field ws q b) (32 - b) (field ws (q + b) (32 - b)) (field-lt ws (q + b) (32 - b))
    ∙ sym (field_split ws q b (32 - b))
    ∙ ap (field ws q) (Nat.add_comm b (32 - b) ∙ less b h)
  where
    less : (k : ℕ) → k ≤ 32 → 32 - k + k ≡ 32
    less k l = omega arith

field-small : (ws : List ℕ) (q n : ℕ) → n ≤ 32 → field ws q n % 2 ^ 32 ≡ field ws q n
field-small ws q n h =
    let l : 2 ^ n ≤ 2 ^ 32 = Nat.pow-le-pow_right (omega arith) h in
    omega (arith, field-lt ws q n, l)

-- What the second register holds once the next word is read.
pub next_back :
    (ws : List ℕ) (p n b : ℕ)
    → b ≤ n
    → n ≤ 32
    → shl32 (field ws (p + 32 + b) 32) (n - b)
      ≡ field ws (p + n + 32) (32 + b - n) * 2 ^ (32 - (32 + b - n))
next_back ws p n b l h =
    shl32-field ws (p + 32 + b) (n - b) (32 + b - n) (omega arith)
    ∙ ap (λ q. field ws q (32 + b - n) * 2 ^ (n - b)) place
    ∙ ap (λ k. field ws (p + n + 32) (32 + b - n) * 2 ^ k) room
  where
    place : p + 32 + b + (n - b) ≡ p + n + 32
    place = omega arith

    room : n - b ≡ 32 - (32 + b - n)
    room = omega arith

-- What it holds after a shift within its bits.
pub rest_back :
    (ws : List ℕ) (p n b : ℕ)
    → n < b
    → b ≤ 32
    → shl32 (field ws (p + 32) b * 2 ^ (32 - b)) n
      ≡ field ws (p + n + 32) (b - n) * 2 ^ (32 - (b - n))
rest_back ws p n b l h =
    ap (λ y. y % 2 ^ 32) (Nat.mul_assoc x (2 ^ (32 - b)) (2 ^ n))
    ∙ ap (λ y. x * y % 2 ^ 32) (sym (pow_add (32 - b) n))
    ∙ ap (λ w. x * 2 ^ (32 - b + n) % 2 ^ w) room
    ∙ mul-mod_pow x (32 - b + n) (b - n)
    ∙ ap (λ k. field ws (p + 32) k % 2 ^ (b - n) * 2 ^ (32 - b + n)) parts
    ∙ ap (λ y. y * 2 ^ (32 - b + n)) (field_back ws (p + 32) n (b - n))
    ∙ ap (λ q. field ws q (b - n) * 2 ^ (32 - b + n)) place
    ∙ ap (λ k. field ws (p + n + 32) (b - n) * 2 ^ k) shift
  where
    x : ℕ
    x = field ws (p + 32) b

    room : 32 ≡ b - n + (32 - b + n)
    room = omega arith

    parts : b ≡ n + (b - n)
    parts = omega arith

    place : p + 32 + n ≡ p + n + 32
    place = omega arith

    shift : 32 - b + n ≡ 32 - (b - n)
    shift = omega arith

-- The first register, with bits of the second one and without or with a new word.
pub old_front :
    (ws : List ℕ) (p n b : ℕ)
    → n < b
    → b ≤ 32
    → bit_or (shl32 (field ws p 32) n) (field ws (p + 32) b * 2 ^ (32 - b) / 2 ^ (32 - n) % 2 ^ 32)
      ≡ field ws (p + n) 32
old_front ws p n b l h =
    ap (λ y. bit_or (shl32 (field ws p 32) n) (y % 2 ^ 32))
      (top-field ws (p + 32) n b (omega arith) h)
    ∙ ap (bit_or (shl32 (field ws p 32) n)) (field-small ws (p + 32) n (omega arith))
    ∙ shifted_in ws p n (omega arith)

pub new_front :
    (ws : List ℕ) (p n b : ℕ)
    → b ≤ 32
    → n ≤ 32
    → bit_or (shl32 (field ws p 32) n) (
        bit_or (field ws (p + 32) b * 2 ^ (32 - b)) (field ws (p + 32 + b) 32 / 2 ^ b)
        / 2 ^ (32 - n)
        % 2 ^ 32)
      ≡ field ws (p + n) 32
new_front ws p n b h l =
    ap (λ y. bit_or (shl32 (field ws p 32) n) (y / 2 ^ (32 - n) % 2 ^ 32)) (filled ws (p + 32) b h)
    ∙ ap (λ k. bit_or (shl32 (field ws p 32) n) (field ws (p + 32) k / 2 ^ (32 - n) % 2 ^ 32)) parts
    ∙ ap (λ y. bit_or (shl32 (field ws p 32) n) (y % 2 ^ 32)) (field_front ws (p + 32) n (32 - n))
    ∙ ap (bit_or (shl32 (field ws p 32) n)) (field-small ws (p + 32) n l)
    ∙ shifted_in ws p n l
  where
    parts : 32 ≡ n + (32 - n)
    parts = omega arith
