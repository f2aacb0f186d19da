-- ===== src/Ikvm/Input/Modifiers.antt =====
-- internal/ikvm/vnc.go: the keysyms of the modifiers and their bits.
use kvm_switcher.Ikvm.Input.{
  function_syms, modifier_syms, code_in, plain_key, clear_bit, keysym_to_usb_hid, set_bit, has_bit,
}
use kvm_switcher.Prelude.{
  none, Option-cases, refl, Bool-cases, inl, subst, inr, sym, ◌≢◌, nat_eq, ◌+◌, ◌⊎◌, ◌||◌, arith,
  ◌==◌, if◌then◌else◌, ◌≡◌, Bool, ℕ, true, false,
}

pub data Modifier : Type 0 where
  control shift alt super : Modifier

abbrev pub bit : Modifier → ℕ
bit control = 1
bit shift = 2
bit alt = 4
bit super = 8

-- The left key's keysym; the right one's is the next.
abbrev pub left : Modifier → ℕ
left control = 65507
left shift = 65505
left alt = 65513
left super = 65515

abbrev pub is_for : Modifier → ℕ → Bool
is_for m sym = sym == left m || sym == left m + 1

abbrev pub same : Modifier → Modifier → Bool
same control control = true
same shift shift = true
same alt alt = true
same super super = true
same _ _ = false

abbrev pub changed : Bool → Modifier → ℕ → ℕ
changed pressed m mods = if pressed then set_bit (bit m) mods else clear_bit (bit m) mods

pub has_bit-changed :
    (m k : Modifier) (pressed : Bool) (mods : ℕ)
    → has_bit (bit m) (changed pressed k mods)
      ≡ (if same m k then pressed else has_bit (bit m) mods)
has_bit-changed control control p mods = ground arith
has_bit-changed control shift p mods = ground arith
has_bit-changed control alt p mods = ground arith
has_bit-changed control super p mods = ground arith
has_bit-changed shift control p mods = ground arith
has_bit-changed shift shift p mods = ground arith
has_bit-changed shift alt p mods = ground arith
has_bit-changed shift super p mods = ground arith
has_bit-changed alt control p mods = ground arith
has_bit-changed alt shift p mods = ground arith
has_bit-changed alt alt p mods = ground arith
has_bit-changed alt super p mods = ground arith
has_bit-changed super control p mods = ground arith
has_bit-changed super shift p mods = ground arith
has_bit-changed super alt p mods = ground arith
has_bit-changed super super p mods = ground arith

-- A keysym is one of a modifier, or it changes none.
abbrev pub Sorted : ℕ → Type 0
Sorted sym =
    ((m : Modifier) × (((k : Modifier) → is_for k sym ≡ same k m)
        × (keysym_to_usb_hid sym ≡ (0, bit m))))
    ⊎ (((k : Modifier) → is_for k sym ≡ false)
        × (((keysym_to_usb_hid sym).1 ≡ 0) ⊎ ((keysym_to_usb_hid sym).0 ≢ 0)))

at_each : (P : Modifier → Type 0) → P control → P shift → P alt → P super → (k : Modifier) → P k
at_each P a b c d control = a
at_each P a b c d shift = b
at_each P a b c d alt = c
at_each P a b c d super = d

of_modifier :
    (code n : ℕ) (m : Modifier)
    → (code == n) ≡ true
    → ((k : Modifier) → is_for k n ≡ same k m)
    → keysym_to_usb_hid n ≡ (0, bit m)
    → Sorted code
of_modifier code n m e h g = subst Sorted (eq_of n code e) (inl (m, (h, g)))
  where
    eq_of : (a b : ℕ) → (b == a) ≡ true → a ≡ b
    eq_of a b q = ground arith

plain_key-Sorted : (n : ℕ) → ((plain_key n).1 ≡ 0) ⊎ ((plain_key n).0 ≢ 0)
plain_key-Sorted n = elim (Option-cases (code_in n function_syms)) [
  | inl e ↦ ground arith
  | inr (keycode, e) ↦ ground arith
]

plain_lem : (n : ℕ) → code_in n modifier_syms ≡ none → plain_key n ≡ keysym_to_usb_hid n
unfolding keysym_to_usb_hid
plain_lem n h = ground (arith, h)

-- Every keysym is sorted.
pub keysym-Sorted : (n : ℕ) → Sorted n
unfolding keysym_to_usb_hid
keysym-Sorted n = elim (Bool-cases (n == 65505)) [
  | inl e ↦
      of_modifier n 65505 shift e (at_each (λ k. is_for k 65505 ≡ same k shift) refl refl refl refl)
        refl
  | inr e65505 ↦ elim (Bool-cases (n == 65506)) [
    | inl e ↦
        of_modifier n 65506 shift e
          (at_each (λ k. is_for k 65506 ≡ same k shift) refl refl refl refl) refl
    | inr e65506 ↦ elim (Bool-cases (n == 65507)) [
      | inl e ↦
          of_modifier n 65507 control e
            (at_each (λ k. is_for k 65507 ≡ same k control) refl refl refl refl) refl
      | inr e65507 ↦ elim (Bool-cases (n == 65508)) [
        | inl e ↦
            of_modifier n 65508 control e
              (at_each (λ k. is_for k 65508 ≡ same k control) refl refl refl refl) refl
        | inr e65508 ↦ elim (Bool-cases (n == 65513)) [
          | inl e ↦
              of_modifier n 65513 alt e
                (at_each (λ k. is_for k 65513 ≡ same k alt) refl refl refl refl) refl
          | inr e65513 ↦ elim (Bool-cases (n == 65514)) [
            | inl e ↦
                of_modifier n 65514 alt e
                  (at_each (λ k. is_for k 65514 ≡ same k alt) refl refl refl refl) refl
            | inr e65514 ↦ elim (Bool-cases (n == 65515)) [
              | inl e ↦
                  of_modifier n 65515 super e
                    (at_each (λ k. is_for k 65515 ≡ same k super) refl refl refl refl) refl
              | inr e65515 ↦ elim (Bool-cases (n == 65516)) [
                | inl e ↦
                    of_modifier n 65516 super e
                      (at_each (λ k. is_for k 65516 ≡ same k super) refl refl refl refl) refl
                | inr e65516 ↦ inr (
                  (at_each (λ k. is_for k n ≡ false) (ground arith) (ground arith) (ground arith)
                      (ground arith)),
                  subst (λ r. (r.1 ≡ 0) ⊎ (r.0 ≢ 0)) (plain_lem n (ground arith))
                      (plain_key-Sorted n),
                )
              ]
            ]
          ]
        ]
      ]
    ]
  ]
]
