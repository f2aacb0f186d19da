-- ===== src/Ikvm/Input.antt =====
-- internal/ikvm/vnc.go: what a viewer's keyboard and pointer messages send to the board.
pub mod Modifiers
pub mod Held
use kvm_switcher.Prelude.{
  inr, inl, ltb, zero, suc, ap, Bool-cases, refl, true, pos, ◌||◌, false, ◌&&◌, arith, nat_eq,
  length, negsuc, ◌<◌, ◌/◌, [], none, not, ◌≡◌, ◌%◌, ◌-◌, leb, ◌+◌, ◌==◌, some, Bool, ℤ, ◌≤◌,
  Option, ◌*◌, List, if◌then◌else◌, ◌∷◌, ℕ,
}
use kvm_switcher.Ikvm.Bytes.{u32, u16, at, Bytes}
use native.Mathlib.Omega.{div_any}

-- The calls of SendKeyEvent and SendMouseEvent; the wheel is -1, 0 or 1.
pub data Report : Type 0 where
  key : ℕ → ℕ → Bool → Report
  pointer : ℕ → ℕ → ℕ → ℤ → Report

-- `connected` says that there is a client; `sent` holds the reports, newest first.
pub record VncInput : Type 0 where
  pub connected : Bool
  pub kbd_modifiers : ℕ
  pub width : ℕ
  pub height : ℕ
  pub sent : List Report

-- A switch on the keysym.
abbrev pub code_in : ℕ → List (ℕ × ℕ) → Option ℕ
code_in n [] = none
code_in n ((sym, keycode) ∷ more) =
    let rest = code_in n more in if sym == n then some keycode else rest

abbrev pub within : ℕ → ℕ → ℕ → Bool
within low high n = leb low n && leb n high

abbrev pub modifier_syms : List (ℕ × ℕ)
modifier_syms =
    (65505, 2)
    ∷ (65506, 2)
    ∷ (65507, 1)
    ∷ (65508, 1)
    ∷ (65513, 4)
    ∷ (65514, 4)
    ∷ (65515, 8)
    ∷ (65516, 8)
    ∷ []

abbrev pub function_syms : List (ℕ × ℕ)
function_syms =
    (65293, 40)
    ∷ (65307, 41)
    ∷ (65288, 42)
    ∷ (65289, 43)
    ∷ (32, 44)
    ∷ (65360, 74)
    ∷ (65361, 80)
    ∷ (65362, 82)
    ∷ (65363, 79)
    ∷ (65364, 81)
    ∷ (65365, 75)
    ∷ (65366, 78)
    ∷ (65367, 77)
    ∷ (65535, 76)
    ∷ (65379, 73)
    ∷ (65300, 71)
    ∷ (65407, 72)
    ∷ (65377, 70)
    ∷ []

abbrev punctuation_syms : List (ℕ × ℕ)
punctuation_syms =
    (45, 45)
    ∷ (61, 46)
    ∷ (91, 47)
    ∷ (93, 48)
    ∷ (92, 49)
    ∷ (59, 51)
    ∷ (39, 52)
    ∷ (96, 53)
    ∷ (44, 54)
    ∷ (46, 55)
    ∷ (47, 56)
    ∷ []

abbrev code_or_none : Option ℕ → ℕ
code_or_none none = 0
code_or_none (some keycode) = keycode

-- The key code and the modifiers of a key that is no modifier itself.
abbrev pub plain_key : ℕ → ℕ × ℕ
plain_key n =
    if within 65470 65481 n then (58 + (n - 65470), 0) else elim (code_in n function_syms) [
      | some keycode ↦ (keycode, 0)
      | none ↦
          if within 97 122 n
          then (4 + (n - 97), 0)
          else if within 65 90 n
          then (4 + (n - 65), 2)
          else if within 49 57 n
          then (30 + (n - 49), 0)
          else if n == 48
          then (39, 0)
          else (code_or_none (code_in n punctuation_syms), 0)
    ]

unfoldable pub keysym_to_usb_hid : ℕ → ℕ × ℕ
keysym_to_usb_hid n = elim (code_in n modifier_syms) [ some bit ↦ (0, bit) | none ↦ plain_key n ]

-- `m |= bit` and `m &^= bit` for a bit of the modifiers.
abbrev pub has_bit : ℕ → ℕ → Bool
has_bit bit m = m / bit % 2 == 1

abbrev pub set_bit : ℕ → ℕ → ℕ
set_bit bit m = if has_bit bit m then m else m + bit

abbrev pub clear_bit : ℕ → ℕ → ℕ
clear_bit bit m = if has_bit bit m then m - bit else m

abbrev pub send : Report → VncInput → VncInput
send r b = record b { sent = r ∷ b.sent }

-- On the key code and the modifier bit of a keysym.
abbrev pub press_key : Bool → ℕ × ℕ → VncInput → VncInput
press_key pressed (keycode, bit) b =
    if not (bit == 0) && keycode == 0
    then (let mods : ℕ =
          if pressed then set_bit bit b.kbd_modifiers else clear_bit bit b.kbd_modifiers in
        send (key mods 0 pressed) (record b { kbd_modifiers = mods }))
    else if keycode == 0
    then b
    else if pressed
    then send (key b.kbd_modifiers keycode true) b
    else send (key b.kbd_modifiers 0 false) b

-- The bytes of the message after its type.
unfoldable pub handle_key_event : Bytes → VncInput → VncInput
handle_key_event bs b =
    if b.connected
    then press_key (not (at bs 1 == 0))
        (keysym_to_usb_hid (u32 (at bs 7) (at bs 6) (at bs 5) (at bs 4))) b
    else b

abbrev pub usb_buttons : ℕ → ℕ
usb_buttons n =
    (if n % 2 == 1 then 1 else 0)
    + (if n / 2 % 2 == 1 then 4 else 0)
    + (if n / 4 % 2 == 1 then 2 else 0)

abbrev pub wheel_of : ℕ → ℤ
wheel_of n = if n / 16 % 2 == 1 then negsuc 0 else if n / 8 % 2 == 1 then pos 1 else pos 0

-- `uint16(uint32(x) * 32767 / uint32(w))`
abbrev pub absolute : ℕ → ℕ → ℕ
absolute x w = (x * 32_767 % 4_294_967_296) / w % 65_536

unfoldable pub handle_pointer_event : Bytes → VncInput → VncInput
handle_pointer_event bs b =
    if not b.connected || b.width == 0 || b.height == 0
    then b
    else send
        (pointer (usb_buttons (at bs 1)) (absolute (u16 (at bs 3) (at bs 2)) b.width)
          (absolute (u16 (at bs 5) (at bs 4)) b.height) (wheel_of (at bs 1)))
        b

-- One turn of the loop; `allowed` is the answer of the check of the viewer's control.
unfoldable pub handle_input : Bytes → Bool → VncInput → VncInput
handle_input [] allowed b = b
handle_input (t ∷ bs) allowed b =
    if t == 4
    then (if leb 8 (length (t ∷ bs)) && allowed then handle_key_event (t ∷ bs) b else b)
    else if t == 5
    then (if leb 6 (length (t ∷ bs)) && allowed then handle_pointer_event (t ∷ bs) b else b)
    else b

-- The loop until the viewer's connection ends.
unfoldable pub read_vnc_input : List (Bytes × Bool) → VncInput → VncInput
read_vnc_input [] b = b
read_vnc_input ((bs, allowed) ∷ more) b = read_vnc_input more (handle_input bs allowed b)

abbrev pub NoneAllowed : List (Bytes × Bool) → Type 0
NoneAllowed [] = Unit {0}
NoneAllowed ((bs, allowed) ∷ more) = (allowed ≡ false) × NoneAllowed more

-- A viewer that is never allowed to control sends nothing to the board and changes no modifier,
-- whatever messages it sends.
pub read_vnc_input-NoneAllowed :
    (ms : List (Bytes × Bool)) (b : VncInput) → NoneAllowed ms → read_vnc_input ms b ≡ b
unfolding read_vnc_input handle_input
read_vnc_input-NoneAllowed [] b h = refl
read_vnc_input-NoneAllowed (([], allowed) ∷ more) b h = read_vnc_input-NoneAllowed more b h.1
read_vnc_input-NoneAllowed ((t ∷ bs, allowed) ∷ more) b h =
    ground (arith, h.0, read_vnc_input-NoneAllowed more b h.1)

mul_mono : (w a b : ℕ) → a ≤ b → w * a ≤ w * b
mul_mono zero a b h = omega arith
mul_mono (suc w) a b h = omega (arith, mul_mono w a b h)

div_less : (a w k : ℕ) → a < w * k → a / w < k
div_less a w k h = elim (Bool-cases (ltb (a / w) k)) [
  | inl e ↦ ground arith
  | inr e ↦ omega (arith, h, div_any a w, mul_mono w k (a / w) (ground arith))
]

-- A position inside the screen becomes one inside the board's range.
pub absolute-bounds : (x w : ℕ) → x < w → w < 65_536 → absolute x w < 32_767
absolute-bounds x w a c =
    let e : x * 32_767 % 4_294_967_296 ≡ x * 32_767 = omega arith in
    let q : (x * 32_767) / w < 32_767 = div_less (x * 32_767) w 32_767 (omega arith) in
    omega (arith, ap (λ n. n / w) e, q)
