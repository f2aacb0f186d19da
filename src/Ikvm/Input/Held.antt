-- ===== src/Ikvm/Input/Held.antt =====
-- The modifiers that the board is told of are the ones that the viewer holds.
use kvm_switcher.Ikvm.Input.Modifiers.{
  super, alt, shift, control, changed, keysym-Sorted, has_bit-changed, is_for, Sorted, bit,
  Modifier,
}
use kvm_switcher.Ikvm.Bytes.{u32-le32, be32, Bytes}
use kvm_switcher.Prelude.{
  not, ◌&&◌, ◌∙◌, ap, ◌<◌, [], ◌∷◌, List, refl, Bool-cases, inl, subst, inr, sym, ◌≢◌, nat_eq, ◌⊎◌,
  arith, ◌==◌, if◌then◌else◌, ◌≡◌, Bool, ℕ, true, false,
}
use kvm_switcher.Ikvm.Input.{
  key, pointer, Report, handle_key_event, handle_input, read_vnc_input, press_key, VncInput,
  keysym_to_usb_hid, has_bit,
}

-- A key message of the RFB protocol.
abbrev pub key_message : ℕ → Bool → Bytes
key_message code pressed = 4 ∷ (if pressed then 1 else 0) ∷ 0 ∷ 0 ∷ be32 code

abbrev pub key_messages : List (ℕ × Bool) → List (Bytes × Bool)
key_messages [] = []
key_messages ((code, pressed) ∷ ks) = (key_message code pressed, true) ∷ key_messages ks

-- Whether a modifier is held after the keys, when it was before them or not.
abbrev pub held : Modifier → List (ℕ × Bool) → Bool → Bool
held m [] now = now
held m ((code, pressed) ∷ ks) now = held m ks (if is_for m code then pressed else now)

abbrev pub AreKeysyms : List (ℕ × Bool) → Type 0
AreKeysyms [] = Unit {0}
AreKeysyms ((code, pressed) ∷ ks) = (code < 4_294_967_296) × AreKeysyms ks

press_key_modifier :
    (pressed : Bool) (k : Modifier) (b : VncInput)
    → (press_key pressed (0, bit k) b).kbd_modifiers ≡ changed pressed k b.kbd_modifiers
press_key_modifier pressed control b = refl
press_key_modifier pressed shift b = refl
press_key_modifier pressed alt b = refl
press_key_modifier pressed super b = refl

press_key_plain :
    (pressed : Bool) (r : ℕ × ℕ) (b : VncInput)
    → (r.1 ≡ 0) ⊎ (r.0 ≢ 0)
    → (press_key pressed r b).kbd_modifiers ≡ b.kbd_modifiers
press_key_plain pressed (keycode, n) b h = ground arith

press_key-held :
    (m : Modifier) (code : ℕ) (pressed : Bool) (b : VncInput)
    → Sorted code
    → has_bit (bit m) (press_key pressed (keysym_to_usb_hid code) b).kbd_modifiers
      ≡ (if is_for m code then pressed else has_bit (bit m) b.kbd_modifiers)
press_key-held m code pressed b (inl (k, (f, g))) =
    ap (λ r. has_bit (bit m) (press_key pressed r b).kbd_modifiers) g
    ∙ ap (has_bit (bit m)) (press_key_modifier pressed k b)
    ∙ has_bit-changed m k pressed b.kbd_modifiers
    ∙ ap (λ t. if t then pressed else has_bit (bit m) b.kbd_modifiers) (sym (f m))
press_key-held m code pressed b (inr (f, g)) =
    ap (has_bit (bit m)) (press_key_plain pressed (keysym_to_usb_hid code) b g)
    ∙ ap (λ t. if t then pressed else has_bit (bit m) b.kbd_modifiers) (sym (f m))

press_key-connected :
    (pressed : Bool) (r : ℕ × ℕ) (b : VncInput) → (press_key pressed r b).connected ≡ b.connected
press_key-connected pressed (keycode, n) b = ground arith

handle_input-key :
    (code : ℕ) (pressed : Bool) (b : VncInput)
    → code < 4_294_967_296
    → b.connected ≡ true
    → handle_input (key_message code pressed) true b ≡ press_key pressed (keysym_to_usb_hid code) b
unfolding handle_input handle_key_event
handle_input-key code true b l c = ground (arith, u32-le32 code l)
handle_input-key code false b l c = ground (arith, u32-le32 code l)

-- The modifiers that the newest key report told the board, which holds none before the first.
abbrev pub told : List Report → ℕ
told [] = 0
told (key mods keycode pressed ∷ rs) = mods
told (pointer buttons x y wheel ∷ rs) = told rs

-- The board knows the bridge's modifiers.
abbrev pub IsTold : VncInput → Type 0
IsTold b = told b.sent ≡ b.kbd_modifiers

press_key-IsTold :
    (pressed : Bool) (r : ℕ × ℕ) (b : VncInput) → IsTold b → IsTold (press_key pressed r b)
press_key-IsTold pressed (keycode, n) b h = elim (Bool-cases (not (n == 0) && keycode == 0)) [
  | inl e ↦ rw (press_key, e) refl
  | inr e ↦ elim (Bool-cases (keycode == 0)) [
    | inl f ↦ rw (press_key, e, f) h
    | inr f ↦ elim (Bool-cases pressed) [
      | inl g ↦ rw (press_key, e, f, g) refl
      | inr g ↦ rw (press_key, e, f, g) refl
    ]
  ]
]

read_vnc_input-IsTold :
    (ks : List (ℕ × Bool)) (b : VncInput)
    → AreKeysyms ks
    → b.connected ≡ true
    → IsTold b
    → IsTold (read_vnc_input (key_messages ks) b)
unfolding read_vnc_input
read_vnc_input-IsTold [] b a c h = h
read_vnc_input-IsTold ((code, pressed) ∷ ks) b a c h =
    let r = keysym_to_usb_hid code in
    subst (λ x. IsTold (read_vnc_input (key_messages ks) x))
      (sym (handle_input-key code pressed b a.0 c))
      (read_vnc_input-IsTold ks (press_key pressed r b) a.1 (press_key-connected pressed r b ∙ c)
        (press_key-IsTold pressed r b h))

modifiers-held :
    (m : Modifier) (ks : List (ℕ × Bool)) (b : VncInput)
    → AreKeysyms ks
    → b.connected ≡ true
    → has_bit (bit m) (read_vnc_input (key_messages ks) b).kbd_modifiers
      ≡ held m ks (has_bit (bit m) b.kbd_modifiers)
unfolding read_vnc_input
modifiers-held m [] b a c = refl
modifiers-held m ((code, pressed) ∷ ks) b a c =
    let d : VncInput = press_key pressed (keysym_to_usb_hid code) b in
    ap (λ x. has_bit (bit m) (read_vnc_input (key_messages ks) x).kbd_modifiers)
      (handle_input-key code pressed b a.0 c)
    ∙ modifiers-held m ks d a.1 (press_key-connected pressed (keysym_to_usb_hid code) b ∙ c)
    ∙ ap (held m ks) (press_key-held m code pressed b (keysym-Sorted code))

-- Let the newest key report to the board have the bridge's modifiers, or the bridge none where there is no
-- report. After any keys that a viewer with control then presses and releases on a connected bridge, the
-- newest report tells of a modifier as held exactly when the last key of that modifier, left or right, was
-- pressed; without one it tells of it as before.
pub read_vnc_input-held :
    (m : Modifier) (ks : List (ℕ × Bool)) (b : VncInput)
    → AreKeysyms ks
    → b.connected ≡ true
    → told b.sent ≡ b.kbd_modifiers
    → has_bit (bit m) (told (read_vnc_input (key_messages ks) b).sent)
      ≡ held m ks (has_bit (bit m) (told b.sent))
read_vnc_input-held m ks b a c h =
    ap (has_bit (bit m)) (read_vnc_input-IsTold ks b a c h)
    ∙ modifiers-held m ks b a c
    ∙ ap (λ n. held m ks (has_bit (bit m) n)) (sym h)
