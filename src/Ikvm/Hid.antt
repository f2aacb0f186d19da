-- ===== src/Ikvm/Hid.antt =====
-- internal/ikvm/hid.go: the keyboard and mouse reports. The shared sequence counter, which wraps at 32
-- bits, is an argument and a result.
use kvm_switcher.Prelude.{
  sym, append_assoc, refl, ap, ◌≤◌, ◌∙◌, length, arith, ◌+◌, [], if◌then◌else◌, ◌∷◌, ◌%◌, ◌++◌,
  Bool, ◌-◌, ◌≡◌, ℕ,
}
use kvm_switcher.Ikvm.Protocol.{decode-encode, IvtpHeader, encode}
use kvm_switcher.Ikvm.Stream.{read_encoded}
use kvm_switcher.Ikvm.Client.{max_payload, message, read_message}
use kvm_switcher.Ikvm.Bytes.{le32, le16, Bytes}

-- The signature "IUSB    ".
abbrev signature : Bytes
signature = 73 ∷ 85 ∷ 83 ∷ 66 ∷ 32 ∷ 32 ∷ 32 ∷ 32 ∷ []

-- What goes into a report: the kind of device, and its data.
pub record Device : Type 0 where
  pub kind : ℕ
  pub protocol : ℕ
  pub number : ℕ
  pub interface : ℕ

abbrev pub keyboard : Device
keyboard = record { kind = 48; protocol = 16; number = 2; interface = 0 }

abbrev pub mouse : Device
mouse = record { kind = 49; protocol = 32; number = 2; interface = 1 }

-- The bytes from 8 to 39 with a given checksum; `size` is the length of the data and its length byte.
abbrev pub iusb_header : Device → ℕ → ℕ → ℕ → Bytes
iusb_header d size seq checksum =
    signature
    ++ (1 ∷ 0 ∷ 32 ∷ checksum ∷ [])
    ++ le32 size
    ++ (0 ∷ d.kind ∷ d.protocol ∷ 128 ∷ d.number ∷ d.interface ∷ 0 ∷ 0 ∷ [])
    ++ le32 seq
    ++ (0 ∷ 0 ∷ 0 ∷ 0 ∷ [])

-- The loop over the bytes: `cksum += buf[i]` on a byte.
abbrev pub sum_bytes : Bytes → ℕ
sum_bytes [] = 0
sum_bytes (b ∷ bs) = (b + sum_bytes bs) % 256

-- `-cksum` on a byte.
abbrev pub negated : ℕ → ℕ
negated n = (256 - n) % 256

abbrev pub checked_header : Device → ℕ → ℕ → Bytes
checked_header d size seq = iusb_header d size seq (negated (sum_bytes (iusb_header d size seq 0)))

abbrev pub key_data : ℕ → ℕ → Bool → Bytes
key_data modifiers keycode pressed =
    8 ∷ modifiers ∷ (if pressed then 1 else 0) ∷ keycode ∷ 0 ∷ 0 ∷ 0 ∷ 0 ∷ 0 ∷ []

abbrev pub mouse_data : ℕ → ℕ → ℕ → ℕ → Bytes
mouse_data buttons x y wheel = 6 ∷ buttons ∷ (le16 x ++ le16 y ++ (wheel ∷ []))

unfoldable pub build_keyboard_report : ℕ → ℕ → Bool → ℕ → Bytes × ℕ
build_keyboard_report modifiers keycode pressed seq = (
  encode (record { kind = 1; pkt_size = 41; status = 0 })
      ++ (checked_header keyboard 9 seq ++ key_data modifiers keycode pressed),
  (seq + 1) % 4_294_967_296,
)

-- `wheel` is the byte of the signed wheel movement.
unfoldable pub build_abs_mouse_report : ℕ → ℕ → ℕ → ℕ → ℕ → Bytes × ℕ
build_abs_mouse_report buttons x y wheel seq = (
  encode (record { kind = 1; pkt_size = 39; status = 0 })
      ++ (checked_header mouse 7 seq ++ mouse_data buttons x y wheel),
  (seq + 1) % 4_294_967_296,
)

abbrev total : Bytes → ℕ
total [] = 0
total (b ∷ bs) = b + total bs

sum_bytes-total : (bs : Bytes) → sum_bytes bs ≡ total bs % 256
sum_bytes-total [] = omega arith
sum_bytes-total (b ∷ bs) = omega (arith, sum_bytes-total bs)

total-iusb_header :
    (d : Device) (size seq c : ℕ)
    → total (iusb_header d size seq c) ≡ total (iusb_header d size seq 0) + c
total-iusb_header d size seq c = omega arith

negated_lem : (n t : ℕ) → n ≡ t % 256 → (t + negated n) % 256 ≡ 0
negated_lem n t h = omega (arith, h)

-- The bytes that the checksum covers sum to 0 modulo 256, whatever the device, the size of its data
-- and the number of the report.
pub sum_bytes-checked_header :
    (d : Device) (size seq : ℕ) → sum_bytes (checked_header d size seq) ≡ 0
sum_bytes-checked_header d size seq =
    let c : ℕ = negated (sum_bytes (iusb_header d size seq 0)) in
    sum_bytes-total (iusb_header d size seq c)
    ∙ ap (λ n. n % 256) (total-iusb_header d size seq c)
    ∙ negated_lem (sum_bytes (iusb_header d size seq 0)) (total (iusb_header d size seq 0))
        (sum_bytes-total (iusb_header d size seq 0))

read_report :
    (size : ℕ) (payload rest : Bytes)
    → length payload ≡ size
    → size ≤ max_payload
    → read_message ((encode (record { kind = 1; pkt_size = size; status = 0 }) ++ payload) ++ rest)
      ≡ message (record { kind = 1; pkt_size = size; status = 0 }) payload rest
read_report size payload rest e l =
    let h : IvtpHeader = record { kind = 1; pkt_size = size; status = 0 } in
    ap read_message (append_assoc (encode h) payload rest)
    ∙ read_encoded h payload rest
        (decode-encode h (payload ++ rest)
          (record { kind = omega arith; pkt_size = omega arith; status = omega arith }))
        (sym e) (omega arith)

-- Each report is read by the other side as one message of the right size, and what follows it is left
-- for the next message.
pub read_message-reports :
    (a b x y w seq : ℕ) (pressed : Bool) (rest : Bytes)
    → (read_message ((build_keyboard_report a b pressed seq).0 ++ rest)
        ≡ message
            (record { kind = 1; pkt_size = 41; status = 0 })
            (checked_header keyboard 9 seq ++ key_data a b pressed)
            rest)
      × (read_message ((build_abs_mouse_report a x y w seq).0 ++ rest)
          ≡ message
              (record { kind = 1; pkt_size = 39; status = 0 })
              (checked_header mouse 7 seq ++ mouse_data a x y w)
              rest)
unfolding build_keyboard_report build_abs_mouse_report
read_message-reports a b x y w seq pressed rest = (
  read_report 41 (checked_header keyboard 9 seq ++ key_data a b pressed) rest refl (omega arith),
  read_report 39 (checked_header mouse 7 seq ++ mouse_data a x y w) rest refl (omega arith),
)
