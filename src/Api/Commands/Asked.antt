-- ===== src/Api/Commands/Asked.antt =====
-- internal/api/handlers.go and internal/ikvm/bridge.go: the messages that the requests ask for.
use kvm_switcher.Prelude.{◌≢◌, if◌then◌else◌}
use kvm_switcher.Ikvm.Client.{send_header, send_message_with_payload}
use kvm_switcher.Prelude.{Bool, [], ◌∷◌, string_eq, ◌++◌, ◌≡◌, some, String, Option}
use kvm_switcher.Ikvm.Bytes.{Bytes}

-- What the messages to the board are, by the word of the request.
pub data Powers : String → Bytes → Type 0 where
  off : Powers "off" (send_header 35 0 0)
  on : Powers "on" (send_header 35 0 1)
  cycle : Powers "cycle" (send_header 35 0 2)
  reset : Powers "reset" (send_header 35 0 3)
  soft_reset : Powers "soft_reset" (send_header 35 0 5)

pub data Points : String → Bytes → Type 0 where
  relative : Points "relative" (send_header 28 0 1)
  absolute : Points "absolute" (send_header 28 0 2)

-- The two letters of a layout in ASCII: AD, FR, DE, ES and JP.
pub data LaysOut : String → Bytes → Type 0 where
  english : LaysOut "en" (send_message_with_payload 55 0 (65 ∷ 68 ∷ []))
  french : LaysOut "fr" (send_message_with_payload 55 0 (70 ∷ 82 ∷ []))
  german : LaysOut "de" (send_message_with_payload 55 0 (68 ∷ 69 ∷ []))
  spanish : LaysOut "es" (send_message_with_payload 55 0 (69 ∷ 83 ∷ []))
  japanese : LaysOut "jp" (send_message_with_payload 55 0 (74 ∷ 80 ∷ []))

abbrev pub Locks : Bool → Bytes → Type 0
Locks lock bytes = bytes ≡ send_message_with_payload 51 0 ((if lock then 1 else 0) ∷ [])

-- The video is stopped, resumed and asked for.
abbrev pub Resets : Bool → Bytes → Type 0
Resets _ bytes = bytes ≡ send_header 4 0 0 ++ (send_header 6 0 0 ++ send_header 5 0 0)

abbrev pub Carries : Bytes → Bytes → Type 0
Carries data_bytes bytes = (data_bytes ≢ []) × (bytes ≡ send_message_with_payload 48 0 data_bytes)

-- The bytes are what the body asks for.
abbrev pub Asked : {A : Type 0} → (A → Bytes → Type 0) → Option A → Bytes → Type 0
Asked {A} Asks body bytes = (x : A) × ((body ≡ some x) × Asks x bytes)
