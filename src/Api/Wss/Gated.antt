-- ===== src/Api/Wss/Gated.antt =====
-- internal/api/websocket.go: only the viewer with control reaches the board.
use kvm_switcher.Prelude.{
  nat_eq, remove_first, beq_iff, length, arith, string_eq, not, inr, ◌||◌, ap, inl, ◌==◌, refl,
  lookup, ◌∙◌, false, true, Option-cases, if◌then◌else◌, Bool-cases, ◌≡◌, String, List, Bool, ℕ, [],
  ◌∷◌,
}
use kvm_switcher.Viewers.{Registry, add, has_control}
use kvm_switcher.Ikvm.Bytes.{Bytes}
use kvm_switcher.Api.Wss.{
  make_proxy, stop_wss, client_message, connect_viewer, backend_ends, ensure_wss_proxy,
  backend_message, WssSession, leave,
}

pub data Event : Type 0 where
  connects : String → String → String → String → ℕ → Bool → Event
  leaves : String → Event
  writes : String → Bytes → Event
  broadcasts : ℕ → (String → Bool) → Bytes → Event
  dies : ℕ → Event
  stops : Event
  -- Requests for control, their answers and releases.
  hands_over : (Registry → Registry) → Event

abbrev pub happens : Event → WssSession → WssSession
happens (connects conn viewer name ip now dials) s = connect_viewer conn viewer name ip now dials s
happens (leaves conn) s = leave conn s
happens (writes conn bytes) s = client_message conn bytes s
happens (broadcasts p fails bytes) s = backend_message p fails bytes s
happens (dies p) s = backend_ends p s
happens stops s = stop_wss s
happens (hands_over f) s = record s { registry = f s.registry }

abbrev pub run : List Event → WssSession → WssSession
run [] s = s
run (e ∷ es) s = run es (happens e s)

-- The viewer has no control before any of the events.
abbrev pub NeverControls : String → List Event → WssSession → Type 0
NeverControls v [] s = Unit {0}
NeverControls v (e ∷ es) s = (has_control v s.registry ≡ false) × NeverControls v es (happens e s)

-- What a viewer wrote to the board, newest first.
abbrev pub written_by : String → List (String × Bytes) → List Bytes
written_by v [] = []
written_by v ((w, bytes) ∷ log) =
    let rest = written_by v log in if w == v then bytes ∷ rest else rest

stop_wss-forwarded : (s : WssSession) → (stop_wss s).forwarded ≡ s.forwarded
unfolding stop_wss
stop_wss-forwarded s = elim (Option-cases s.current) [
  | inl e ↦ rw (stop_wss, e) refl
  | inr (p, e) ↦ rw (stop_wss, e) refl
]

leave-forwarded : (conn : String) (s : WssSession) → (leave conn s).forwarded ≡ s.forwarded
unfolding leave
leave-forwarded conn s = elim (Option-cases (lookup conn s.connections)) [
  | inl e ↦ rw (leave, e) refl
  | inr (c, e) ↦ elim (Bool-cases (length (remove_first conn (s.proxies c.proxy).clients) == 0)) [
    | inl z ↦ rw (leave, e, z) (stop_wss-forwarded _)
    | inr z ↦ rw (leave, e, z) refl
  ]
]

make-forwarded : (dials : Bool) (s : WssSession) → (make_proxy dials s).0.forwarded ≡ s.forwarded
make-forwarded true s = refl
make-forwarded false s = refl

ensure-forwarded :
    (dials : Bool) (s : WssSession) → (ensure_wss_proxy dials s).0.forwarded ≡ s.forwarded
unfolding ensure_wss_proxy
ensure-forwarded dials s = elim (Option-cases s.current) [
  | inl e ↦ rw (ensure_wss_proxy, e) (make-forwarded dials s)
  | inr (p, e) ↦ elim (Bool-cases (s.proxies p).done) [
    | inl d ↦ rw (ensure_wss_proxy, e, d) (make-forwarded dials s)
    | inr d ↦ rw (ensure_wss_proxy, e, d) refl
  ]
]

connect-forwarded :
    (conn viewer name ip : String) (now : ℕ) (dials : Bool) (s : WssSession)
    → (connect_viewer conn viewer name ip now dials s).forwarded ≡ s.forwarded
unfolding connect_viewer
connect-forwarded conn viewer name ip now dials s =
    let joined : WssSession = record s { registry = add viewer name ip now s.registry } in
    elim (Option-cases (ensure_wss_proxy dials joined).1) [
      | inl e ↦ rw (connect_viewer, e) (ensure-forwarded dials joined)
      | inr (p, e) ↦ rw (connect_viewer, e) (ensure-forwarded dials joined)
    ]

backend_message-forwarded :
    (p : ℕ) (fails : String → Bool) (bytes : Bytes) (s : WssSession)
    → (backend_message p fails bytes s).forwarded ≡ s.forwarded
unfolding backend_message
backend_message-forwarded p fails bytes s =
    elim (Bool-cases ((s.proxies p).done || not (s.proxies p).open_backend)) [
      | inl e ↦ rw (backend_message, e) refl
      | inr e ↦ rw (backend_message, e) refl
    ]

client_message-written :
    (v conn : String) (bytes : Bytes) (s : WssSession)
    → has_control v s.registry ≡ false
    → written_by v (client_message conn bytes s).forwarded ≡ written_by v s.forwarded
unfolding client_message
client_message-written v conn bytes s no_control = elim (Option-cases (lookup conn s.connections)) [
  | inl e ↦ rw (client_message, e) refl
  | inr (c, e) ↦
      let gone : written_by v (leave conn s).forwarded ≡ written_by v s.forwarded =
        ap (written_by v) (leave-forwarded conn s) in
      elim (Bool-cases ((s.proxies c.proxy).done || not c.is_open)) [
        | inl d ↦ rw (client_message, e, d) gone
        | inr d ↦ elim (Bool-cases (has_control c.viewer s.registry)) [
          | inr h ↦ rw (client_message, e, d, h) refl
          | inl h ↦ elim (Bool-cases (s.proxies c.proxy).open_backend) [
            | inr b ↦ rw (client_message, e, d, h, b) gone
            | inl b ↦
                let other : (c.viewer == v) ≡ false = ground (arith, beq_iff c.viewer v) in
                rw (client_message, e, d, h, b, other) refl
          ]
        ]
      ]
]

happens-written :
    (v : String) (e : Event) (s : WssSession)
    → has_control v s.registry ≡ false
    → written_by v (happens e s).forwarded ≡ written_by v s.forwarded
unfolding backend_ends
happens-written v (connects conn viewer name ip now dials) s h =
    ap (written_by v) (connect-forwarded conn viewer name ip now dials s)
happens-written v (leaves conn) s h = ap (written_by v) (leave-forwarded conn s)
happens-written v (writes conn bytes) s h = client_message-written v conn bytes s h
happens-written v (broadcasts p fails bytes) s h =
    ap (written_by v) (backend_message-forwarded p fails bytes s)
happens-written v (dies p) s h = refl
happens-written v stops s h = ap (written_by v) (stop_wss-forwarded s)
happens-written v (hands_over f) s h = refl

-- While a viewer has no control, nothing that it sends reaches the board, however viewers and backends come and
-- go and control is handed over.
pub run-written_by :
    (v : String) (es : List Event) (s : WssSession)
    → NeverControls v es s
    → written_by v (run es s).forwarded ≡ written_by v s.forwarded
run-written_by v [] s h = refl
run-written_by v (e ∷ es) s (h, hs) = run-written_by v es (happens e s) hs ∙ happens-written v e s h
