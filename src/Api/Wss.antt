-- ===== src/Api/Wss.antt =====
-- internal/api/websocket.go: the connections to a board with a WebSocket of its own (`proxyWSS`), for one
-- session. A proxy object is a number; the map of the session may hold another one than a viewer uses.
pub mod Gated
pub mod Stale
mod Tests
use kvm_switcher.Prelude.{
  length, erase, nat_eq, remove_first, insert, not, ◌||◌, suc, lookup, ◌==◌, some, false, contains,
  Bool, if◌then◌else◌, String, Option, true, none, List, ℕ, [], ◌∷◌,
}
use kvm_switcher.Viewers.{has_control, remove, add, Registry}
use kvm_switcher.Ikvm.Bytes.{Bytes}

-- `done` says that the channel is closed, `open_backend` that the backend's connection is not. The clients are
-- connections by their names.
pub record WssProxy : Type 0 where
  pub open_backend : Bool
  pub done : Bool
  pub clients : List String

-- A viewer's connection: its viewer, the proxy that it uses, and what it was sent, newest first.
pub record WssClient : Type 0 where
  pub viewer : String
  pub proxy : ℕ
  pub is_open : Bool
  pub received : List Bytes

-- `current` is the proxy in the map, `made` how many there were. `forwarded` is what was written to backends,
-- with the viewer it came from, newest first.
pub record WssSession : Type 0 where
  pub proxies : ℕ → WssProxy
  pub made : ℕ
  pub current : Option ℕ
  pub connections : List (String × WssClient)
  pub registry : Registry
  pub forwarded : List (String × Bytes)

abbrev pub set_proxy : ℕ → WssProxy → WssSession → WssSession
set_proxy p x s = record s { proxies = λ n. if n == p then x else s.proxies n }

-- The checked origins: the wildcard, or the origin itself.
unfoldable pub check_origin : List String → String → Bool
check_origin origins origin = contains "*" origins || contains origin origins

abbrev fresh_proxy : WssProxy
fresh_proxy = record { open_backend = true; done = false; clients = [] }

abbrev pub make_proxy : Bool → WssSession → WssSession × Option ℕ
make_proxy dials s =
    if dials
    then (
      set_proxy s.made fresh_proxy (record s { made = suc s.made; current = some s.made }),
      some s.made,
    )
    else (record s { current = none }, none)

-- `ensureWSSProxy`: the proxy in the map unless its backend died; a new one needs the dial to succeed.
unfoldable pub ensure_wss_proxy : Bool → WssSession → WssSession × Option ℕ
ensure_wss_proxy dials s = elim s.current [
  | none ↦ make_proxy dials s
  | some p ↦ if (s.proxies p).done then make_proxy dials s else (s, some p)
]

abbrev pub closed : String → List (String × WssClient) → List (String × WssClient)
closed c conns = elim (lookup c conns) [
  | none ↦ conns
  | some k ↦ insert c (record k { is_open = false }) conns
]

abbrev pub close_all : List String → List (String × WssClient) → List (String × WssClient)
close_all [] conns = conns
close_all (c ∷ cs) conns = closed c (close_all cs conns)

-- The backend is closed, which ends its loop later on, and so are its clients.
unfoldable pub stop_wss : WssSession → WssSession
stop_wss s = elim s.current [
  | none ↦ s
  | some p ↦
      set_proxy p (record (s.proxies p) { open_backend = false; clients = [] })
        (record s { current = none; connections = close_all (s.proxies p).clients s.connections })
]

abbrev pub serve_viewer : String → String → WssSession × Option ℕ → WssSession
serve_viewer conn viewer (t, none) = record t { registry = remove viewer t.registry }
serve_viewer conn viewer (t, some p) =
    set_proxy p (record (t.proxies p) { clients = conn ∷ (t.proxies p).clients })
      (record t {
        connections =
            insert conn (record { viewer = viewer; proxy = p; is_open = true; received = [] })
              t.connections;
      })

-- A viewer comes, after the upgrade.
unfoldable pub connect_viewer :
    String → String → String → String → ℕ → Bool → WssSession → WssSession
connect_viewer conn viewer name ip now dials s =
    serve_viewer conn viewer
      (ensure_wss_proxy dials (record s { registry = add viewer name ip now s.registry }))

-- The deferred calls of a viewer's handler: without clients left the session's proxy is stopped.
unfoldable pub leave : String → WssSession → WssSession
leave conn s = elim (lookup conn s.connections) [
  | none ↦ s
  | some c ↦
      let rest : List String = remove_first conn (s.proxies c.proxy).clients in
      let left : WssSession =
        set_proxy c.proxy (record (s.proxies c.proxy) { clients = rest })
          (record s { connections = erase conn s.connections }) in
      let stopped : WssSession = if length rest == 0 then stop_wss left else left in
      record stopped { registry = remove c.viewer stopped.registry }
]

-- A message of a viewer: its handler ends if the proxy is done, or its own connection or the backend is closed.
unfoldable pub client_message : String → Bytes → WssSession → WssSession
client_message conn bytes s = elim (lookup conn s.connections) [
  | none ↦ s
  | some c ↦
      let gone : WssSession = leave conn s in
      if (s.proxies c.proxy).done || not c.is_open
      then gone
      else if not (has_control c.viewer s.registry)
      then s
      else if (s.proxies c.proxy).open_backend
      then record s { forwarded = (c.viewer, bytes) ∷ s.forwarded }
      else gone
]

-- One client of a broadcast; the write may fail.
abbrev pub delivered :
    (String → Bool) → Bytes → String → List (String × WssClient) → List (String × WssClient)
delivered fails bytes c conns = elim (lookup c conns) [
  | none ↦ conns
  | some k ↦
      insert c
        (if fails c
          then record k { is_open = false }
          else record k { received = bytes ∷ k.received })
        conns
]

abbrev pub broadcast :
    (String → Bool) → Bytes → List String → List (String × WssClient) → List (String × WssClient)
broadcast fails bytes [] conns = conns
broadcast fails bytes (c ∷ cs) conns = delivered fails bytes c (broadcast fails bytes cs conns)

abbrev pub reached : (String → Bool) → List String → List String
reached fails [] = []
reached fails (c ∷ cs) = let rest = reached fails cs in if fails c then rest else c ∷ rest

-- A message of the backend, in its loop.
unfoldable pub backend_message : ℕ → (String → Bool) → Bytes → WssSession → WssSession
backend_message p fails bytes s =
    let x : WssProxy = s.proxies p in
    if x.done || not x.open_backend
    then s
    else set_proxy p (record x { clients = reached fails x.clients })
        (record s { connections = broadcast fails bytes x.clients s.connections })

-- The loop ends, by an error of the connection or after the close.
unfoldable pub backend_ends : ℕ → WssSession → WssSession
backend_ends p s = set_proxy p (record (s.proxies p) { done = true }) s
