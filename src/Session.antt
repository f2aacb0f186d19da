-- ===== src/Session.antt =====
-- internal/models/models.go: KVM sessions and the contract of a session store.
-- A Go store hands out pointers; here it hands out values, and a handler that changes a session sets
-- it again, as the Go handlers do at the end of every change.
use kvm_switcher.Prelude.{
  ℕ, ◌≡◌, String, Bool, true, false, Option, none, some, List, [], ◌∷◌, ◌==◌, string_eq, ◌&&◌,
  lookup, insert, erase,
}

pub data SessionStatus : Type 0 where
  starting connected disconnected error : SessionStatus

-- `web_socket`, `vnc` and `ikvm`, or any other text.
pub data KvmMode : Type 0 where
  unset web_socket vnc ikvm : KvmMode
  unknown : String → KvmMode

pub record KvmSession : Type 0 where
  pub id : String
  pub server_name : String
  pub bmc_ip : String
  pub status : SessionStatus
  pub conn_mode : KvmMode
  pub kvm_target : String
  pub kvm_password : String
  pub ikvm_args : Option String
  pub created_at : ℕ
  pub last_activity : ℕ
  pub error : String

-- `session.Status == SessionStarting || session.Status == SessionConnected`
abbrev pub is_active : SessionStatus → Bool
is_active starting = true
is_active connected = true
is_active disconnected = false
is_active error = false

abbrev pub Table : Type 0
Table = List (String × KvmSession)

unfoldable pub sessions_of : Table → List KvmSession
sessions_of [] = []
sessions_of ((id, s) ∷ m) = s ∷ sessions_of m

-- The loop of `FindByServer`; every status but disconnected and error is active.
unfoldable pub find_in : String → Table → Option KvmSession
find_in name [] = none
find_in name ((id, s) ∷ m) =
    let rest = find_in name m in
    elim (s.server_name == name && is_active s.status) [ true ↦ some s | false ↦ rest ]

-- SessionStoreInterface: what a store does, in terms of the map from names to sessions that it stands
-- for. The map's order is the order in which a `range` visits it.
pub record SessionStore : Type 1 where
  pub Store : Type 0
  pub view : Store → Table
  pub get : String → Store → Option KvmSession
  pub put : KvmSession → Store → Store
  pub delete : String → Store → Store
  pub list : Store → List KvmSession
  pub find_by_server : String → Store → Option KvmSession
  pub get_lem : (id : String) (s : Store) → get id s ≡ lookup id (view s)
  pub view-put : (x : KvmSession) (s : Store) → view (put x s) ≡ insert x.id x (view s)
  pub view-delete : (id : String) (s : Store) → view (delete id s) ≡ erase id (view s)
  pub list_lem : (s : Store) → list s ≡ sessions_of (view s)
  pub find_lem : (name : String) (s : Store) → find_by_server name s ≡ find_in name (view s)
