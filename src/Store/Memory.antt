-- ===== src/Store/Memory.antt =====
-- internal/models/models.go: `SessionStore`, the sessions in a map in memory.
use kvm_switcher.Prelude.{◌≡◌, refl, String, Option, List, [], lookup, insert, erase}
use kvm_switcher.Session.{KvmSession, Table, SessionStore, sessions_of, find_in}

pub record MemoryStore : Type 0 where
  pub sessions : Table

unfoldable pub new : MemoryStore
new = record { sessions = [] }

unfoldable pub get : String → MemoryStore → Option KvmSession
get id s = lookup id s.sessions

unfoldable pub put : KvmSession → MemoryStore → MemoryStore
put x s = record { sessions = insert x.id x s.sessions }

unfoldable pub delete : String → MemoryStore → MemoryStore
delete id s = record { sessions = erase id s.sessions }

unfoldable pub list : MemoryStore → List KvmSession
list s = sessions_of s.sessions

unfoldable pub find_by_server : String → MemoryStore → Option KvmSession
find_by_server name s = find_in name s.sessions

pub get_lem : (id : String) (s : MemoryStore) → get id s ≡ lookup id s.sessions
unfolding get
get_lem id s = refl

pub view-put : (x : KvmSession) (s : MemoryStore) → (put x s).sessions ≡ insert x.id x s.sessions
unfolding put
view-put x s = refl

pub view-delete : (id : String) (s : MemoryStore) → (delete id s).sessions ≡ erase id s.sessions
unfolding delete
view-delete id s = refl

pub list_lem : (s : MemoryStore) → list s ≡ sessions_of s.sessions
unfolding list
list_lem s = refl

pub find_lem : (name : String) (s : MemoryStore) → find_by_server name s ≡ find_in name s.sessions
unfolding find_by_server
find_lem name s = refl

abbrev pub memory_store : SessionStore
memory_store = record {
  Store = MemoryStore;
  view = λ s. s.sessions;
  get = get;
  put = put;
  delete = delete;
  list = list;
  find_by_server = find_by_server;
  get_lem = get_lem;
  view-put = view-put;
  view-delete = view-delete;
  list_lem = list_lem;
  find_lem = find_lem;
}
