-- ===== src/Store/Sqlite/Cached.antt =====
-- internal/store/sessions.go: the cache as a store of sessions.
use kvm_switcher.Prelude.{◌≡◌, refl, String, lookup, insert, erase, arith, string_eq}
use kvm_switcher.Session.{KvmSession, SessionStore, sessions_of, find_in}
use kvm_switcher.Store.Sqlite.{Sqlite, persist_session, get, put, delete, list, find_by_server}

pub get_lem : (id : String) (db : Sqlite) → get id db ≡ lookup id db.cache
unfolding get
get_lem id db = refl

pub view-put : (x : KvmSession) (db : Sqlite) → (put x db).cache ≡ insert x.id x db.cache
unfolding put persist_session
view-put x db = ground arith

pub view-delete : (id : String) (db : Sqlite) → (delete id db).cache ≡ erase id db.cache
unfolding delete
view-delete id db = refl

pub list_lem : (db : Sqlite) → list db ≡ sessions_of db.cache
unfolding list
list_lem db = refl

pub find_lem : (name : String) (db : Sqlite) → find_by_server name db ≡ find_in name db.cache
unfolding find_by_server
find_lem name db = refl

-- The contract, filled by the cache, whether or not the database is up.
abbrev pub sqlite_store : SessionStore
sqlite_store = record {
  Store = Sqlite;
  view = λ db. db.cache;
  get = get;
  put = put;
  delete = delete;
  list = list;
  find_by_server = find_by_server;
  get_lem = get_lem;
  view-put = view-put;
  view-delete = view-delete;
  list_lem = list_lem;
  find_lem = find_lem;
}
