-- ===== src/Store/Sqlite.antt =====
-- internal/store/sessions.go: `SQLiteSessionStore`, a cache in front of the table `kvm_sessions`.
-- The table is a map from ids to rows, changed as the SQL statements in the code say. A statement
-- fails when the database is down, which the code only logs; `up` says of each moment whether it is
-- up. Times are nanoseconds and are stored as text to the second.
pub mod Cached
pub mod Synced
pub mod Restart
mod Tests
use kvm_switcher.Prelude.{
  ℕ, ◌/◌, ◌*◌, ◌≡◌, refl, String, Bool, true, false, Option, none, some, List, [], ◌∷◌, lookup,
  insert, erase, if◌then◌else◌,
}
use kvm_switcher.Session.{
  KvmSession, SessionStatus, starting, connected, disconnected, KvmMode, Table, SessionStore,
  sessions_of, find_in, is_active,
}

pub record Row : Type 0 where
  pub id : String
  pub server_name : String
  pub bmc_ip : String
  pub status : SessionStatus
  pub conn_mode : KvmMode
  pub kvm_target : String
  pub kvm_password : String
  pub created_at : ℕ
  pub last_activity : ℕ
  pub error : String

pub record Sqlite : Type 0 where
  pub cache : Table
  pub rows : List (String × Row)
  pub up : Bool

-- `t.Format(timeFormat)` and `time.Parse(timeFormat, s)`
abbrev pub format : ℕ → ℕ
format t = t / 1_000_000_000

abbrev pub parse : ℕ → ℕ
parse s = s * 1_000_000_000

abbrev pub to_row : KvmSession → Row
to_row s = record {
  id = s.id;
  server_name = s.server_name;
  bmc_ip = s.bmc_ip;
  status = s.status;
  conn_mode = s.conn_mode;
  kvm_target = s.kvm_target;
  kvm_password = s.kvm_password;
  created_at = format s.created_at;
  last_activity = format s.last_activity;
  error = s.error;
}

-- `ON CONFLICT(id) DO UPDATE SET …`: the columns that the statement names.
abbrev pub on_conflict : Row → Row → Row
on_conflict old new = record old {
  status = new.status;
  conn_mode = new.conn_mode;
  kvm_target = new.kvm_target;
  kvm_password = new.kvm_password;
  last_activity = new.last_activity;
  error = new.error;
}

abbrev pub upserted : Option Row → Row → Row
upserted none new = new
upserted (some old) new = on_conflict old new

unfoldable pub persist_session : KvmSession → Sqlite → Sqlite
persist_session s db =
    if db.up
    then record db { rows = insert s.id (upserted (lookup s.id db.rows) (to_row s)) db.rows }
    else db

unfoldable pub get : String → Sqlite → Option KvmSession
get id db = lookup id db.cache

unfoldable pub put : KvmSession → Sqlite → Sqlite
put s db = persist_session s (record db { cache = insert s.id s db.cache })

unfoldable pub delete : String → Sqlite → Sqlite
delete id db = record db {
  cache = erase id db.cache;
  rows = if db.up then erase id db.rows else db.rows;
}

unfoldable pub list : Sqlite → List KvmSession
list db = sessions_of db.cache

unfoldable pub find_by_server : String → Sqlite → Option KvmSession
find_by_server name db = find_in name db.cache

-- A row read back into a session; what is not stored is empty.
abbrev pub from_row : Row → KvmSession
from_row r = record {
  id = r.id;
  server_name = r.server_name;
  bmc_ip = r.bmc_ip;
  status = r.status;
  conn_mode = r.conn_mode;
  kvm_target = r.kvm_target;
  kvm_password = r.kvm_password;
  ikvm_args = none;
  created_at = parse r.created_at;
  last_activity = parse r.last_activity;
  error = r.error;
}

-- The loop over the rows: `s.cache[sess.ID] = &sess`.
unfoldable pub load_rows : List (String × Row) → Table → Table
load_rows [] cache = cache
load_rows ((id, r) ∷ rs) cache = load_rows rs (insert r.id (from_row r) cache)

-- The loop that marks sessions which cannot have survived a restart, over the sessions `ss`.
unfoldable pub mark_stale : Table → Sqlite → Sqlite
mark_stale [] db = db
mark_stale ((id, s) ∷ ss) db =
    mark_stale ss (if is_active s.status then put (record s { status = disconnected }) db else db)

-- `NewSQLiteSessionStore`, on a database that is up.
unfoldable pub open_store : List (String × Row) → Sqlite
open_store rows =
    let cache : Table = load_rows rows [] in
    mark_stale cache (record { cache = cache; rows = rows; up = true })
