-- ===== src/Store/Sqlite/Restart.antt =====
-- internal/store/sessions.go: what a restart brings back.
use kvm_switcher.Store.Sqlite.Synced.{
  run-Synced, run, AllKeep, Call, Synced, session_name, row_name, stored,
}
use kvm_switcher.Store.Sqlite.Cached.{view-put}
use kvm_switcher.Prelude.{
  ◌≡◌, refl, String, true, Option, none, some, List, [], ◌∷◌, lookup, insert, lookup-insert,
  insert-Distinct, NamedBy, insert-NamedBy, keys, Distinct, contains-keys, eq_iff, arith, string_eq,
  if◌then◌else◌, ◌∙◌, ap,
}
use kvm_switcher.Session.{KvmSession, disconnected, Table, is_active}
use kvm_switcher.Store.Sqlite.{
  Sqlite, Row, from_row, get, put, load_rows, mark_stale, open_store, format, parse,
}

-- What a key holds after the rows are read into a cache.
abbrev read : Option Row → Option KvmSession → Option KvmSession
read none old = old
read (some r) old = some (from_row r)

lookup-load_rows :
    (k : String) (rows : List (String × Row)) (cache : Table)
    → Distinct (keys rows)
    → NamedBy row_name rows
    → lookup k (load_rows rows cache) ≡ read (lookup k rows) (lookup k cache)
unfolding load_rows lookup
lookup-load_rows k [] cache d n = refl
lookup-load_rows k ((id, r) ∷ rows) cache d n = ground (
  arith,
  lookup-load_rows k rows (insert r.id (from_row r) cache) d.1 n.1,
  lookup-insert r.id k (from_row r) cache,
  contains-keys id rows,
  eq_iff id k,
)

load_rows-keyed :
    (rows : List (String × Row)) (cache : Table)
    → NamedBy row_name rows
    → Distinct (keys cache)
    → NamedBy session_name cache
    → Distinct (keys (load_rows rows cache)) × NamedBy session_name (load_rows rows cache)
unfolding load_rows
load_rows-keyed [] cache n d m = (d, m)
load_rows-keyed ((id, r) ∷ rows) cache n d m =
    load_rows-keyed rows (insert r.id (from_row r) cache) n.1
      (insert-Distinct r.id (from_row r) cache d)
      (insert-NamedBy session_name r.id (from_row r) cache refl m)

-- What a key holds after the stale sessions are marked.
abbrev marked : Option KvmSession → Option KvmSession → Option KvmSession
marked none now = now
marked (some s) now = if is_active s.status then some (record s { status = disconnected }) else now

lookup-mark_stale :
    (k : String) (ss : Table) (db : Sqlite)
    → Distinct (keys ss)
    → NamedBy session_name ss
    → lookup k (mark_stale ss db).cache ≡ marked (lookup k ss) (lookup k db.cache)
unfolding mark_stale lookup
lookup-mark_stale k [] db d n = refl
lookup-mark_stale k ((id, s) ∷ ss) db d n =
    let s' : KvmSession = record s { status = disconnected } in
    ground (
      arith,
      lookup-mark_stale k ss db d.1 n.1,
      lookup-mark_stale k ss (put s' db) d.1 n.1,
      view-put s' db,
      lookup-insert s.id k s' db.cache,
      contains-keys id ss,
      eq_iff id k,
    )

-- What a restart makes of a cached session: the times are cut to the second, the native connection
-- arguments are gone, and a session that was starting or connected is disconnected.
abbrev pub restarted : Option KvmSession → Option KvmSession
restarted none = none
restarted (some s) = some (record s {
  status = if is_active s.status then disconnected else s.status;
  ikvm_args = none;
  created_at = parse (format s.created_at);
  last_activity = parse (format s.last_activity);
})

restarted_as : Option KvmSession → Option KvmSession
restarted_as o = marked (read (stored o) none) (read (stored o) none)

restarted_as_lem : (o : Option KvmSession) → restarted_as o ≡ restarted o
unfolding restarted_as
restarted_as_lem none = refl
restarted_as_lem (some s) = ground arith

-- When the table and the cache agree, a store that is opened on the table answers for every id what
-- the restart makes of the session that the old store answered: nothing for nothing, and for a
-- session the same one with its times cut to the second, without native arguments, and
-- disconnected if it was active.
pub get-open_store :
    (k : String) (db : Sqlite) → Synced db → get k (open_store db.rows) ≡ restarted (get k db)
unfolding open_store get restarted_as lookup
get-open_store k db v =
    let cache : Table = load_rows db.rows [] in
    let l : lookup k cache ≡ read (stored (lookup k db.cache)) none =
      lookup-load_rows k db.rows [] v.distinct v.named ∙ ap (λ o. read o none) (v.same k) in
    let q : Distinct (keys cache) × NamedBy session_name cache =
      load_rows-keyed db.rows [] v.named tt tt in
    lookup-mark_stale k cache (record { cache = cache; rows = db.rows; up = true }) q.0 q.1
    ∙ ap (λ o. marked o o) l
    ∙ restarted_as_lem (lookup k db.cache)

-- Nothing is stored yet, and the database is up.
abbrev pub empty : Sqlite
empty = record { cache = []; rows = []; up = true }

empty-Synced : Synced empty
unfolding lookup
empty-Synced = record { up = refl; same = λ id. refl; distinct = tt; named = tt }

-- After any history of sessions set and deleted in which a session keeps its server name, address and
-- creation second while it exists, a restart brings back for every id what it makes of the session that
-- was there before: nothing is lost, nothing comes back that was deleted, and no session is active.
pub get-run_restart :
    (k : String) (cs : List Call)
    → AllKeep empty cs
    → get k (open_store (run empty cs).rows) ≡ restarted (get k (run empty cs))
get-run_restart k cs h = get-open_store k (run empty cs) (run-Synced empty cs h empty-Synced)
