-- ===== src/Store/Sqlite/Synced.antt =====
-- internal/store/sessions.go: the table beside the cache, over a history of calls.
use kvm_switcher.Prelude.{
  ◌≡◌, refl, String, true, Option, none, some, List, [], ◌∷◌, lookup, lookup-insert,
  insert-Distinct, erase-Distinct, NamedBy, lookup-NamedBy, insert-NamedBy, erase-NamedBy,
  lookup-erase, keys, Distinct, arith, string_eq,
}
use kvm_switcher.Session.{KvmSession}
use kvm_switcher.Store.Sqlite.{Sqlite, Row, to_row, persist_session, put, delete, upserted, format}

pub data Call : Type 0 where
  puts : KvmSession → Call
  deletes : String → Call

unfoldable pub step : Sqlite → Call → Sqlite
step db (puts s) = put s db
step db (deletes id) = delete id db

unfoldable pub run : Sqlite → List Call → Sqlite
run db [] = db
run db (c ∷ cs) = run (step db c) cs

-- A session that is set again keeps the columns that an update leaves alone.
abbrev pub Keeps : Option KvmSession → KvmSession → Type 0
Keeps none s = Unit {0}
Keeps (some old) s =
    (old.server_name ≡ s.server_name)
    × (old.bmc_ip ≡ s.bmc_ip)
    × (format old.created_at ≡ format s.created_at)

abbrev pub AllKeep : Sqlite → List Call → Type 0
AllKeep db [] = Unit {0}
AllKeep db (puts s ∷ cs) = Keeps (lookup s.id db.cache) s × AllKeep (put s db) cs
AllKeep db (deletes id ∷ cs) = AllKeep (delete id db) cs

abbrev pub stored : Option KvmSession → Option Row
stored none = none
stored (some s) = some (to_row s)

abbrev pub row_name : Row → String
row_name r = r.id

abbrev pub session_name : KvmSession → String
session_name s = s.id

-- The table holds the rows of the cached sessions, and the database is up.
pub record Synced (db : Sqlite) : Type 0 where
  pub up : db.up ≡ true
  pub same : (id : String) → lookup id db.rows ≡ stored (lookup id db.cache)
  pub distinct : Distinct (keys db.rows)
  pub named : NamedBy row_name db.rows

upserted-same :
    (old : Option KvmSession) (s : KvmSession) (r : Option Row)
    → Keeps old s
    → r ≡ stored old
    → ((x : Row) → r ≡ some x → x.id ≡ s.id)
    → upserted r (to_row s) ≡ to_row s
upserted-same none s r k e n = rw e refl
upserted-same (some o) s r k e n = rw e (ground (arith, n (to_row o)))

put-Synced :
    (s : KvmSession) (db : Sqlite) → Keeps (lookup s.id db.cache) s → Synced db → Synced (put s db)
unfolding put persist_session
put-Synced s db k v =
    let old : Option Row = lookup s.id db.rows in
    let e : upserted old (to_row s) ≡ to_row s =
      upserted-same (lookup s.id db.cache) s old k (v.same s.id)
        (λ x. lookup-NamedBy row_name s.id x db.rows v.named) in
    record {
      up = ground (arith, v.up);
      same = λ id. ground (
        arith,
        e,
        v.up,
        v.same id,
        lookup-insert s.id id (upserted old (to_row s)) db.rows,
        lookup-insert s.id id s db.cache,
      );
      distinct =
          ground (arith, v.up, insert-Distinct s.id (upserted old (to_row s)) db.rows v.distinct);
      named =
          ground (arith, e, v.up, insert-NamedBy row_name s.id (upserted old (to_row s)) db.rows);
    }

delete-Synced : (id : String) (db : Sqlite) → Synced db → Synced (delete id db)
unfolding delete
delete-Synced id db v = record {
  up = v.up;
  same = λ k. ground (arith, v.up, v.same k, lookup-erase id k db.rows, lookup-erase id k db.cache);
  distinct = ground (arith, v.up, erase-Distinct id db.rows v.distinct);
  named = ground (arith, v.up, erase-NamedBy row_name id db.rows v.named);
}

pub run-Synced : (db : Sqlite) (cs : List Call) → AllKeep db cs → Synced db → Synced (run db cs)
unfolding run step
run-Synced db [] k v = v
run-Synced db (puts s ∷ cs) k v = run-Synced (put s db) cs k.1 (put-Synced s db k.0 v)
run-Synced db (deletes id ∷ cs) k v = run-Synced (delete id db) cs k (delete-Synced id db v)
