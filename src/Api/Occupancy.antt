-- ===== src/Api/Occupancy.antt =====
-- How many sessions of a table are active, in all and for one server.
use kvm_switcher.Prelude.{
  inr, inl, Option-cases, ℕ, ◌+◌, ◌≤◌, ◌<◌, ◌≡◌, ◌⊎◌, refl, String, Bool, true, false, none, some,
  [], ◌∷◌, ◌==◌, string_eq, ◌&&◌, lookup, insert, arith, beq_iff,
}
use kvm_switcher.Session.{KvmSession, Table, is_active, sessions_of, find_in}
use kvm_switcher.Api.Sessions.{active_count}

abbrev pub one_if : Bool → ℕ
one_if true = 1
one_if false = 0

-- The active sessions.
abbrev pub actives : Table → ℕ
actives [] = 0
actives ((k, s) ∷ m) = one_if (is_active s.status) + actives m

abbrev pub holds : String → KvmSession → Bool
holds name s = s.server_name == name && is_active s.status

-- The active sessions for a server.
abbrev pub actives_for : String → Table → ℕ
actives_for name [] = 0
actives_for name ((k, s) ∷ m) = one_if (holds name s) + actives_for name m

pub active_count_lem : (m : Table) → active_count (sessions_of m) ≡ actives m
unfolding active_count sessions_of
active_count_lem [] = refl
active_count_lem ((k, s) ∷ m) = ground (arith, active_count_lem m)

pub actives_for-find_in :
    (name : String) (m : Table) → find_in name m ≡ none → actives_for name m ≡ 0
unfolding find_in
actives_for-find_in name [] h = refl
actives_for-find_in name ((k, s) ∷ m) h = ground (arith, actives_for-find_in name m)

-- A session under a new name adds itself.
pub actives-insert_fresh :
    (k : String) (s : KvmSession) (m : Table)
    → lookup k m ≡ none
    → actives (insert k s m) ≡ one_if (is_active s.status) + actives m
unfolding lookup insert
actives-insert_fresh k s [] h = refl
actives-insert_fresh k s ((j, t) ∷ m) h = ground (arith, actives-insert_fresh k s m)

pub actives_for-insert_fresh :
    (name k : String) (s : KvmSession) (m : Table)
    → lookup k m ≡ none
    → actives_for name (insert k s m) ≡ one_if (holds name s) + actives_for name m
unfolding lookup insert
actives_for-insert_fresh name k s [] h = refl
actives_for-insert_fresh name k s ((j, t) ∷ m) h =
    ground (arith, actives_for-insert_fresh name k s m)

-- A session in the place of another one takes its place in the count.
pub actives-insert_over :
    (k : String) (s old : KvmSession) (m : Table)
    → lookup k m ≡ some old
    → actives (insert k s m) + one_if (is_active old.status)
      ≡ one_if (is_active s.status) + actives m
unfolding lookup insert
actives-insert_over k s old [] h = ground arith
actives-insert_over k s old ((j, t) ∷ m) h = ground (arith, actives-insert_over k s old m)

pub actives_for-insert_over :
    (name k : String) (s old : KvmSession) (m : Table)
    → lookup k m ≡ some old
    → actives_for name (insert k s m) + one_if (holds name old)
      ≡ one_if (holds name s) + actives_for name m
unfolding lookup insert
actives_for-insert_over name k s old [] h = ground arith
actives_for-insert_over name k s old ((j, t) ∷ m) h =
    ground (arith, actives_for-insert_over name k s old m)

-- At most `limit` sessions are active, and at most one for each server.
pub record Fits (limit : ℕ) (m : Table) : Type 0 where
  pub total : actives m ≤ limit
  pub single : (name : String) → actives_for name m ≤ 1

-- A change that makes no session active keeps the bounds.
pub insert_over-Fits :
    (limit : ℕ) (s old : KvmSession) (k : String) (m : Table)
    → lookup k m ≡ some old
    → s.server_name ≡ old.server_name
    → (is_active old.status ≡ true) ⊎ (is_active s.status ≡ false)
    → Fits limit m
    → Fits limit (insert k s m)
insert_over-Fits limit s old k m h n act f = record {
  total = ground (arith, f.total, actives-insert_over k s old m h);
  single = λ name. ground (arith, f.single name, actives_for-insert_over name k s old m h);
}

pub insert_fresh-Fits :
    (limit : ℕ) (s : KvmSession) (k : String) (m : Table)
    → lookup k m ≡ none
    → find_in s.server_name m ≡ none
    → actives m < limit
    → Fits limit m
    → Fits limit (insert k s m)
insert_fresh-Fits limit s k m h free less f = record {
  total = ground (arith, actives-insert_fresh k s m h);
  single = λ name. ground (
    arith,
    f.single name,
    actives_for-insert_fresh name k s m h,
    beq_iff s.server_name name,
    actives_for-find_in name m,
  );
}

-- An inactive session takes no place, whatever it stands in the place of.
pub insert_inactive-Fits :
    (limit : ℕ) (s : KvmSession) (k : String) (m : Table)
    → is_active s.status ≡ false
    → Fits limit m
    → Fits limit (insert k s m)
insert_inactive-Fits limit s k m e f = elim (Option-cases (lookup k m)) [
  | inl h ↦ record {
    total = ground (arith, f.total, actives-insert_fresh k s m h);
    single = λ name. ground (arith, f.single name, actives_for-insert_fresh name k s m h);
  }
  | inr (old, h) ↦ record {
    total = ground (arith, f.total, actives-insert_over k s old m h);
    single = λ name. ground (arith, f.single name, actives_for-insert_over name k s old m h);
  }
]
