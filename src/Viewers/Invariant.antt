-- ===== src/Viewers/Invariant.antt =====
-- What every history of calls on a registry keeps, and what it says of the controller.
use kvm_switcher.Prelude.{
  ℕ, ◌≡◌, ◌≢◌, refl, ◌⊎◌, inl, inr, String, true, false, List, [], ◌∷◌, string_eq, contains,
  remove_first, keys, contains-keys, keys-insert_fresh, keys-erase, Distinct, append-Distinct,
  remove_first-Distinct, contains-append, contains_one, contains-remove_first_ne,
  contains-remove_first_self, beq_iff, arith, Option-cases,
}
use kvm_switcher.Viewers.{
  Registry, new, new_viewer, add, remove, request_control, on_timeout, accept_control_request,
  deny_control_request, release_control, next_viewer, first_or_nobody,
}

pub data Call : Type 0 where
  adds : String → String → String → ℕ → Call
  requests : String → ℕ → ℕ → Call
  removes times_out releases : String → Call
  accepts denies : Call

unfoldable pub step : Registry → Call → Registry
step r (adds id name ip now) = add id name ip now r
step r (requests id seconds now) = (request_control id seconds now r).0
step r (removes id) = remove id r
step r (times_out id) = on_timeout id r
step r (releases id) = release_control id r
step r accepts = (accept_control_request r).0
step r denies = deny_control_request r

unfoldable pub run : Registry → List Call → Registry
run r [] = r
run r (c ∷ cs) = run (step r c) cs

-- A viewer joins under a name that is not empty and that no connected viewer has.
abbrev pub IsFresh : Registry → Call → Type 0
IsFresh r (adds id name ip now) = (id ≢ "") × (contains id r.order ≡ false)
IsFresh r _ = Unit {0}

abbrev pub AllFresh : Registry → List Call → Type 0
AllFresh r [] = Unit {0}
AllFresh r (c ∷ cs) = IsFresh r c × AllFresh (step r c) cs

pub record Inv (r : Registry) : Type 0 where
  pub keyed : keys r.viewers ≡ r.order
  pub distinct : Distinct r.order
  pub named : contains "" r.order ≡ false
  pub controlled : (r.controller ≡ "") ⊎ (contains r.controller r.order ≡ true)

new-Inv : Inv new
unfolding new contains
new-Inv = record { keyed = refl; distinct = tt; named = refl; controlled = inl refl }

first_lem :
    (xs : List String) → (first_or_nobody xs ≡ "") ⊎ (contains (first_or_nobody xs) xs ≡ true)
unfolding contains
first_lem [] = inl refl
first_lem (x ∷ xs) = inr (ground (arith, beq_iff x x))

pub next_viewer_lem :
    (id : String) (xs : List String)
    → (next_viewer id xs ≡ "") ⊎ (contains (next_viewer id xs) xs ≡ true)
unfolding next_viewer contains
next_viewer_lem id [] = inl refl
next_viewer_lem id (x ∷ xs) = ground (arith, beq_iff x x, next_viewer_lem id xs)

add-Inv :
    (id name ip : String) (now : ℕ) (r : Registry)
    → (id ≢ "")
    → contains id r.order ≡ false
    → Inv r
    → Inv (add id name ip now r)
unfolding add
add-Inv id name ip now r h n v = ground (
  arith,
  keys-insert_fresh id (new_viewer id name ip now) r.viewers,
  append-Distinct id r.order,
  contains-append "" r.order (id ∷ []),
  contains-append id r.order (id ∷ []),
  contains-append r.controller r.order (id ∷ []),
  contains_one "" id,
  contains_one id id,
  beq_iff id id,
  beq_iff id "",
  beq_iff r.controller "",
)

remove-Inv : (id : String) (r : Registry) → Inv r → Inv (remove id r)
unfolding remove
remove-Inv id r v = ground (
  arith,
  keys-erase id r.viewers,
  remove_first-Distinct id r.order,
  first_lem (remove_first id r.order),
  contains-remove_first_ne id "" r.order,
  contains-remove_first_self id r.order,
  contains-remove_first_ne id r.controller r.order,
  beq_iff r.controller id,
)

step-Inv : (r : Registry) (c : Call) → IsFresh r c → Inv r → Inv (step r c)
unfolding step request_control on_timeout accept_control_request deny_control_request
    release_control
step-Inv r (adds id name ip now) h v = add-Inv id name ip now r h.0 h.1 v
step-Inv r (requests id seconds now) h v = ground arith
step-Inv r (removes id) h v = remove-Inv id r v
step-Inv r (times_out id) h v = ground (arith, contains-keys id r.viewers)
step-Inv r (releases id) h v = ground (arith, next_viewer_lem id r.order)
step-Inv r accepts h v = elim (Option-cases r.pending) [
  | inl e ↦ ground arith
  | inr (q, e) ↦ ground (arith, contains-keys q.requester_id r.viewers)
]
step-Inv r denies h v = ground arith

run-Inv : (r : Registry) (cs : List Call) → AllFresh r cs → Inv r → Inv (run r cs)
unfolding run
run-Inv r [] h v = v
run-Inv r (c ∷ cs) h v = run-Inv (step r c) cs h.1 (step-Inv r c h.0 v)

-- After any history in which viewers join under fresh names, the connection order lists exactly the
-- connected viewers, nobody twice, and the controller is nobody or a connected viewer.
pub run-new-Inv : (cs : List Call) → AllFresh new cs → Inv (run new cs)
run-new-Inv cs h = run-Inv new cs h new-Inv
