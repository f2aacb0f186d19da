-- ===== src/Viewers/Newcomer.antt =====
-- internal/api/viewers.go: a viewer that comes and goes again.
use kvm_switcher.Prelude.{
  sym, if◌then◌else◌, refl, inr, inl, ◌==◌, string_eq, Bool-cases, beq_iff, arith, erase-insert,
  ◌++◌, ◌≢◌, ◌≡◌, lookup, List, contains, remove_first, String, ℕ, [], ◌∷◌, none, true, false,
}
use kvm_switcher.Viewers.{first_or_nobody, new_viewer, Registry, remove, add}

remove_first-append :
    (k : String) (xs : List String) → contains k xs ≡ false → remove_first k (xs ++ k ∷ []) ≡ xs
unfolding remove_first contains
remove_first-append k [] h = ground (arith, beq_iff k k)
remove_first-append k (x ∷ xs) h = ground (arith, remove_first-append k xs)

-- The name is new to the registry, which has a controller unless it is empty.
pub record IsNew (v : String) (r : Registry) : Type 0 where
  pub unknown : lookup v r.viewers ≡ none
  pub unordered : contains v r.order ≡ false
  pub other : r.controller ≢ v
  pub empty : r.controller ≡ "" → r.order ≡ []

-- The controller after both.
controller_again :
    (v : String) (r : Registry)
    → IsNew v r
    → let c = if r.controller == "" then v else r.controller in
      (if c == v then first_or_nobody r.order else c) ≡ r.controller
controller_again v r n = elim (Bool-cases (r.controller == "")) [
  | inl e ↦
      let nobody : r.controller ≡ "" = ground (arith, beq_iff r.controller "") in
      let i : (v == v) ≡ true = (beq_iff v v).1 refl in rw (e, i, n.empty nobody) (sym nobody)
  | inr e ↦
      let d : (r.controller == v) ≡ false = ground (arith, n.other, beq_iff r.controller v) in
      rw (e, d) refl
]

pub remove-add_new :
    (v name ip : String) (now : ℕ) (r : Registry) → IsNew v r → remove v (add v name ip now r) ≡ r
unfolding add remove
remove-add_new v name ip now r n =
    let o = remove_first-append v r.order n.unordered in
    let w = erase-insert v (new_viewer v name ip now) r.viewers n.unknown in
    let c : (if (if r.controller == "" then v else r.controller) == v
          then first_or_nobody (remove_first v (r.order ++ v ∷ []))
          else (if r.controller == "" then v else r.controller))
        ≡ r.controller =
      rw o (controller_again v r n) in
    λ i. record r { viewers = w i; controller = c i; order = o i }
