-- ===== src/Viewers/Tests.antt =====
-- Runs of the registry, and its theorems at concrete inputs.
use kvm_switcher.Prelude.{
  ◌≡◌, ◌≢◌, refl, String, true, false, none, List, [], ◌∷◌, string_eq, ◌==◌, lookup, insert,
  contains, eq_iff, arith,
}
use kvm_switcher.Viewers.{
  Registry, new, add, remove, list, has_control, release_control, next_viewer, request_control,
  on_timeout,
}
use kvm_switcher.Viewers.Invariant.{
  Call, adds, requests, times_out, releases, step, run, AllFresh, Inv, run-new-Inv,
}
use kvm_switcher.Viewers.Control.{MayGive, step-MayGive, remove-add_same}

ne : (a b : String) → (a == b) ≡ false → a ≢ b
ne a b h e = ground (arith, eq_iff a b)

abbrev two_join : List Call
two_join = adds "a" "Ann" "10.0.0.1" 1 ∷ adds "b" "Bob" "10.0.0.2" 2 ∷ []

abbrev takeover : List Call
takeover =
    adds "a" "Ann" "10.0.0.1" 1
    ∷ adds "b" "Bob" "10.0.0.2" 2
    ∷ requests "b" 30 3
    ∷ times_out "b"
    ∷ []

two : Registry
unfolding run step add new
two = run new two_join

takeover_lem : (run new takeover).controller ≡ "b"
unfolding run step add new request_control on_timeout lookup insert
takeover_lem = refl

takeover-AllFresh : AllFresh new takeover
unfolding step add new contains request_control
takeover-AllFresh = ((ne "a" "" refl, refl), ((ne "b" "" refl, refl), (tt, (tt, tt))))

two-Inv : Inv two
unfolding two step add new contains
two-Inv = run-new-Inv two_join ((ne "a" "" refl, refl), ((ne "b" "" refl, refl), tt))

run-new-Inv_example : Inv (run new takeover)
run-new-Inv_example = run-new-Inv takeover takeover-AllFresh

step-MayGive_example : MayGive two (step two (releases "a")).controller (releases "a")
unfolding two step add new release_control next_viewer
step-MayGive_example = step-MayGive two (releases "a") (ne "b" "a" refl)

abbrev only : Registry
only = add "a" "Ann" "10.0.0.1" 1 new

remove-add_same_example :
    let s = remove "a" (add "a" "Ann" "10.0.0.2" 2 only) in
    (has_control "a" s ≡ true) × (lookup "a" s.viewers ≡ none) × (list s ≡ [])
unfolding add new
remove-add_same_example = remove-add_same only "a" "Ann" "10.0.0.2" 2 refl (ne "a" "" refl) refl
