-- ===== src/Prelude/Texts.antt =====
-- Lists of texts: membership, the removal of the first occurrence, and lists without repetition.
use Prim.Native.String.{String}
use mathlib.Core.Path.{◌≡◌, refl}
use mathlib.Core.Logic.{◌≢◌}
use mathlib.Core.Bool.{Bool, false, ◌||◌}
use mathlib.Core.List.{List, [], ◌∷◌, ◌++◌}
use native.Mathlib.Omega.{arith}
use kvm_switcher.Prelude.Tests.{◌==◌, string_eq, if◌then◌else◌, beq_iff}

unfoldable pub contains : String → List String → Bool
contains k [] = false
contains k (x ∷ xs) = x == k || contains k xs

unfoldable pub remove_first : String → List String → List String
remove_first k [] = []
remove_first k (x ∷ xs) = if x == k then xs else x ∷ remove_first k xs

-- No text stands twice.
abbrev pub Distinct : List String → Type 0
Distinct [] = Unit {0}
Distinct (x ∷ xs) = (contains x xs ≡ false) × Distinct xs

pub contains-append :
    (k : String) (xs ys : List String) → contains k (xs ++ ys) ≡ (contains k xs || contains k ys)
unfolding contains
contains-append k [] ys = refl
contains-append k (x ∷ xs) ys = ground (arith, contains-append k xs ys)

pub contains_one : (k x : String) → contains k (x ∷ []) ≡ (x == k)
unfolding contains
contains_one k x = ground arith

pub contains-remove_first_ne :
    (k j : String) (xs : List String) → k ≢ j → contains j (remove_first k xs) ≡ contains j xs
unfolding contains remove_first
contains-remove_first_ne k j [] h = refl
contains-remove_first_ne k j (x ∷ xs) h =
    ground (arith, beq_iff x k, beq_iff x j, contains-remove_first_ne k j xs h)

pub contains-remove_first_self :
    (k : String) (xs : List String) → Distinct xs → contains k (remove_first k xs) ≡ false
unfolding contains remove_first
contains-remove_first_self k [] h = refl
contains-remove_first_self k (x ∷ xs) h =
    ground (arith, beq_iff x k, contains-remove_first_self k xs h.1)

pub remove_first-Distinct :
    (k : String) (xs : List String) → Distinct xs → Distinct (remove_first k xs)
unfolding contains remove_first
remove_first-Distinct k [] h = tt
remove_first-Distinct k (x ∷ xs) h = ground (
  arith,
  beq_iff x k,
  beq_iff k x,
  remove_first-Distinct k xs h.1,
  contains-remove_first_ne k x xs,
)

pub append-Distinct :
    (k : String) (xs : List String) → contains k xs ≡ false → Distinct xs → Distinct (xs ++ k ∷ [])
unfolding contains
append-Distinct k [] n h = (refl, tt)
append-Distinct k (x ∷ xs) n h = ground (
  arith,
  beq_iff x k,
  beq_iff k x,
  contains-append x xs (k ∷ []),
  append-Distinct k xs (ground arith) h.1,
)
