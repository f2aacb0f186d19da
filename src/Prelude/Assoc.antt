-- ===== src/Prelude/Assoc.antt =====
-- Go maps with text keys, as association lists that hold a key at most once.
use Prim.Native.String.{String}
use mathlib.Core.Path.{◌≡◌, refl}
use mathlib.Core.Option.{Option, none, some}
use mathlib.Core.List.{List, [], ◌∷◌}
use native.Mathlib.Omega.{arith}
use kvm_switcher.Prelude.Tests.{◌==◌, string_eq, if◌then◌else◌, beq_iff}

module _ {ℓ} {V : Type ℓ} where
  unfoldable pub lookup : String → List (String × V) → Option V
  lookup key [] = none
  lookup key ((at, val) ∷ rest) = if at == key then some val else lookup key rest

  unfoldable pub erase : String → List (String × V) → List (String × V)
  erase key [] = []
  erase key ((at, val) ∷ rest) =
      let kept = erase key rest in if at == key then kept else (at, val) ∷ kept

  unfoldable pub insert : String → V → List (String × V) → List (String × V)
  insert key new [] = (key, new) ∷ []
  insert key new ((at, val) ∷ rest) =
      if at == key then (key, new) ∷ rest else (at, val) ∷ insert key new rest

  pub lookup-erase :
      (key other : String) (m : List (String × V))
      → lookup other (erase key m) ≡ (if key == other then none else lookup other m)
  unfolding lookup erase
  lookup-erase key other [] = ground arith
  lookup-erase key other ((at, val) ∷ rest) =
      ground
        (arith, lookup-erase key other rest, beq_iff key other, beq_iff at other, beq_iff at key)

  pub lookup-insert :
      (key other : String) (new : V) (m : List (String × V))
      → lookup other (insert key new m) ≡ (if key == other then some new else lookup other m)
  unfolding lookup insert
  lookup-insert key other new [] = refl
  lookup-insert key other new ((at, val) ∷ rest) =
      ground (
        arith,
        lookup-insert key other new rest,
        beq_iff key other,
        beq_iff at other,
        beq_iff at key,
      )

  erase_absent : (key : String) (m : List (String × V)) → lookup key m ≡ none → erase key m ≡ m
  unfolding lookup erase
  erase_absent key [] h = refl
  erase_absent key ((at, val) ∷ rest) h = ground (arith, erase_absent key rest)

  -- A new key that is taken back.
  pub erase-insert :
      (key : String) (new : V) (m : List (String × V))
      → lookup key m ≡ none
      → erase key (insert key new m) ≡ m
  unfolding lookup erase insert
  erase-insert key new [] h = ground (arith, beq_iff key key)
  erase-insert key new ((at, val) ∷ rest) h = ground (arith, erase-insert key new rest)
