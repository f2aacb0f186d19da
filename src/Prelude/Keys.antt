-- ===== src/Prelude/Keys.antt =====
-- The keys of a map.
use Prim.Native.String.{String}
use mathlib.Core.Path.{◌≡◌, refl, sym, subst}
use mathlib.Core.Bool.{false}
use mathlib.Core.Option.{some}
use mathlib.Core.List.{List, [], ◌∷◌, ◌++◌}
use native.Mathlib.Omega.{arith}
use kvm_switcher.Prelude.Tests.{string_eq, beq_iff, is_some}
use kvm_switcher.Prelude.Lists.{length}
use kvm_switcher.Prelude.Assoc.{lookup, insert, erase, lookup-insert}
use kvm_switcher.Prelude.Texts.{contains, remove_first, Distinct, remove_first-Distinct}

module _ {ℓ} {V : Type ℓ} where
  abbrev pub keys : List (String × V) → List String
  keys [] = []
  keys ((j, v) ∷ m) = j ∷ keys m

  pub length-keys : (m : List (String × V)) → length (keys m) ≡ length m
  length-keys [] = refl
  length-keys ((j, v) ∷ m) = omega (arith, length-keys m)

  pub contains-keys :
      (k : String) (m : List (String × V)) → contains k (keys m) ≡ is_some (lookup k m)
  unfolding contains lookup
  contains-keys k [] = refl
  contains-keys k ((j, v) ∷ m) = ground (arith, contains-keys k m)

  pub keys-insert_fresh :
      (k : String) (v : V) (m : List (String × V))
      → contains k (keys m) ≡ false
      → keys (insert k v m) ≡ keys m ++ k ∷ []
  unfolding contains insert
  keys-insert_fresh k v [] h = refl
  keys-insert_fresh k v ((j, w) ∷ m) h = ground (arith, keys-insert_fresh k v m)

  erase_fresh : (k : String) (m : List (String × V)) → contains k (keys m) ≡ false → erase k m ≡ m
  unfolding contains erase
  erase_fresh k [] h = refl
  erase_fresh k ((j, w) ∷ m) h = ground (arith, erase_fresh k m)

  pub keys-erase :
      (k : String) (m : List (String × V))
      → Distinct (keys m)
      → keys (erase k m) ≡ remove_first k (keys m)
  unfolding contains erase remove_first
  keys-erase k [] h = refl
  keys-erase k ((j, w) ∷ m) h = ground (arith, beq_iff j k, keys-erase k m h.1, erase_fresh k m)

  pub insert-Distinct :
      (k : String) (v : V) (m : List (String × V))
      → Distinct (keys m)
      → Distinct (keys (insert k v m))
  unfolding insert contains
  insert-Distinct k v [] h = ground arith
  insert-Distinct k v ((j, w) ∷ m) h = ground (
    arith,
    beq_iff j k,
    beq_iff k j,
    contains-keys j (insert k v m),
    contains-keys j m,
    lookup-insert k j v m,
    insert-Distinct k v m h.1,
  )

  pub erase-Distinct :
      (k : String) (m : List (String × V)) → Distinct (keys m) → Distinct (keys (erase k m))
  erase-Distinct k m h =
      subst Distinct (sym (keys-erase k m h)) (remove_first-Distinct k (keys m) h)

-- Every value is kept under the name that `name` reads off it.
module _ {ℓ} {V : Type ℓ} (name : V → String) where
  abbrev pub NamedBy : List (String × V) → Type 0
  NamedBy [] = Unit {0}
  NamedBy ((j, v) ∷ m) = (name v ≡ j) × NamedBy m

  pub insert-NamedBy :
      (k : String) (v : V) (m : List (String × V)) → name v ≡ k → NamedBy m → NamedBy (insert k v m)
  unfolding insert
  insert-NamedBy k v [] e h = (e, tt)
  insert-NamedBy k v ((j, w) ∷ m) e h = ground (arith, insert-NamedBy k v m e h.1)

  pub erase-NamedBy : (k : String) (m : List (String × V)) → NamedBy m → NamedBy (erase k m)
  unfolding erase
  erase-NamedBy k [] h = tt
  erase-NamedBy k ((j, w) ∷ m) h = ground (arith, erase-NamedBy k m h.1)

  pub lookup-NamedBy :
      (k : String) (v : V) (m : List (String × V)) → NamedBy m → lookup k m ≡ some v → name v ≡ k
  unfolding lookup
  lookup-NamedBy k v [] h e = cc
  lookup-NamedBy k v ((j, w) ∷ m) h e = ground (arith, beq_iff j k, lookup-NamedBy k v m h.1)
