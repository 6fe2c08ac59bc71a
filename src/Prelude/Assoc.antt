-- ===== src/Prelude/Assoc.antt =====
-- A `Map` with text keys, as an association list: `set` keeps the place of a key that is there.
use mathlib.Core.Path.{◌≡◌, refl}
use mathlib.Core.Bool.{Bool, false}
use mathlib.Core.List.{List, [], ◌∷◌}
use mathlib.Core.Option.{Option, none, some}
use native.Mathlib.Omega.{arith}
use Prim.Native.String.{String}
use text.Mathlib.Text.{◌==◌}
use text.Mathlib.TextEquality.{eq_iff}
use text.Mathlib.TextPositions.{eq_refl}
use Prim.Native.Nat.{suc, ◌≤◌}
use kab23_motorsport_telemet.Prelude.Lists.{length}
use kab23_motorsport_telemet.Prelude.Tests.{if◌then◌else◌}

module _ {ℓ} {V : Type ℓ} where
  -- `map.get(name)`
  unfoldable pub lookup : (name : String) → List (String × V) → Option V
  lookup name [] = none
  lookup name ((held, value) ∷ rest) = if held == name then some value else lookup name rest

  -- `map.set(name, value)`
  unfoldable pub insert : (name : String) (value : V) → List (String × V) → List (String × V)
  insert name value [] = (name, value) ∷ []
  insert name value ((held, old) ∷ rest) =
      let after = insert name value rest in
      if held == name then (held, value) ∷ rest else (held, old) ∷ after

  -- `m.delete(k)`
  pub erase : String → List (String × V) → List (String × V)
  erase k [] = []
  erase k ((j, w) ∷ m) = let rest = erase k m in if j == k then rest else (j, w) ∷ rest

  -- A loop that deletes each entry that meets the test.
  unfoldable pub prune : (V → Bool) → List (String × V) → List (String × V)
  prune p [] = []
  prune p ((j, w) ∷ m) = let rest = prune p m in if p w then rest else (j, w) ∷ rest

  pub lookup-insert :
      (put asked : String) (value : V) (entries : List (String × V))
      → lookup asked (insert put value entries)
        ≡ (if put == asked then some value else lookup asked entries)
  unfolding insert lookup
  lookup-insert put asked value [] = refl
  lookup-insert put asked value ((held, old) ∷ rest) = ground (
    arith,
    lookup-insert put asked value rest,
    eq_iff held put,
    eq_iff held asked,
    eq_iff put asked,
  )

  pub lookup-erase :
      (k j : String) (m : List (String × V))
      → lookup j (erase k m) ≡ (if k == j then none else lookup j m)
  unfolding lookup erase
  lookup-erase k j [] = ground arith
  lookup-erase k j ((i, w) ∷ m) =
      ground (arith, eq_iff k j, eq_iff i k, eq_iff i j, lookup-erase k j m)

  -- An entry that is found and does not meet the test stays.
  pub lookup-prune_kept :
      (p : V → Bool) (k : String) (v : V) (m : List (String × V))
      → lookup k m ≡ some v
      → p v ≡ false
      → lookup k (prune p m) ≡ some v
  unfolding lookup prune
  lookup-prune_kept p k v [] e h = cc
  lookup-prune_kept p k v ((i, w) ∷ m) e h = ground (arith, lookup-prune_kept p k v m)

  -- No entry that meets the test is found afterwards.
  pub lookup-prune_gone :
      (p : V → Bool) (k : String) (v : V) (m : List (String × V))
      → lookup k (prune p m) ≡ some v
      → p v ≡ false
  unfolding lookup prune
  lookup-prune_gone p k v [] e = cc
  lookup-prune_gone p k v ((i, w) ∷ m) e = ground (arith, lookup-prune_gone p k v m)

  pub length-insert-le :
      (k : String) (v : V) (m : List (String × V)) → length (insert k v m) ≤ suc (length m)
  unfolding insert
  length-insert-le k v [] = omega arith
  length-insert-le k v ((j, w) ∷ m) = ground (arith, length-insert-le k v m)

  pub length-erase-le : (k : String) (m : List (String × V)) → length (erase k m) ≤ length m
  unfolding erase
  length-erase-le k [] = omega arith
  length-erase-le k ((j, w) ∷ m) = ground (arith, length-erase-le k m)

  pub length-erase_first :
      (k : String) (v : V) (m : List (String × V)) → length (erase k ((k, v) ∷ m)) ≤ length m
  unfolding erase
  length-erase_first k v m = ground (arith, eq_refl k, length-erase-le k m)
