-- ===== src/Prelude/Maps.antt =====
-- Go's `map[string]V` as an association list. The program never relies on the order of a map: where it
-- ranges over one it counts, copies, or starts independent tasks.
use Prim.Native.String.{String}
use text.Mathlib.TextEquality.{eq_iff}
use mathlib.Core.Path.{◌≡◌, refl}
use mathlib.Core.List.{List, [], ◌∷◌}
use mathlib.Core.Option.{Option, none, some}
use native.Mathlib.Omega.{arith}
use orris.Prelude.Tests.{◌==◌, string_eq, if◌then◌else◌}

abbrev pub Map {ℓ} : Type ℓ → Type ℓ
Map V = List (String × V)

module _ {ℓ} {V : Type ℓ} where
  -- `v, ok := m[k]`
  unfoldable pub lookup : String → Map V → Option V
  lookup k [] = none
  lookup k ((j, v) ∷ m) = if j == k then some v else lookup k m

  -- `m[k] = v`
  unfoldable pub insert : String → V → Map V → Map V
  insert k v [] = (k, v) ∷ []
  insert k v ((j, w) ∷ m) = if j == k then (k, v) ∷ m else (j, w) ∷ insert k v m

  -- `delete(m, k)`
  unfoldable pub erase : String → Map V → Map V
  erase k [] = []
  erase k ((j, v) ∷ m) = let rest = erase k m in if j == k then rest else (j, v) ∷ rest

  pub lookup-erase :
      (k j : String) (m : Map V) → lookup j (erase k m) ≡ (if k == j then none else lookup j m)
  unfolding lookup erase
  lookup-erase k j [] = ground arith
  lookup-erase k j ((i, v) ∷ m) =
      ground (arith, lookup-erase k j m, eq_iff i k, eq_iff i j, eq_iff k j)

  -- A write is read back at its key, and nowhere else.
  pub lookup-insert :
      (key read : String) (value : V) (entries : Map V)
      → lookup read (insert key value entries)
        ≡ (if key == read then some value else lookup read entries)
  unfolding insert lookup
  lookup-insert key read value [] = refl
  lookup-insert key read value ((first, old) ∷ entries) = ground (
    arith,
    lookup-insert key read value entries,
    eq_iff first read,
    eq_iff first key,
    eq_iff key read,
  )

pub ruleset map_laws = (lookup-insert, lookup-erase)
