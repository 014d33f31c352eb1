-- ===== src/Prelude/Maps.antt =====
-- A JavaScript `Map` or object keyed by texts: an association list in insertion order. Setting a
-- key that is there replaces its value in place; a new key goes to the end.
use mathlib.Core.Path.{◌≡◌, refl}
use mathlib.Core.Option.{Option, none, some}
use mathlib.Core.List.{List, [], ◌∷◌}
use Prim.Native.String.{String}
use native.Mathlib.Omega.{arith}
use text.Mathlib.TextEquality.{eq_iff}
use text.Mathlib.TextPositions.{eq_refl}
use merossity.Prelude.Tests.{str_eq, if◌then◌else◌}

abbrev pub Map {ℓ} : Type ℓ → Type ℓ
Map V = List (String × V)

module _ {ℓ} {V : Type ℓ} where
  unfoldable pub lookup : String → Map V → Option V
  lookup key [] = none
  lookup key ((k, value) ∷ rest) = if str_eq k key then some value else lookup key rest

  unfoldable pub delete : String → Map V → Map V
  delete key [] = []
  delete key ((k, value) ∷ rest) =
      if str_eq k key then delete key rest else (k, value) ∷ delete key rest

  pub lookup-delete :
      (key u : String) (m : Map V)
      → lookup u (delete key m) ≡ (if str_eq key u then none else lookup u m)
  unfolding lookup delete
  lookup-delete key u [] = ground arith
  lookup-delete key u ((k, value) ∷ rest) =
      ground (arith, lookup-delete key u rest, eq_iff key u, eq_iff k key, eq_iff k u)

  unfoldable pub insert : String → V → Map V → Map V
  insert key new [] = (key, new) ∷ []
  insert key new ((k, old) ∷ rest) =
      if str_eq k key then (k, new) ∷ rest else (k, old) ∷ insert key new rest

  pub lookup-insert :
      (key u : String) (new : V) (m : Map V)
      → lookup u (insert key new m) ≡ (if str_eq key u then some new else lookup u m)
  unfolding lookup insert
  lookup-insert key u new [] = refl
  lookup-insert key u new ((k, old) ∷ rest) =
      ground (arith, lookup-insert key u new rest, eq_iff key u, eq_iff k key, eq_iff k u)

  pub lookup-insert_self :
      (key : String) (new : V) (m : Map V) → lookup key (insert key new m) ≡ some new
  lookup-insert_self key new m = simp (lookup-insert, eq_refl)
