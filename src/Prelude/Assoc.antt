-- ===== src/Prelude/Assoc.antt =====
-- A Go map from texts, as an association list.
use Prim.Native.String.{String}
use mathlib.Core.Path.{◌≡◌, refl}
use mathlib.Core.Option.{Option, none, some}
use mathlib.Core.List.{List, [], ◌∷◌}
use native.Mathlib.Omega.{arith}
use text.Mathlib.Text.{◌==◌ as str_eq}
use text.Mathlib.TextEquality.{eq_iff}
use package.portapixel.Prelude.Tests.{if◌then◌else◌}

module _ {ℓ} {V : Type ℓ} where
  -- `m[key]`, with `none` where Go gives the zero value.
  unfoldable pub lookup : String → List (String × V) → Option V
  lookup key [] = none
  lookup key ((name, v) ∷ rest) =
      let found = lookup key rest in if str_eq name key then some v else found

  -- `delete(m, key)`
  unfoldable pub remove : String → List (String × V) → List (String × V)
  remove key [] = []
  remove key ((name, v) ∷ rest) =
      let others = remove key rest in if str_eq name key then others else (name, v) ∷ others

  -- `m[key] = v`
  unfoldable pub insert : String → V → List (String × V) → List (String × V)
  insert key v [] = (key, v) ∷ []
  insert key v ((name, old) ∷ rest) =
      let others = insert key v rest in
      if str_eq name key then (name, v) ∷ rest else (name, old) ∷ others

module _ {ℓ} {V : Type ℓ} (key other : String) where
  pub lookup-remove :
      (m : List (String × V))
      → lookup other (remove key m) ≡ (if str_eq key other then none else lookup other m)
  unfolding lookup remove
  lookup-remove [] = ground arith
  lookup-remove ((name, v) ∷ rest) =
      ground (arith, eq_iff name key, eq_iff key other, eq_iff name other, lookup-remove rest)

  pub lookup-insert :
      (v : V) (m : List (String × V))
      → lookup other (insert key v m) ≡ (if str_eq key other then some v else lookup other m)
  unfolding lookup insert
  lookup-insert v [] = refl
  lookup-insert v ((name, old) ∷ rest) =
      ground (arith, eq_iff name key, eq_iff key other, eq_iff name other, lookup-insert v rest)
