-- ===== src/Prelude/Dict.antt =====
-- Python's `dict` with string keys, as far as the program reads and writes it by key.
use Prim.Native.String.{String}
use mathlib.Core.Path.{◌≡◌, refl}
use mathlib.Core.Option.{Option, none, some}
use mathlib.Core.List.{List, [], ◌∷◌}
use native.Mathlib.Omega.{arith}
use text.Mathlib.Text.{◌==◌ as str_eq}
use text.Mathlib.TextEquality.{eq_iff}
use dewey.Prelude.Tests.{if◌then◌else◌}

module _ {ℓ} {V : Type ℓ} where
  -- d.get(k)
  unfoldable pub lookup : String → List (String × V) → Option V
  lookup k [] = none
  lookup k ((j, v) ∷ d) = if str_eq j k then some v else lookup k d

  -- d[k] = v
  unfoldable pub assign : String → V → List (String × V) → List (String × V)
  assign k v [] = (k, v) ∷ []
  assign k v ((j, w) ∷ d) = if str_eq j k then (j, v) ∷ d else (j, w) ∷ assign k v d

  -- d.pop(k, None)
  unfoldable pub without : String → List (String × V) → List (String × V)
  without k [] = []
  without k ((j, w) ∷ d) = let rest = without k d in if str_eq j k then rest else (j, w) ∷ rest

  pub lookup-assign :
      (k j : String) (v : V) (d : List (String × V))
      → lookup j (assign k v d) ≡ (if str_eq k j then some v else lookup j d)
  unfolding lookup assign
  lookup-assign k j v [] = refl
  lookup-assign k j v ((i, w) ∷ d) =
      ground (arith, lookup-assign k j v d, eq_iff i k, eq_iff i j, eq_iff k j)

  pub lookup-without :
      (k j : String) (d : List (String × V))
      → lookup j (without k d) ≡ (if str_eq k j then none else lookup j d)
  unfolding lookup without
  lookup-without k j [] = ground arith
  lookup-without k j ((i, w) ∷ d) =
      ground (arith, lookup-without k j d, eq_iff i k, eq_iff i j, eq_iff k j)
