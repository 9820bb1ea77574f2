-- ===== src/Base/Maps.antt =====
-- A Go `map[string]V` as an association list: a write replaces the entry in place, or adds one.
use mathlib.Core.Path.{◌≡◌, refl, ap}
use mathlib.Core.List.{List, [], ◌∷◌, ◌++◌}
use mathlib.Core.Option.{Option, none, some}
use native.Mathlib.Omega.{arith}
use mathlib.Core.Logic.{inl, inr}
use go_flux.Base.Tests.{if◌then◌else◌, Bool-cases}
use go_flux.Base.Lists.{Bytes, bytes_eq, bytes_eq_iff, bytes_eq_self}

module _ {ℓ} {V : Type ℓ} where
  unfoldable pub lookup : Bytes → List (Bytes × V) → Option V
  lookup k [] = none
  lookup k ((j, v) ∷ m) = if bytes_eq j k then some v else lookup k m

  unfoldable pub insert : Bytes → V → List (Bytes × V) → List (Bytes × V)
  insert k v [] = (k, v) ∷ []
  insert k v ((j, w) ∷ m) = if bytes_eq j k then (k, v) ∷ m else (j, w) ∷ insert k v m

  pub lookup-insert :
      (k j : Bytes) (v : V) (m : List (Bytes × V))
      → lookup j (insert k v m) ≡ (if bytes_eq k j then some v else lookup j m)
  unfolding lookup insert
  lookup-insert k j v [] = refl
  lookup-insert k j v ((i, w) ∷ m) =
      ground (arith, bytes_eq_iff k j, bytes_eq_iff i k, bytes_eq_iff i j, lookup-insert k j v m)

module _ {ℓ} {V : Type ℓ} where
  pub lookup-insert_self :
      (k : Bytes) (v : V) (m : List (Bytes × V)) → lookup k (insert k v m) ≡ some v
  lookup-insert_self k v m = simp (lookup-insert, bytes_eq_self)

  pub insert_absent :
      (k : Bytes) (w : V) (m : List (Bytes × V))
      → lookup k m ≡ none
      → insert k w m ≡ m ++ (k, w) ∷ []
  unfolding insert lookup
  insert_absent k w [] e = refl
  insert_absent k w ((j, x) ∷ m) e = elim (Bool-cases (bytes_eq j k)) [
    | inl same ↦ let f = rw (lookup, same) at e in cc
    | inr other ↦
        rw (insert, other)
          (ap (λ (t : List (Bytes × V)). (j, x) ∷ t)
            (insert_absent k w m (rw (lookup, other) at e)))
  ]
