-- ===== src/Prelude/Dict.antt =====
-- Python's `dict` with texts as keys: entries in the order in which their keys came.
use Prim.Native.String.{String}
use text.Mathlib.Text.{◌==◌}
use text.Mathlib.TextEquality.{eq_iff}
use text.Mathlib.TextPositions.{eq_refl}
use mathlib.Core.Path.{◌≡◌, refl}
use mathlib.Core.Logic.{◌⊎◌, inl, inr}
use mathlib.Core.Option.{Option, none, some}
use mathlib.Core.List.{List, [], ◌∷◌}
use native.Mathlib.Omega.{arith}
use ooverlap.Prelude.Tests.{if◌then◌else◌, Bool-cases}
use ooverlap.Prelude.Membership.{In, here, there, In-cons}

module _ {ℓ} {V : Type ℓ} where
  unfoldable pub lookup : String → List (String × V) → Option V
  lookup k [] = none
  lookup k ((j, v) ∷ d) = if j == k then some v else lookup k d

  -- `d[k] = v`: a key that is there keeps its place.
  unfoldable pub insert : String → V → List (String × V) → List (String × V)
  insert k v [] = (k, v) ∷ []
  insert k v ((j, w) ∷ d) = if j == k then (k, v) ∷ d else (j, w) ∷ insert k v d

  abbrev pub values : List (String × V) → List V
  values [] = []
  values ((k, v) ∷ d) = v ∷ values d

  pub lookup-insert :
      (k j : String) (v : V) (d : List (String × V))
      → lookup j (insert k v d) ≡ (if k == j then some v else lookup j d)
  unfolding lookup insert
  lookup-insert k j v [] = refl
  lookup-insert k j v ((i, w) ∷ d) =
      ground (arith, eq_iff k j, eq_iff i k, eq_iff i j, lookup-insert k j v d)

  pub lookup-insert_self :
      (k : String) (v : V) (d : List (String × V)) → lookup k (insert k v d) ≡ some v
  lookup-insert_self k v d = rw (lookup-insert, eq_refl)

  pub In-values :
      (k : String) (d : List (String × V)) {v : V} → lookup k d ≡ some v → In v (values d)
  unfolding lookup
  In-values k [] h = cc
  In-values k ((j, w) ∷ d) {v} h = elim (Bool-cases (j == k)) [
    | inl same ↦ let e : w ≡ v = ground (arith, same, h) in rw (← e) here
    | inr other ↦ there (In-values k d (ground (arith, other, h)))
  ]

  -- After a store a value is the new one, or was there.
  pub values-insert :
      (k : String) (v : V) (d : List (String × V)) {x : V}
      → In x (values (insert k v d))
      → (x ≡ v) ⊎ In x (values d)
  unfolding insert
  values-insert k v [] m = In-cons m
  values-insert k v ((j, w) ∷ d) {x} m = elim (Bool-cases (j == k)) [
    | inl same ↦
        let m' : In x (v ∷ values d) = rw same at m in
        elim (In-cons m') [ inl e ↦ inl e | inr old ↦ inr (there old) ]
    | inr other ↦
        let m' : In x (w ∷ values (insert k v d)) = rw other at m in
        elim (In-cons m') [
          | inl e ↦ inr (rw e here)
          | inr later ↦ elim (values-insert k v d later) [
            | inl e ↦ inl e
            | inr old ↦ inr (there old)
          ]
        ]
  ]
