-- ===== src/Prelude/Sorting.antt =====
-- Python's `sorted`: a stable sort by a test `le`.
use mathlib.Core.Path.{◌≡◌, refl, ◌∙◌, ap}
use mathlib.Core.Logic.{inl, inr}
use mathlib.Core.Bool.{Bool}
use mathlib.Core.List.{List, [], ◌∷◌}
use Prim.Native.Nat.{suc}
use ooverlap.Prelude.Tests.{if◌then◌else◌, Bool-cases}
use ooverlap.Prelude.Lists.{length}
use ooverlap.Prelude.Membership.{In, here, there, In-cons}

module _ {ℓ} {A : Type ℓ} (le : A → A → Bool) where
  unfoldable pub insert_by : A → List A → List A
  insert_by x [] = x ∷ []
  insert_by x (y ∷ ys) = let rest = insert_by x ys in if le x y then x ∷ y ∷ ys else y ∷ rest

  unfoldable pub sort_by : List A → List A
  sort_by [] = []
  sort_by (x ∷ xs) = insert_by x (sort_by xs)

  pub In-insert_by_cases : {a : A} (x : A) (ys : List A) → In a (insert_by x ys) → In a (x ∷ ys)
  unfolding insert_by
  In-insert_by_cases x [] m = m
  In-insert_by_cases x (y ∷ ys) m = elim (Bool-cases (le x y)) [
    | inl first ↦ rw first at m
    | inr later ↦ elim (In-cons (rw later at m)) [
      | inl e ↦ rw e (there here)
      | inr rest ↦ elim (In-cons (In-insert_by_cases x ys rest)) [
        | inl e ↦ rw e here
        | inr old ↦ there (there old)
      ]
    ]
  ]

  In-insert_by : {a : A} (x : A) (ys : List A) → In a (x ∷ ys) → In a (insert_by x ys)
  unfolding insert_by
  In-insert_by x [] m = m
  In-insert_by x (y ∷ ys) m = elim (Bool-cases (le x y)) [
    | inl first ↦ rw first m
    | inr later ↦ rw later (elim (In-cons m) [
      | inl e ↦ there (In-insert_by x ys (rw e here))
      | inr rest ↦ elim (In-cons rest) [
        | inl e ↦ rw e here
        | inr old ↦ there (In-insert_by x ys (there old))
      ]
    ])
  ]

  -- Sorting keeps the items.
  pub In-sort_by : {a : A} (xs : List A) → In a xs → In a (sort_by xs)
  unfolding sort_by
  In-sort_by [] m = m
  In-sort_by (x ∷ xs) m = elim (In-cons m) [
    | inl e ↦ In-insert_by x (sort_by xs) (rw e here)
    | inr old ↦ In-insert_by x (sort_by xs) (there (In-sort_by xs old))
  ]

  pub In-sort_by_cases : {a : A} (xs : List A) → In a (sort_by xs) → In a xs
  unfolding sort_by
  In-sort_by_cases [] m = m
  In-sort_by_cases (x ∷ xs) m = elim (In-cons (In-insert_by_cases x (sort_by xs) m)) [
    | inl e ↦ rw e here
    | inr old ↦ there (In-sort_by_cases xs old)
  ]

  length-insert_by : (x : A) (ys : List A) → length (insert_by x ys) ≡ suc (length ys)
  unfolding insert_by
  length-insert_by x [] = refl
  length-insert_by x (y ∷ ys) = elim (Bool-cases (le x y)) [
    | inl first ↦ rw first refl
    | inr later ↦ rw later (ap suc (length-insert_by x ys))
  ]

  pub length-sort_by : (xs : List A) → length (sort_by xs) ≡ length xs
  unfolding sort_by
  length-sort_by [] = refl
  length-sort_by (x ∷ xs) = length-insert_by x (sort_by xs) ∙ ap suc (length-sort_by xs)
