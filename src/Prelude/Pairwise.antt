-- ===== src/Prelude/Pairwise.antt =====
-- Lists any two of whose items are related, and Python's `dict` with keys of any type that has a test.
use mathlib.Core.Path.{◌≡◌, refl, sym, ap, ◌∙◌}
use mathlib.Core.Logic.{◌⊎◌, inl, inr, ◌↔◌, ◌≢◌}
use mathlib.Core.Bool.{Bool, true}
use mathlib.Core.Option.{Option, none, some}
use mathlib.Core.List.{List, [], ◌∷◌}
use native.Mathlib.Omega.{arith}
use ooverlap.Prelude.Tests.{if◌then◌else◌, Bool-cases}
use ooverlap.Prelude.Membership.{In, here, there, In-cons}
use ooverlap.Prelude.Sorting.{insert_by, sort_by, In-insert_by_cases, In-sort_by_cases}

module _ {ℓ} {A : Type ℓ} (R : A → A → Type ℓ) where
  abbrev pub Pairwise : List A → Type ℓ
  Pairwise [] = Unit {ℓ}
  Pairwise (x ∷ xs) = ((y : A) → In y xs → R x y) × Pairwise xs

  module _ (symmetric : (x y : A) → R x y → R y x) (le : A → A → Bool) where
    Pairwise-insert_by :
        (x : A) (ys : List A)
        → ((y : A) → In y ys → R x y)
        → Pairwise ys
        → Pairwise (insert_by le x ys)
    unfolding insert_by
    Pairwise-insert_by x [] apart d = (apart, tt)
    Pairwise-insert_by x (y ∷ ys) apart d = elim (Bool-cases (le x y)) [
      | inl first ↦ rw first (apart, d)
      | inr later ↦ rw later (
        λ z m. elim (In-cons (In-insert_by_cases le x ys m)) [
          | inl e ↦ rw e (symmetric x y (apart y here))
          | inr old ↦ d.0 z old
        ],
        Pairwise-insert_by x ys (λ z m. apart z (there m)) d.1,
      )
    ]

    -- Sorting keeps a relation between any two items.
    pub Pairwise-sort_by : (xs : List A) → Pairwise xs → Pairwise (sort_by le xs)
    unfolding sort_by
    Pairwise-sort_by [] d = tt
    Pairwise-sort_by (x ∷ xs) d =
        Pairwise-insert_by x (sort_by le xs) (λ y m. d.0 y (In-sort_by_cases le xs m))
          (Pairwise-sort_by xs d.1)

module _ {K V : Type 0} (same : K → K → Bool) where
  unfoldable pub fetch : K → List (K × V) → Option V
  fetch k [] = none
  fetch k ((j, v) ∷ d) = if same j k then some v else fetch k d

  -- `d[k] = v`: a key that is there keeps its place.
  unfoldable pub store : K → V → List (K × V) → List (K × V)
  store k v [] = (k, v) ∷ []
  store k v ((j, w) ∷ d) = let rest = store k v d in if same j k then (k, v) ∷ d else (j, w) ∷ rest

  module _ (same_iff : (j k : K) → (same j k ≡ true) ↔ (j ≡ k)) where
    pub fetch-store :
        (k j : K) (v : V) (d : List (K × V))
        → fetch j (store k v d) ≡ (if same k j then some v else fetch j d)
    unfolding fetch store
    fetch-store k j v [] = refl
    fetch-store k j v ((i, w) ∷ d) =
        ground (arith, same_iff k j, same_iff i k, same_iff i j, fetch-store k j v d)

    -- An entry after a store is the new one, or was there under another key.
    pub In-store_cases :
        (k : K) (v : V) (d : List (K × V))
        → Pairwise (λ a b. a.0 ≢ b.0) d
        → {e : K × V} → In e (store k v d)
        → (e ≡ (k, v)) ⊎ (In e d × (e.0 ≢ k))
    unfolding store
    In-store_cases k v [] u m = elim (In-cons m) [ inl e ↦ inl e | inr old ↦ elim old [ ] ]
    In-store_cases k v ((j, w) ∷ d) u {e} m = elim (Bool-cases (same j k)) [
      | inl h ↦
          let j_k = (same_iff j k).0 h in
          elim (In-cons (rw h at m)) [
            | inl e_k ↦ inl e_k
            | inr old ↦ inr (there old, λ e_k. u.0 e old (j_k ∙ sym e_k))
          ]
      | inr h ↦
          let j_k : j ≢ k = λ p. let t = (same_iff j k).1 p in cc in
          elim (In-cons (rw h at m)) [
            | inl e_j ↦ inr (rw e_j here, λ p. j_k (sym (ap (λ (x : K × V). x.0) e_j) ∙ p))
            | inr rest ↦ elim (In-store_cases k v d u.1 rest) [
              | inl e_k ↦ inl e_k
              | inr old ↦ inr (there old.0, old.1)
            ]
          ]
    ]

    -- Keys stay distinct.
    pub Pairwise-store :
        (k : K) (v : V) (d : List (K × V))
        → Pairwise (λ a b. a.0 ≢ b.0) d
        → Pairwise (λ a b. a.0 ≢ b.0) (store k v d)
    unfolding store
    Pairwise-store k v [] u = (λ y m. elim m [ ], tt)
    Pairwise-store k v ((j, w) ∷ d) u = elim (Bool-cases (same j k)) [
      | inl h ↦ rw h (λ y m p. u.0 y m ((same_iff j k).0 h ∙ p), u.1)
      | inr h ↦ rw h (
        λ y m p. elim (In-store_cases k v d u.1 m) [
          | inl e ↦ let t = (same_iff j k).1 (p ∙ ap (λ (x : K × V). x.0) e) in cc
          | inr old ↦ u.0 y old.0 p
        ],
        Pairwise-store k v d u.1,
      )
    ]

    pub In-fetch : (k : K) (d : List (K × V)) {v : V} → fetch k d ≡ some v → In (k, v) d
    unfolding fetch
    In-fetch k [] h = cc
    In-fetch k ((j, w) ∷ d) {v} h = elim (Bool-cases (same j k)) [
      | inl e ↦ let e_w : w ≡ v = ground (arith, e, h) in rw (← e_w) (rw ((same_iff j k).0 e) here)
      | inr other ↦ there (In-fetch k d (ground (arith, other, h)))
    ]

    pub fetch-store_self : (k : K) (v : V) (d : List (K × V)) → fetch k (store k v d) ≡ some v
    fetch-store_self k v d = rw (fetch-store, (same_iff k k).1 refl) refl
