-- ===== src/Prelude/Membership.antt =====
-- The places at which a value stands in a list.
use Prim.Native.Nat.{ℕ, zero, suc, ◌+◌, ◌≤◌, ◌<◌}
use mathlib.Core.Path.{◌≡◌, refl}
use mathlib.Core.Logic.{◌⊎◌, inl, inr}
use mathlib.Core.List.{List, [], ◌∷◌, ◌++◌}
use native.Mathlib.Omega.{arith}
use ooverlap.Prelude.Lists.{range_from}

module _ {ℓ} {A : Type ℓ} where
  -- With the index `ys` free, so that a place can be matched at any list.
  pub data In (x : A) : List A → Type ℓ where
    here : {ys : List A} → In x (x ∷ ys)
    there : {y : A} {ys : List A} → In x ys → In x (y ∷ ys)

  pub In-cons : {x y : A} {ys : List A} → In x (y ∷ ys) → (x ≡ y) ⊎ In x ys
  In-cons here = inl refl
  In-cons (there m) = inr m

  pub In-append_left : {x : A} (xs ys : List A) → In x xs → In x (xs ++ ys)
  In-append_left [] ys m = elim m [ ]
  In-append_left (_ ∷ xs) ys here = here
  In-append_left (_ ∷ xs) ys (there m) = there (In-append_left xs ys m)

  pub In-append_right : {x : A} (xs ys : List A) → In x ys → In x (xs ++ ys)
  In-append_right [] ys m = m
  In-append_right (z ∷ xs) ys m = there (In-append_right xs ys m)

  pub In-append_cases : {x : A} (xs ys : List A) → In x (xs ++ ys) → In x xs ⊎ In x ys
  In-append_cases [] ys m = inr m
  In-append_cases (z ∷ xs) ys here = inl here
  In-append_cases (z ∷ xs) ys (there m) = elim (In-append_cases xs ys m) [
    | inl a ↦ inl (there a)
    | inr b ↦ inr b
  ]

-- The results of `f` on all items, in order: nested `for` loops that append to one list.
abbrev pub concat_map {ℓ κ} : {A : Type ℓ} {B : Type κ} → (A → List B) → List A → List B
concat_map f [] = []
concat_map f (x ∷ xs) = f x ++ concat_map f xs

module _ {ℓ κ} {A : Type ℓ} {B : Type κ} (f : A → List B) where
  pub In-concat_map : {b : B} {x : A} (xs : List A) → In x xs → In b (f x) → In b (concat_map f xs)
  In-concat_map [] p m = elim p [ ]
  In-concat_map (y ∷ xs) here m = In-append_left (f y) (concat_map f xs) m
  In-concat_map (y ∷ xs) (there p) m =
      In-append_right (f y) (concat_map f xs) (In-concat_map xs p m)

  pub In-concat_map_inv :
      {b : B} (xs : List A) → In b (concat_map f xs) → (x : A) × In x xs × In b (f x)
  In-concat_map_inv [] m = elim m [ ]
  In-concat_map_inv (y ∷ xs) m = elim (In-append_cases (f y) (concat_map f xs) m) [
    | inl a ↦ (y, here, a)
    | inr b ↦ let (x, p, q) = In-concat_map_inv xs b in (x, there p, q)
  ]

pub In-range_from : (x s n : ℕ) → s ≤ x → x < s + n → In x (range_from s n)
In-range_from x s zero h k = absurd (omega arith)
In-range_from x s (suc n) h k = elim (cases x s h) [
  | inl e ↦ rw e here
  | inr l ↦ there (In-range_from x (suc s) n l (omega arith))
]
  where
    cases : (x s : ℕ) → s ≤ x → (x ≡ s) ⊎ (suc s ≤ x)
    cases x s h = grind arith

pub In-range_from_bounds : {x : ℕ} (s n : ℕ) → In x (range_from s n) → (s ≤ x) × (x < s + n)
In-range_from_bounds s zero m = elim m [ ]
In-range_from_bounds s (suc n) here = (omega arith, omega arith)
In-range_from_bounds s (suc n) (there m) =
    let (a, b) = In-range_from_bounds (suc s) n m in (omega arith, omega arith)
