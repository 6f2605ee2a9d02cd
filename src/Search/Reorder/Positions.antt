-- ===== src/Search/Reorder/Positions.antt =====
-- `write_positions`: what `m[order[k]] = k` leaves in `m`.
use ooverlap.Prelude.{
  ℕ, zero, suc, ◌+◌, ◌<◌, ◌≡◌, refl, ◌∙◌, ap, inl, inr, true, false, List, [], ◌∷◌, length, get_or,
  set, contains, Nodup, All, ◌==◌, if◌then◌else◌, Bool-cases, arith, length-set, get_or-set_self,
  get_or-set_ne,
}
use ooverlap.Prelude.Int.{ℤ, pos}
use ooverlap.Search.Reorder.{write_positions}

pub length-write_positions :
    (m : List ℤ) (p : ℕ) (xs : List ℕ) → length (write_positions m p xs) ≡ length m
unfolding write_positions
length-write_positions m p [] = refl
length-write_positions m p (x ∷ xs) =
    length-write_positions (set m x (pos p)) (suc p) xs ∙ length-set m x (pos p)

-- An entry that no item of the order names is left alone.
pub write_positions-of_absent :
    (m : List ℤ) (p y : ℕ) (xs : List ℕ) (d : ℤ)
    → contains y xs ≡ false
    → get_or (write_positions m p xs) y d ≡ get_or m y d
unfolding write_positions
write_positions-of_absent m p y [] d h = refl
write_positions-of_absent m p y (x ∷ xs) d h =
    write_positions-of_absent (set m x (pos p)) (suc p) y xs d (ground arith)
    ∙ get_or-set_ne m x y (pos p) d (ground arith)

-- The entry of the item at place `k` of an order with no repetition is `p + k`.
pub write_positions_lem :
    (m : List ℤ) (p k : ℕ) (xs : List ℕ) (d : ℤ)
    → Nodup xs
    → All (λ x. x < length m) xs
    → k < length xs
    → get_or (write_positions m p xs) (get_or xs k 0) d ≡ pos (p + k)
unfolding write_positions
write_positions_lem m p k [] d n b h = absurd (omega arith)
write_positions_lem m p zero (x ∷ xs) d n b h =
    write_positions-of_absent (set m x (pos p)) (suc p) x xs d n.0
    ∙ get_or-set_self m x (pos p) d b.0
    ∙ ap pos (omega arith)
write_positions_lem m p (suc k) (x ∷ xs) d n b h =
    write_positions_lem (set m x (pos p)) (suc p) k xs d n.1 (rw (length-set m x (pos p)) b.1)
      (omega arith)
    ∙ ap pos (omega arith)

-- The place of an item.
pub index : ℕ → List ℕ → ℕ
index y [] = 0
index y (x ∷ xs) = if y == x then 0 else suc (index y xs)

pub index_lem :
    (y : ℕ) (xs : List ℕ)
    → contains y xs ≡ true
    → (index y xs < length xs) × (get_or xs (index y xs) 0 ≡ y)
unfolding index
index_lem y [] h = cc
index_lem y (x ∷ xs) h = elim (Bool-cases (y == x)) [
  | inl same ↦ rw same (omega arith, ground arith)
  | inr differ ↦
      let rest = index_lem y xs (rw differ at h) in rw differ (omega (arith, rest), rest.1)
]
