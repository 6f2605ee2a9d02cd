-- ===== src/Search/Partitions/Count.antt =====
-- How many partitions a search goes through.
use ooverlap.Prelude.{
  ℕ, zero, suc, ◌+◌, ◌-◌, ◌^◌, ◌≤◌, ◌≡◌, refl, List, [], ◌∷◌, ◌++◌, length, range_from, arith,
  length-append,
}
use native.Mathlib.Nat.{pow-suc}
use ooverlap.Prelude.Membership.{concat_map}
use ooverlap.Search.Partitions.{rec, integer_partitions}

-- 1, 1, 2, 4, 8, …
partition_count : ℕ → ℕ
partition_count zero = 1
partition_count (suc n) = 2 ^ n

length-concat_map :
    (f : ℕ → List (List ℕ)) (last s k : ℕ)
    → s + k ≡ last
    → ((x : ℕ) → s ≤ x → length (f x) ≡ partition_count (last - x))
    → length (concat_map f (range_from s (suc k))) ≡ 2 ^ k
unfolding partition_count
length-concat_map f last s zero e h =
    let only : last - s ≡ 0 = omega arith in
    let one : length (f s) ≡ 1 = rw only at (h s (omega arith)) in
    omega (arith, length-append {0} (f s) [])
length-concat_map f last s (suc k) e h =
    let rest = length-concat_map f last (suc s) k (omega arith) (λ x l. h x (omega arith)) in
    let first : last - s ≡ suc k = omega arith in
    let head : length (f s) ≡ 2 ^ k = rw first at (h s (omega arith)) in
    omega (
      arith,
      length-append {0} (f s) (concat_map f (range_from (suc s) (suc k))),
      rest,
      head,
      pow-suc 2 k,
    )

length-rec :
    (fuel left : ℕ) (path : List ℕ)
    → left ≤ fuel
    → length (rec fuel left path) ≡ partition_count left
unfolding rec partition_count
length-rec fuel zero path h = refl
length-rec zero (suc left) path h = absurd (omega arith)
length-rec (suc fuel) (suc left) path h =
    length-concat_map (λ x. rec fuel (suc left - x) (path ++ x ∷ [])) (suc left) 1 left
      (omega arith) λ x l. length-rec fuel (suc left - x) (path ++ x ∷ []) (omega arith)

-- The number of lists that `integer_partitions` returns, so the length of a search, doubles with
-- each wave.
pub length-integer_partitions : (n : ℕ) → length (integer_partitions (suc n)) ≡ 2 ^ n
unfolding integer_partitions partition_count
length-integer_partitions n = length-rec (suc n) (suc n) [] (omega arith)
