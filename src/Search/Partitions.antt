-- ===== src/Search/Partitions.antt =====
-- tool/search.py: `integer_partitions`.
pub mod Complete
pub mod Count
use ooverlap.Prelude.{ℕ, zero, suc, ◌-◌, List, [], ◌∷◌, ◌++◌, range_from}
use ooverlap.Prelude.Membership.{concat_map}

-- The inner `rec`, which appends each finished path to `out`. The fuel bounds the depth; the calls
-- give at least `left`, since each part is positive, so the second clause is not reached.
unfoldable pub rec : (fuel left : ℕ) → List ℕ → List (List ℕ)
rec fuel zero path = path ∷ []
rec zero (suc left) path = []
rec (suc fuel) (suc left) path =
    concat_map (λ x. rec fuel (suc left - x) (path ++ x ∷ [])) (range_from 1 (suc left))

unfoldable pub integer_partitions : ℕ → List (List ℕ)
integer_partitions n = rec n n []
