-- ===== src/Search/Partitions/Complete.antt =====
-- `integer_partitions` lists the ordered partitions of its argument, and all of them.
use ooverlap.Prelude.{
  ℕ, zero, suc, ◌-◌, ◌<◌, ◌≤◌, ◌≡◌, refl, ◌∙◌, sym, ◌↔◌, List, [], ◌∷◌, ◌++◌, sum, All, range_from,
  arith, append_assoc, append-nil,
}
use mathlib.Core.Path.{subst}
use ooverlap.Prelude.Membership.{
  In, here, there, In-concat_map, In-concat_map_inv, In-range_from, In-range_from_bounds,
}
use ooverlap.Search.Partitions.{rec, integer_partitions}

-- The parts are positive and add up to `n`.
pub record IsPartition (n : ℕ) (gp : List ℕ) : Type 0 where
  pub positive : All (λ x. 0 < x) gp
  pub total : sum gp ≡ n

rec_complete :
    (fuel left : ℕ) (path gp : List ℕ)
    → left ≤ fuel
    → IsPartition left gp
    → In (path ++ gp) (rec fuel left path)
unfolding rec
rec_complete fuel zero path [] h v = rw append-nil here
rec_complete fuel zero path (x ∷ gp) h v = absurd (omega arith)
rec_complete zero (suc left) path gp h v = absurd (omega arith)
rec_complete (suc fuel) (suc left) path [] h v = absurd (omega arith)
rec_complete (suc fuel) (suc left) path (x ∷ gp) h v =
    let branch = λ (y : ℕ). rec fuel (suc left - y) (path ++ y ∷ []) in
    let rest : IsPartition (suc left - x) gp = record {
      positive = v.positive.1;
      total = omega (arith, v.total);
    } in
    let found = rec_complete fuel (suc left - x) (path ++ x ∷ []) gp (omega arith) rest in
    In-concat_map branch (range_from 1 (suc left))
      (In-range_from x 1 (suc left) v.positive.0 (omega arith)) (rw append_assoc at found)

rec_sound :
    (fuel left : ℕ) (path : List ℕ) {gp : List ℕ}
    → In gp (rec fuel left path)
    → (rest : List ℕ) × (gp ≡ path ++ rest) × IsPartition left rest
unfolding rec
rec_sound fuel zero path here = ([], sym (append-nil path), record { positive = tt; total = refl })
rec_sound fuel zero path (there m) = elim m [ ]
rec_sound zero (suc left) path m = elim m [ ]
rec_sound (suc fuel) (suc left) path m =
    let branch = λ (y : ℕ). rec fuel (suc left - y) (path ++ y ∷ []) in
    let (x, inside, found) = In-concat_map_inv branch (range_from 1 (suc left)) m in
    let (low, high) = In-range_from_bounds 1 (suc left) inside in
    let (rest, e, v) = rec_sound fuel (suc left - x) (path ++ x ∷ []) found in
    (
      x ∷ rest,
      e ∙ append_assoc path (x ∷ []) rest,
      record { positive = (low, v.positive); total = omega (arith, v.total) },
    )

-- `integer_partitions n` holds exactly the lists of positive numbers that add up to `n`.
pub integer_partitions_iff : (n : ℕ) (gp : List ℕ) → In gp (integer_partitions n) ↔ IsPartition n gp
unfolding integer_partitions
integer_partitions_iff n gp = (
  λ m. let (rest, e, v) = rec_sound n n [] m in subst (IsPartition n) (sym e) v,
  λ v. rec_complete n n [] gp (omega arith) v,
)
