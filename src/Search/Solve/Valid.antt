-- ===== src/Search/Solve/Valid.antt =====
-- The solutions that a search saves.
use ooverlap.Prelude.{
  ℕ, zero, suc, ◌+◌, ◌*◌, ◌<◌, ◌≡◌, refl, sym, ap, ◌∙◌, Option, List, [], ◌∷◌, map, sum, All, arith,
}
use mathlib.Core.Path.{subst}
use ooverlap.Prelude.Int.{pos}
use ooverlap.Prelude.Floats.{Floats}
use ooverlap.Prelude.Result.{ok, >>=-eq-ok, ok-injective}
use ooverlap.Search.Geometry.{div_up, tile_count}
use ooverlap.Search.Reorder.{FullOrder, build_full_order_and_reorder_map, reorder_indices}
use ooverlap.Search.Reorder.Inverse.{IsOrder, build_full_order_and_reorder_map-IsOrder}
use ooverlap.Search.Reorder.Agreement.{reorder_indices-eq-reorder_map}
use ooverlap.Search.Segments.{expand_from, expand_partition_to_cseg}
use ooverlap.Search.Segments.Cover.{IsCover, div_up_bounds, expand_partition_to_cseg-IsCover}
use ooverlap.Search.Partitions.Complete.{IsPartition}
use ooverlap.Search.Hint.Contents.{div_up_divisor}
use ooverlap.Search.Choose.{Options, Machine, Selected}
use ooverlap.Search.Choose.Accepted.{IsSelected}
use ooverlap.Search.Solve.{Solution, sizes_of, save_solution, expand_units}

-- The segments cover the tiles of the grid, the order is one of all tiles, and its map is the one
-- that the measured runs use.
pub record IsSolution (f : Floats) (o : Options) (s : Solution f) : Type 0 where
  pub tile_num : ℕ
  pub counted : tile_count o.m o.n s.candidate.bm s.candidate.bn ≡ ok tile_num
  pub positive : All (λ x. 0 < x) s.cseg
  pub covers : sum s.cseg ≡ tile_num
  pub ordered : IsOrder tile_num s.order
  pub measured : reorder_indices tile_num (map pos s.hint) ≡ ok s.order.reorder_map

div_up_zero : (c : ℕ) {q : ℕ} → div_up 0 c ≡ ok q → q ≡ 0
div_up_zero c {q} h = let (low, high) = div_up_bounds 0 c (div_up_divisor 0 c h) h in small q c high
  where
    small : (q c : ℕ) → q * c < 0 + c → q ≡ 0
    small zero c h = refl
    small (suc q) c h = absurd (omega arith)

no_parts : (gp : List ℕ) → IsPartition 0 gp → gp ≡ []
no_parts [] v = refl
no_parts (x ∷ gp) v = absurd (omega (arith, v.positive.0, v.total))

-- Also of an empty grid, whose only partition is the empty one.
expand-IsCover :
    (gp : List ℕ) (c g tile_num wave_num groups : ℕ)
    → div_up tile_num c ≡ ok wave_num
    → div_up wave_num g ≡ ok groups
    → IsPartition groups gp
    → IsCover tile_num (expand_partition_to_cseg gp c g tile_num)
unfolding expand_partition_to_cseg expand_from
expand-IsCover gp c g zero wave_num groups waves grouped v =
    let no_waves = div_up_zero c waves in
    let no_groups = div_up_zero g (subst (λ w. div_up w g ≡ ok groups) no_waves grouped) in
    let empty : gp ≡ [] = no_parts gp (subst (λ k. IsPartition k gp) no_groups v) in
    rw empty (record { sizes = []; read = refl; positive = tt; total = refl })
expand-IsCover gp c g (suc n) wave_num groups waves grouped v =
    expand_partition_to_cseg-IsCover gp c g (suc n) wave_num groups (div_up_divisor (suc n) c waves)
      (div_up_divisor wave_num g grouped) (omega arith) waves grouped v.positive v.total

sizes_of-map : (xs : List ℕ) → sizes_of (map pos xs) ≡ ok xs
unfolding sizes_of
sizes_of-map [] = refl
sizes_of-map (x ∷ xs) = rw (sizes_of-map xs)

module _ (f : Floats) (machine : Machine) (o : Options) where
  pub cseg_covers :
      (s : Selected f) (g groups : ℕ) (gp cseg : List ℕ)
      → div_up s.tile_num s.compute_sms ≡ ok s.wave_num
      → div_up s.wave_num g ≡ ok groups
      → IsPartition groups gp
      → expand_units f machine o s g gp ≡ ok cseg
      → All (λ x. 0 < x) cseg × (sum cseg ≡ s.tile_num)
  unfolding expand_units
  cseg_covers s g groups gp cseg waves grouped v h =
      let cover = expand-IsCover gp s.compute_sms g s.tile_num s.wave_num groups waves grouped v in
      let same : cover.sizes ≡ cseg =
        ok-injective (sym (ap sizes_of cover.read ∙ sizes_of-map cover.sizes) ∙ h) in
      rw (← same) (cover.positive, cover.total)

  pub saved :
      (s : Selected f) (cseg : List ℕ) (predicted : Option f.F) (searched : f.F) {sol : Solution f}
      → IsSelected f machine o s
      → All (λ x. 0 < x) cseg × (sum cseg ≡ s.tile_num)
      → save_solution f machine o s cseg predicted searched ≡ ok sol
      → IsSolution f o sol
        × (sol.cseg ≡ cseg)
        × (sol.predicted_latency_ms ≡ predicted)
        × (sol.searched_latency_ms ≡ searched)
        × (sol.candidate ≡ s.candidate)
  unfolding save_solution
  saved s cseg predicted searched {sol} v (positive, total) h =
      let (tile_num, counted, h₁) =
        >>=-eq-ok (tile_count o.m o.n s.candidate.bm s.candidate.bn) _ h in
      let (order, built, h₂) =
        >>=-eq-ok (build_full_order_and_reorder_map tile_num (map pos s.hint)) _ h₁ in
      let same : s.tile_num ≡ tile_num = ok-injective (sym v.counted ∙ counted) in
      let (order', built', placed) =
        reorder_indices-eq-reorder_map s.tile_num s.hint v.distinct v.in_grid in
      let built'' : build_full_order_and_reorder_map s.tile_num (map pos s.hint) ≡ ok order =
        rw same built in
      let same_order : order' ≡ order = ok-injective (sym built' ∙ built'') in
      rw (← ok-injective h₂) (
        record {
          tile_num = s.tile_num;
          counted = v.counted;
          positive = positive;
          covers = total;
          ordered = build_full_order_and_reorder_map-IsOrder s.tile_num (map pos s.hint) built'';
          measured = placed ∙ ap (λ (r : FullOrder). ok r.reorder_map) same_order;
        },
        refl,
        refl,
        refl,
        refl,
      )
