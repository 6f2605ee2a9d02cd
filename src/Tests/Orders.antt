-- ===== src/Tests/Orders.antt =====
-- Orders, segments and partitions.
use ooverlap.Prelude.{
  ◌≡◌, refl, ◌↔◌, true, false, List, [], ◌∷◌, ◌++◌, length, map, replicate, arith,
}
use ooverlap.Prelude.Int.{ℤ, pos, negsuc}
use ooverlap.Prelude.Membership.{In}
use ooverlap.Prelude.Result.{ok, err, value_error}
use ooverlap.Search.Geometry.{div_up, monitor_size, reset_monitor_matrix, monitor_order_view}
use ooverlap.Search.Geometry.Monitor.{reset_monitor_matrix_lem}
use ooverlap.Search.Reorder.{
  FullOrder, build_full_order_and_reorder_map, reorder_indices, scan_hint, scan_tile, finish_order,
  write_positions, place_hint, place_rest, list_index,
}
use ooverlap.Search.Reorder.Inverse.{
  IsOrder, hint_in_grid, build_full_order_and_reorder_map-IsOrder,
  build_full_order_and_reorder_map_total,
}
use ooverlap.Search.Reorder.Agreement.{reorder_indices-eq-reorder_map}
use ooverlap.Search.Segments.{expand_partition_to_cseg, window_segments, expand_from, min_with}
use ooverlap.Search.Segments.Cover.{
  IsCover, expand_partition_to_cseg-IsCover, window_segments-IsCover,
}
use ooverlap.Search.Partitions.{integer_partitions, rec}
use ooverlap.Search.Partitions.Complete.{IsPartition, integer_partitions_iff}
use ooverlap.Search.Partitions.Count.{length-integer_partitions}

abbrev hint : List ℤ
hint = pos 2 ∷ pos 0 ∷ pos 2 ∷ []

abbrev order : FullOrder
order = record {
  full_tile_order = 2 ∷ 0 ∷ 1 ∷ 3 ∷ [];
  reorder_map = pos 1 ∷ pos 2 ∷ pos 0 ∷ pos 3 ∷ [];
  unstable_tail = 1 ∷ 3 ∷ [];
}

build_runs : build_full_order_and_reorder_map 4 hint ≡ ok order
unfolding build_full_order_and_reorder_map scan_hint scan_tile finish_order write_positions
build_runs = refl

reorder_indices_runs :
    reorder_indices 4 (pos 2 ∷ negsuc 3 ∷ []) ≡ ok (pos 1 ∷ pos 2 ∷ pos 0 ∷ pos 3 ∷ [])
unfolding reorder_indices place_hint place_rest list_index
reorder_indices_runs = refl

partitions_of_three :
    integer_partitions 3 ≡ (1 ∷ 1 ∷ 1 ∷ []) ∷ (1 ∷ 2 ∷ []) ∷ (2 ∷ 1 ∷ []) ∷ (3 ∷ []) ∷ []
unfolding integer_partitions rec
partitions_of_three = refl

expand_runs : expand_partition_to_cseg (1 ∷ 2 ∷ []) 4 2 21 ≡ pos 8 ∷ pos 13 ∷ []
unfolding expand_partition_to_cseg expand_from min_with
expand_runs = refl

build-IsOrder_example : IsOrder 4 order
build-IsOrder_example = build_full_order_and_reorder_map-IsOrder 4 hint build_runs

build_total_example :
    (hint_in_grid 4 hint ≡ true
      → (o : FullOrder) × (build_full_order_and_reorder_map 4 hint ≡ ok o))
    × (hint_in_grid 4 hint ≡ false → build_full_order_and_reorder_map 4 hint ≡ err value_error)
build_total_example = build_full_order_and_reorder_map_total 4 hint

agreement_example :
    (o : FullOrder) × (build_full_order_and_reorder_map 4 (map pos (2 ∷ 0 ∷ [])) ≡ ok o)
    × (reorder_indices 4 (map pos (2 ∷ 0 ∷ [])) ≡ ok o.reorder_map)
agreement_example = reorder_indices-eq-reorder_map 4 (2 ∷ 0 ∷ []) (refl, (refl, tt)) (omega arith)

partitions_iff_example : In (1 ∷ 2 ∷ []) (integer_partitions 3) ↔ IsPartition 3 (1 ∷ 2 ∷ [])
partitions_iff_example = integer_partitions_iff 3 (1 ∷ 2 ∷ [])

partitions_count_example : length (integer_partitions 5) ≡ 16
partitions_count_example = length-integer_partitions 4

expand_example : IsCover 21 (expand_partition_to_cseg (1 ∷ 2 ∷ []) 4 2 21)
unfolding div_up
expand_example =
    expand_partition_to_cseg-IsCover (1 ∷ 2 ∷ []) 4 2 21 6 3 (omega arith) (omega arith)
      (omega arith) refl refl (omega arith) refl

windows_example : (cseg : List ℤ) × (window_segments 21 8 ≡ ok cseg) × IsCover 21 cseg
windows_example = window_segments-IsCover 21 8 (omega arith)

abbrev old_matrix : List ℤ
old_matrix = pos 7 ∷ pos 1 ∷ pos 1 ∷ pos 5 ∷ pos 1 ∷ pos 0 ∷ []

reset_example :
    (reset_monitor_matrix old_matrix 2 1 true ≡ replicate 4 (pos 0) ++ replicate 2 (negsuc 0))
    × (monitor_order_view (reset_monitor_matrix old_matrix 2 1 true) 2 1 ≡ replicate 2 (negsuc 0))
    × (reset_monitor_matrix (pos 9 ∷ pos 9 ∷ pos 9 ∷ []) 2 1 false ≡ replicate 3 (pos 0))
unfolding monitor_size
reset_example = reset_monitor_matrix_lem old_matrix (pos 9 ∷ pos 9 ∷ pos 9 ∷ []) 2 1 refl refl
