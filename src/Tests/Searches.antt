-- ===== src/Tests/Searches.antt =====
-- Whole searches on a small machine.
use ooverlap.Prelude.{ℕ, ◌≡◌, refl, true, false, Option, none, some, List, [], ◌∷◌}
use ooverlap.Prelude.Int.{pos}
use ooverlap.Prelude.Membership.{In}
use ooverlap.Prelude.Result.{ok}
use ooverlap.Search.Geometry.{
  div_up, tile_count, compute_sms_from_slack, monitor_size, fill_slice, reset_monitor_matrix,
  monitor_order_view,
}
use ooverlap.Search.Reorder.{
  scan_tile, scan_hint, write_positions, finish_order, build_full_order_and_reorder_map,
}
use ooverlap.Search.Segments.{min_with, expand_from, expand_partition_to_cseg, window_segments}
use ooverlap.Search.Partitions.{rec, integer_partitions}
use ooverlap.Search.Partitions.Complete.{IsPartition}
use ooverlap.Search.Latency.{
  floor_div, sms_count_of, last_elem, div_int, comm_before, debug_loop, debug_many,
  predict_lat_with_debug,
}
use ooverlap.Search.Hint.{
  count_in_window, is_stable, stable_tiles, window_group, is_full_window, scan_window, scan_windows,
  add_tile, add_tiles, collect_hint, chosen_group, finish_hint, compute_stable_hint_from_rounds,
}
use ooverlap.Search.Sampling.{
  any_missing, run_overlap, collect_sample, collect_monitor_samples, warm_up, collect_rounds,
  compute_hint_process,
}
use ooverlap.Search.Candidates.{Candidate, filter_candidates_by_algo_id, candidate_count}
use ooverlap.Search.Choose.{
  Selected, or_else, group_sizes, compute_hint, accept, try_candidate, try_candidates,
  choose_candidate,
}
use ooverlap.Search.Choose.Accepted.{IsSelected, choose_candidate-IsSelected}
use ooverlap.Search.Solve.{
  Solution, sizes_of, is_cold_start, keep_better, search_loop, save_solution, expand_units,
  estimate, fast_search, exhaustive_search,
}
use ooverlap.Search.Solve.Valid.{IsSolution}
use ooverlap.Search.Solve.Optimal.{
  NotBetter, IsTimed, fast_search-IsSolution, exhaustive_search-IsSolution,
}
use ooverlap.Tests.Samples.{
  whole, whole-IsOrdered, machine, plain, predicted, loaded, measure, latency,
}

abbrev tiles : List ℕ
tiles = 0 ∷ 1 ∷ 2 ∷ 3 ∷ 4 ∷ 5 ∷ []

abbrev selected : Selected whole
selected = record {
  candidate = record { bm = 2; bn = 2; dur = 6; algo = 4 };
  tile_num = 6;
  wave_num = 3;
  hint = tiles;
  effective_min_group_size = 1;
  selected_min_group_size = 1;
  compute_sms = 2;
}

abbrev solution : Option ℕ → Solution whole
solution estimated = record {
  hint = tiles;
  order = record {
    full_tile_order = tiles;
    reorder_map = pos 0 ∷ pos 1 ∷ pos 2 ∷ pos 3 ∷ pos 4 ∷ pos 5 ∷ [];
    unstable_tail = [];
  };
  cseg = 2 ∷ 2 ∷ 2 ∷ [];
  candidate = record { bm = 2; bn = 2; dur = 6; algo = 4 };
  sm_count = 2;
  comm_sm_slack = 0;
  compute_sms = pos 2;
  predicted_latency_ms = estimated;
  searched_latency_ms = 5;
}

-- The hint of a rank, the choice, and both searches, by evaluation.
runs :
    (choose_candidate whole machine plain loaded ≡ ok selected)
    × (choose_candidate whole machine predicted loaded ≡ ok selected)
    × (exhaustive_search whole machine plain measure 1000 loaded ≡ ok (solution none))
    × (fast_search whole machine predicted measure 1000 latency true loaded
        ≡ ok (solution (some 14)))
unfolding div_up tile_count compute_sms_from_slack monitor_size fill_slice reset_monitor_matrix
    monitor_order_view scan_tile scan_hint write_positions finish_order
    build_full_order_and_reorder_map min_with expand_from expand_partition_to_cseg window_segments
    rec integer_partitions floor_div sms_count_of last_elem div_int comm_before debug_loop
    debug_many predict_lat_with_debug count_in_window is_stable stable_tiles window_group
    is_full_window scan_window scan_windows add_tile add_tiles collect_hint chosen_group finish_hint
    compute_stable_hint_from_rounds any_missing run_overlap collect_sample collect_monitor_samples
    warm_up collect_rounds compute_hint_process filter_candidates_by_algo_id candidate_count or_else
    group_sizes compute_hint accept try_candidate try_candidates choose_candidate sizes_of
    is_cold_start keep_better search_loop save_solution expand_units estimate fast_search
    exhaustive_search
runs = (refl, refl, refl, refl)

selected_example :
    (cs : List (Candidate whole)) × (filter_candidates_by_algo_id whole none loaded ≡ ok cs)
    × In selected.candidate cs
    × IsSelected whole machine plain selected
selected_example = choose_candidate-IsSelected whole machine plain loaded runs.0

exhaustive_example :
    IsSolution whole plain (solution none)
    × ((s : Selected whole) × (choose_candidate whole machine plain loaded ≡ ok s)
        × IsTimed whole machine plain s 1 s.wave_num
            (λ gp. false)
            (λ k cseg. measure k s cseg)
            5
            (solution none).cseg
        × ((gp : List ℕ)
            → IsPartition s.wave_num gp
            → NotBetter whole machine plain s 1 (λ k cseg. measure k s cseg) 5 gp))
exhaustive_example =
    exhaustive_search-IsSolution whole machine plain measure 1000 loaded whole-IsOrdered runs.2

fast_example :
    IsSolution whole predicted (solution (some 14))
    × ((s : Selected whole) × (groups : ℕ) × (best : ℕ) × (choose_candidate whole machine predicted
            loaded
          ≡ ok s)
        × (div_up s.wave_num s.effective_min_group_size ≡ ok groups)
        × (◌≡◌ {A = Option ℕ} (some 14) (some best))
        × IsTimed whole machine predicted s s.effective_min_group_size groups is_cold_start
            (λ k cseg. estimate whole machine predicted latency true s cseg)
            best
            (solution (some 14)).cseg
        × (measure 0 s (solution (some 14)).cseg ≡ ok (solution (some 14)).searched_latency_ms)
        × ((gp : List ℕ)
            → IsPartition groups gp
            → is_cold_start gp ≡ false
            → NotBetter whole machine predicted s s.effective_min_group_size
                (λ k cseg. estimate whole machine predicted latency true s cseg)
                best
                gp))
fast_example =
    fast_search-IsSolution whole machine predicted measure 1000 latency true loaded whole-IsOrdered
      runs.3
