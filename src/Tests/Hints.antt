-- ===== src/Tests/Hints.antt =====
-- Hints and the samples that they are made of.
use ooverlap.Prelude.{
  ℕ, ◌+◌, ◌*◌, ◌<◌, ◌≤◌, ◌≡◌, refl, ◌↔◌, true, false, some, List, [], ◌∷◌, length, replicate,
  contains, arith, Nodup, All,
}
use ooverlap.Prelude.Int.{ℤ, pos}
use ooverlap.Prelude.Result.{ok, err, runtime_error, ◌>>=◌}
use ooverlap.Search.Geometry.{
  div_up, monitor_size, reset_monitor_matrix, monitor_order_view, fill_slice,
}
use ooverlap.Search.Latency.{all_reduce, predict_lat, predict_lat_with_debug}
use ooverlap.Search.Latency.Debug.{predict_lat_with_debug-agrees}
use ooverlap.Search.Hint.{
  HintResult, compute_stable_hint_from_rounds, count_in_window, is_stable, stable_tiles,
  window_group, is_full_window, scan_window, scan_windows, add_tile, add_tiles, collect_hint,
  chosen_group, finish_hint,
}
use ooverlap.Search.Hint.Stable.{IsStableIn}
use ooverlap.Search.Hint.Contents.{compute_stable_hint_from_rounds-holds}
use ooverlap.Search.Hint.Groups.{compute_stable_hint_from_rounds-group}
use ooverlap.Search.Sampling.{
  Gpu, collect_sample, collect_monitor_samples, run_overlap, any_missing,
}
use ooverlap.Search.Sampling.Written.{
  KeepsSize, IsComplete, collect_monitor_samples-IsComplete, collect_sample-refuses,
}
use ooverlap.Search.Candidates.{
  find_algo, normalize_loaded_candidates, filter_candidates_by_algo_id,
}
use ooverlap.Search.Candidates.Known.{IsKnown, IsPicked, load_and_filter-IsKnown}
use ooverlap.Tests.Samples.{whole, latency, rounds, dict, loaded}

abbrev hint : HintResult
hint = record { accepted = true; hint = 0 ∷ 1 ∷ 2 ∷ 3 ∷ []; effective_group = 1 }

hint_runs : compute_stable_hint_from_rounds rounds 4 2 2 1 1 ≡ ok hint
unfolding compute_stable_hint_from_rounds div_up count_in_window is_stable stable_tiles window_group
    is_full_window scan_window scan_windows add_tile add_tiles collect_hint chosen_group finish_hint
hint_runs = refl

holds_example :
    Nodup hint.hint
    × All (λ x. x < 4) hint.hint
    × ((x : ℕ) → (contains x hint.hint ≡ true) ↔ ((w : ℕ) × IsStableIn rounds 4 2 x w))
holds_example = compute_stable_hint_from_rounds-holds rounds 4 2 2 1 1 hint_runs refl

group_example :
    (hint.effective_group ≤ 1)
    × (hint.accepted ≡ true → 1 ≤ hint.effective_group)
    × (hint.accepted ≡ false → (hint.hint ≡ []) × (hint.effective_group < 1))
    × ((w : ℕ)
        → (w + 1) * 2 ≤ 4
        → hint.effective_group * 2 ≤ length (stable_tiles 4 (w * 2) ((w + 1) * 2) rounds))
group_example = compute_stable_hint_from_rounds-group rounds 4 2 2 1 1 hint_runs

-- A device that writes the places of two tiles, and one that writes nothing.
abbrev write_two : List ℤ → List ℤ
write_two (a ∷ b ∷ c ∷ d ∷ e ∷ g ∷ []) = pos 1 ∷ pos 1 ∷ pos 1 ∷ pos 2 ∷ pos 1 ∷ pos 0 ∷ []
write_two mm = mm

length-write_two : (mm : List ℤ) → length (write_two mm) ≡ length mm
length-write_two (a ∷ b ∷ c ∷ d ∷ e ∷ g ∷ []) = refl
length-write_two [] = refl
length-write_two (a ∷ []) = refl
length-write_two (a ∷ b ∷ []) = refl
length-write_two (a ∷ b ∷ c ∷ []) = refl
length-write_two (a ∷ b ∷ c ∷ d ∷ []) = refl
length-write_two (a ∷ b ∷ c ∷ d ∷ e ∷ []) = refl
length-write_two (a ∷ b ∷ c ∷ d ∷ e ∷ g ∷ h ∷ mm) = refl

abbrev writing : Gpu
writing = record {
  Device = ℕ;
  gemm_allreduce_overlap = λ runs mm. (runs + 1, write_two mm);
  gemm_reducescatter_overlap = λ runs mm. (runs + 1, mm);
}

writing-KeepsSize : KeepsSize writing
writing-KeepsSize = record {
  all_reduce_size = λ runs mm. length-write_two mm;
  reduce_scatter_size = λ runs mm. refl;
}

abbrev idle : Gpu
idle = record {
  Device = ℕ;
  gemm_allreduce_overlap = λ runs mm. (runs, mm);
  gemm_reducescatter_overlap = λ runs mm. (runs, mm);
}

idle-KeepsSize : KeepsSize idle
idle-KeepsSize = record { all_reduce_size = λ runs mm. refl; reduce_scatter_size = λ runs mm. refl }

abbrev blank : List ℤ
blank = replicate 6 (pos 3)

abbrev wanted : ℕ × List ℤ × List (List ℤ)
wanted = (2, write_two blank, (pos 1 ∷ pos 0 ∷ []) ∷ (pos 1 ∷ pos 0 ∷ []) ∷ [])

collect_runs : collect_monitor_samples writing all_reduce 2 1 2 0 blank ≡ ok wanted
unfolding collect_monitor_samples collect_sample run_overlap any_missing reset_monitor_matrix
    monitor_order_view fill_slice
collect_runs = refl

collect_example :
    (length wanted.2 ≡ 2) × All (IsComplete 2) wanted.2 × (length wanted.1 ≡ monitor_size 2 1 true)
unfolding monitor_size
collect_example =
    collect_monitor_samples-IsComplete writing writing-KeepsSize all_reduce 2 1 2 0 blank refl
      collect_runs

refuses_example : collect_sample idle all_reduce 2 1 0 blank ≡ err runtime_error
unfolding monitor_size run_overlap
refuses_example =
    collect_sample-refuses idle idle-KeepsSize all_reduce 2 1 0 blank 1 refl (omega arith) refl refl

agrees_example :
    (predict_lat_with_debug whole latency 2 0 4 6 6 6 (2 ∷ 4 ∷ []) >>= λ t. ok t.0)
    ≡ predict_lat whole latency 2 0 4 6 6 6 (2 ∷ 4 ∷ [])
agrees_example = predict_lat_with_debug-agrees whole latency 2 0 4 6 6 6 (2 ∷ 4 ∷ [])

IsKnown-example : All (IsKnown whole dict) loaded × All (IsPicked whole (some 4)) loaded
unfolding find_algo normalize_loaded_candidates filter_candidates_by_algo_id
IsKnown-example = load_and_filter-IsKnown whole dict loaded (some 4) refl
