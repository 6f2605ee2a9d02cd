-- ===== src/Search/Solve.antt =====
-- tool/search.py: `fast_search`, `exhaustive_search` and `save_solution`.
pub mod Minimum
pub mod Valid
pub mod Optimal
use ooverlap.Prelude.{
  ℕ, zero, suc, ◌+◌, ◌*◌, Bool, true, false, ◌&&◌, Option, none, some, List, [], ◌∷◌, ◌++◌, length,
  map, ltb, if◌then◌else◌,
}
use ooverlap.Prelude.Int.{ℤ, pos, negsuc}
use ooverlap.Prelude.Floats.{Floats}
use ooverlap.Prelude.Result.{Result, ok, err, runtime_error, type_error, unmodelled, ◌>>=◌}
use ooverlap.Search.Geometry.{div_up, tile_count, compute_sms_from_slack}
use ooverlap.Search.Reorder.{FullOrder, build_full_order_and_reorder_map}
use ooverlap.Search.Segments.{expand_partition_to_cseg}
use ooverlap.Search.Partitions.{integer_partitions}
use ooverlap.Search.Latency.{predict_lat, predict_lat_with_debug}
use ooverlap.Search.Candidates.{Candidate}
use ooverlap.Search.Choose.{Options, Machine, Selected, choose_candidate}

-- The numbers of `data` in `save_solution` that the search computes.
pub record Solution (f : Floats) : Type 0 where
  pub hint : List ℕ
  pub order : FullOrder
  pub cseg : List ℕ
  pub candidate : Candidate f
  pub sm_count : ℕ
  pub comm_sm_slack : ℕ
  pub compute_sms : ℤ
  pub predicted_latency_ms : Option f.F
  pub searched_latency_ms : f.F

-- The entries of a segmentation as sizes. No partition gives a negative one, which is outside the
-- model of the latency.
unfoldable pub sizes_of : List ℤ → Result (List ℕ)
sizes_of [] = ok []
sizes_of (pos x ∷ xs) = do rest ← sizes_of xs; ok (x ∷ rest)
sizes_of (negsuc x ∷ xs) = err unmodelled

-- The skip of a cold start: many segments, and a first one that is too long.
unfoldable pub is_cold_start : List ℕ → Bool
is_cold_start [] = false
is_cold_start (x ∷ gp) = ltb 5 (suc (length gp)) && ltb 2 x

module _ (f : Floats) where
  -- The best segmentation so far and its duration.
  pub record Best : Type 0 where
    pub min_dur : f.F
    pub best_cseg : Option (List ℕ)

  -- `if float(dur) < min_dur`
  unfoldable pub keep_better : Best → f.F → List ℕ → Best
  keep_better b dur cseg =
      if f.lt dur b.min_dur then record { min_dur = dur; best_cseg = some cseg } else b

  -- The loop of both searches. `k` counts the durations that were asked for.
  unfoldable pub search_loop :
      (skip : List ℕ → Bool) (expand : List ℕ → Result (List ℕ)) (dur_of : ℕ → List ℕ → Result f.F)
      → ℕ
      → Best
      → List (List ℕ)
      → Result Best
  search_loop skip expand dur_of k b [] = ok b
  search_loop skip expand dur_of k b (gp ∷ gps) =
      let later = search_loop skip expand dur_of k b gps in
      let tried =
        (expand gp >>= λ cseg. dur_of k cseg >>= λ dur.
        search_loop skip expand dur_of (suc k) (keep_better b dur cseg) gps) in
      if skip gp then later else tried

  module _ (machine : Machine) (o : Options) where
    unfoldable pub save_solution : Selected f → List ℕ → Option f.F → f.F → Result (Solution f)
    save_solution s cseg predicted searched = do
      tile_num ← tile_count o.m o.n s.candidate.bm s.candidate.bn
      order ← build_full_order_and_reorder_map tile_num (map pos s.hint)
      ok (record {
        hint = s.hint;
        order = order;
        cseg = cseg;
        candidate = s.candidate;
        sm_count = machine.sm_count;
        comm_sm_slack = o.comm_sm_slack;
        compute_sms = compute_sms_from_slack machine.sm_count o.comm_sm_slack;
        predicted_latency_ms = predicted;
        searched_latency_ms = searched;
      })

    -- `expand_partition_to_cseg` as the loops call it.
    unfoldable pub expand_units : Selected f → (search_group_size : ℕ) → List ℕ → Result (List ℕ)
    expand_units s g gp = sizes_of (expand_partition_to_cseg gp s.compute_sms g s.tile_num)

    -- The estimate of one segmentation, by either version of the prediction.
    unfoldable pub estimate :
        (latency : ℕ → Result f.F) (debug_search : Bool) → Selected f → List ℕ → Result f.F
    estimate latency true s cseg = do
      r ←
          predict_lat_with_debug f latency machine.sm_count o.comm_sm_slack o.m o.n s.candidate.dur
            s.tile_num cseg
      ok r.0
    estimate latency false s cseg =
        predict_lat f latency machine.sm_count o.comm_sm_slack o.m o.n s.candidate.dur s.tile_num
          cseg

    -- `measure` stands for `perf_running`, at its k-th call; `huge` is 1e100.
    module _ (measure : ℕ → Selected f → List ℕ → Result f.F) (huge : f.F) where
      -- `fast_search`, for either way to estimate a segmentation.
      unfoldable pub predictive_search :
          (estimated : Selected f → List ℕ → Result f.F) → List (Candidate f) → Result (Solution f)
      predictive_search estimated loaded = do
        s ← choose_candidate f machine o loaded
        groups ← div_up s.wave_num s.effective_min_group_size
        best ←
            search_loop is_cold_start (expand_units s s.effective_min_group_size)
              (λ k cseg. estimated s cseg) 0 (record { min_dur = huge; best_cseg = none })
              (integer_partitions groups)
        elim best.best_cseg [
          | none ↦ err runtime_error
          | some cseg ↦ do
            searched ← measure 0 s cseg
            save_solution s cseg (some best.min_dur) searched
        ]

      unfoldable pub fast_search :
          (latency : ℕ → Result f.F) (debug_search : Bool)
          → List (Candidate f)
          → Result (Solution f)
      unfolding predictive_search
      fast_search latency debug = predictive_search (estimate latency debug)

      -- Where no measured duration is below `huge`, `save_solution` fails on `None`.
      unfoldable pub exhaustive_search : List (Candidate f) → Result (Solution f)
      exhaustive_search loaded = do
        s ← choose_candidate f machine o loaded
        best ←
            search_loop (λ gp. false) (expand_units s 1) (λ k cseg. measure k s cseg) 0
              (record { min_dur = huge; best_cseg = none }) (integer_partitions s.wave_num)
        elim best.best_cseg [
          | none ↦ err type_error
          | some cseg ↦ save_solution s cseg none best.min_dur
        ]
