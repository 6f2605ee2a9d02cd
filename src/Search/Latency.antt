-- ===== src/Search/Latency.antt =====
-- tool/search.py: the predicted latency of a segmentation.
pub mod Debug
use ooverlap.Prelude.{
  ℕ, zero, suc, ◌+◌, ◌-◌, ◌*◌, ◌/◌, ◌^◌, Bool, true, false, Option, none, some, List, [], ◌∷◌, ◌++◌,
  length, ◌==◌, if◌then◌else◌,
}
use ooverlap.Prelude.Int.{ℤ, pos, negsuc}
use ooverlap.Prelude.Floats.{Floats}
use ooverlap.Prelude.Result.{
  Result, ok, err, value_error, index_error, zero_division, unmodelled, ◌>>=◌,
}
use ooverlap.Search.Geometry.{div_up, compute_sms_from_slack}

pub data CommOp : Type 0 where
  all_reduce reduce_scatter other_op : CommOp

-- `samples`: a data size and the bandwidth measured for it.
abbrev pub Curve : Floats → Type 0
Curve f = List (f.F × f.F)

-- Python's `//` on integers that are not negative.
unfoldable pub floor_div : ℕ → ℕ → Result ℕ
floor_div a zero = err zero_division
floor_div a (suc b) = ok (a / suc b)

-- A negative number of SMs is outside the model.
unfoldable pub sms_count_of : ℤ → Result ℕ
sms_count_of (pos n) = ok n
sms_count_of (negsuc n) = err unmodelled

unfoldable pub last_elem : List ℕ → Result ℕ
last_elem [] = err index_error
last_elem (x ∷ []) = ok x
last_elem (x ∷ y ∷ xs) = last_elem (y ∷ xs)

-- One line of the debug trace, with the numbers that it prints.
pub data TraceLine (f : Floats) : Type 0 where
  header :
      (gp : List ℕ) (tile_num sm_count : ℕ) (compute_sms : ℤ) (elems_per_tile : ℕ) → TraceLine f
  one_segment : (comm_x : ℕ) (comm_dur gemm_dur total : f.F) → TraceLine f
  multi_segment : (old_wave_num new_wave_num : ℕ) (scaled_gemm_dur : f.F) → TraceLine f
  iteration :
      (seg_tiles comp_waves : ℕ) (comp_dur prev_comp prev_comm : f.F) (comm_tiles comm_x : ℕ)
      (comm_dur new_comp new_comm : f.F)
      → TraceLine f
  final_comm : (tiles comm_x : ℕ) (comm_dur total : f.F) → TraceLine f

module _ (f : Floats) where
  -- `interp` is `np.interp` over the columns of the curve.
  unfoldable pub interpolate_latency :
      (interp : f.F → Curve f → f.F) (world_size : ℕ) → Curve f → ℕ → CommOp → Result f.F
  interpolate_latency interp world_size samples x all_reduce =
      let bw = interp (f.of_int x) samples in
      let doubled = f.mul (f.mul (f.of_int x) (f.of_int 2)) (f.of_int 2) in
      let sent = f.mul doubled (f.of_int (world_size - 1)) in
      ok (f.mul (f.div (f.div sent bw) (f.of_int (1024 ^ 3))) (f.of_int 1000))
  interpolate_latency interp world_size samples x reduce_scatter =
      let bw = interp (f.of_int x) samples in
      let sent = f.mul (f.mul (f.of_int x) (f.of_int 2)) (f.of_int (world_size - 1)) in
      ok (f.mul (f.div (f.div sent bw) (f.of_int (1024 ^ 3))) (f.of_int 1000))
  interpolate_latency interp world_size samples x other_op = err value_error

  -- Python's `/` of a float by an `int`.
  unfoldable pub div_int : f.F → ℕ → Result f.F
  div_int x zero = err zero_division
  div_int x (suc n) = ok (f.div x (f.of_int (suc n)))

  module _ (latency : ℕ → Result f.F) (compute_sms : ℕ) where
    -- `0.0 if i == 0 else interpolate_latency(...)`, for the segment before.
    unfoldable pub comm_before : (elems : ℕ) → Option ℕ → Result f.F
    comm_before elems none = ok (f.of_int 0)
    comm_before elems (some tiles) = latency (elems * tiles)

    -- The loop of `predict_lat`: what communication and computation have taken so far.
    unfoldable pub predict_loop :
        (elems : ℕ) (scaled_gemm_dur : f.F) (new_wave_num : ℕ) (acc_comm acc_comp : f.F)
        → Option ℕ
        → List ℕ
        → Result (f.F × f.F)
    predict_loop elems scaled waves comm comp before [] = ok (comm, comp)
    predict_loop elems scaled waves comm comp before (tiles ∷ gp) = do
      comm_dur ← comm_before elems before
      per_wave ← div_int scaled waves
      comp_waves ← div_up tiles compute_sms
      let comm' = f.add (f.fmax comp comm) comm_dur
      let comp' = f.add comp (f.mul per_wave (f.of_int comp_waves))
      predict_loop elems scaled waves comm' comp' (some tiles) gp

    -- The same loop in `predict_lat_with_debug`, which also collects the lines.
    unfoldable pub debug_loop :
        (elems : ℕ) (scaled_gemm_dur : f.F) (new_wave_num : ℕ) (acc_comm acc_comp : f.F)
        → Option ℕ
        → List ℕ
        → List (TraceLine f)
        → Result (f.F × f.F × List (TraceLine f))
    debug_loop elems scaled waves comm comp before [] lines = ok (comm, comp, lines)
    debug_loop elems scaled waves comm comp before (tiles ∷ gp) lines = do
      comm_dur ← comm_before elems before
      comp_waves ← div_up tiles compute_sms
      per_wave ← div_int scaled waves
      let comp_dur = f.mul per_wave (f.of_int comp_waves)
      let comm' = f.add (f.fmax comp comm) comm_dur
      let comp' = f.add comp comp_dur
      let sent : ℕ = elim before [ none ↦ 0 | some t ↦ t ]
      let line =
          iteration tiles comp_waves comp_dur comp comm sent (elems * sent) comm_dur comp' comm'
      debug_loop elems scaled waves comm' comp' (some tiles) gp (lines ++ line ∷ [])

  module _ (latency : ℕ → Result f.F) (sm_count comm_sm_slack m n : ℕ) (gemm_dur : f.F) where
    -- The branch of `predict_lat` for several segments. The source divides by `tile_num` later; where
    -- that is zero it has raised the same exception by then, since `old_wave_num` is zero too.
    unfoldable pub predict_many : (tile_num : ℕ) → List ℕ → Result f.F
    predict_many tile_num gp = do
      elems ← floor_div (m * n) tile_num
      compute_sms ← sms_count_of (compute_sms_from_slack sm_count comm_sm_slack)
      old_wave_num ← div_up tile_num sm_count
      new_wave_num ← div_up tile_num compute_sms
      per_wave ← div_int gemm_dur old_wave_num
      let scaled = f.mul per_wave (f.of_int new_wave_num)
      ends ←
          predict_loop latency compute_sms elems scaled new_wave_num (f.of_int 0) (f.of_int 0) none
            gp
      tiles ← last_elem gp
      last ← latency (elems * tiles)
      ok (f.add (f.fmax ends.1 ends.0) last)

    unfoldable pub predict_lat : (tile_num : ℕ) → List ℕ → Result f.F
    predict_lat tile_num (tiles ∷ []) = do
      elems ← floor_div (m * n) tile_num
      comm ← latency (elems * tiles)
      ok (f.add comm gemm_dur)
    predict_lat tile_num gp = predict_many tile_num gp

    -- The branch of `predict_lat_with_debug` for several segments.
    unfoldable pub debug_many :
        (tile_num elems compute_sms : ℕ) → List ℕ → Result (f.F × List (TraceLine f))
    debug_many tile_num elems compute_sms gp = do
      old_wave_num ← div_up tile_num sm_count
      new_wave_num ← div_up tile_num compute_sms
      per_wave ← div_int gemm_dur old_wave_num
      let scaled = f.mul per_wave (f.of_int new_wave_num)
      let lines =
          header gp tile_num sm_count (pos compute_sms) elems
          ∷ multi_segment old_wave_num new_wave_num scaled
          ∷ []
      ends ←
          debug_loop latency compute_sms elems scaled new_wave_num (f.of_int 0) (f.of_int 0) none gp
            lines
      tiles ← last_elem gp
      last ← latency (elems * tiles)
      let total = f.add (f.fmax ends.1 ends.0) last
      ok (total, ends.2 ++ final_comm tiles (elems * tiles) last total ∷ [])

    unfoldable pub predict_lat_with_debug :
        (tile_num : ℕ) → List ℕ → Result (f.F × List (TraceLine f))
    predict_lat_with_debug tile_num (tiles ∷ []) = do
      elems ← floor_div (m * n) tile_num
      comm ← latency (elems * tiles)
      let total = f.add comm gemm_dur
      let sms = compute_sms_from_slack sm_count comm_sm_slack
      let line = header (tiles ∷ []) tile_num sm_count sms elems
      ok (total, line ∷ one_segment (elems * tiles) comm gemm_dur total ∷ [])
    predict_lat_with_debug tile_num gp = do
      elems ← floor_div (m * n) tile_num
      compute_sms ← sms_count_of (compute_sms_from_slack sm_count comm_sm_slack)
      debug_many tile_num elems compute_sms gp
