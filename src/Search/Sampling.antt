-- ===== src/Search/Sampling.antt =====
-- tool/search.py: the runs of the overlapped GEMM that are sampled for a hint. The extension and the
-- device are not code of the repository's Python: a parameter, which takes a state and the monitor
-- matrix and returns both as the run leaves them.
pub mod Written
use ooverlap.Prelude.{
  ℕ, zero, suc, ◌+◌, ◌≡◌, Bool, true, false, ◌||◌, List, [], ◌∷◌, ◌++◌, length, replicate,
  if◌then◌else◌,
}
use ooverlap.Prelude.Int.{ℤ, pos, negsuc, is_negative}
use ooverlap.Prelude.Result.{Result, ok, err, value_error, runtime_error, ◌>>=◌}
use ooverlap.Search.Geometry.{
  div_up, tile_count, monitor_size, reset_monitor_matrix, monitor_order_view,
}
use ooverlap.Search.Segments.{window_segments}
use ooverlap.Search.Latency.{CommOp, all_reduce, reduce_scatter, other_op}
use ooverlap.Search.Hint.{Sample, HintResult, compute_stable_hint_from_rounds}

pub record Gpu : Type 1 where
  pub Device : Type 0
  pub gemm_allreduce_overlap : Device → List ℤ → Device × List ℤ
  pub gemm_reducescatter_overlap : Device → List ℤ → Device × List ℤ

-- `int((order < 0).sum().item())` is not zero.
unfoldable pub any_missing : List ℤ → Bool
any_missing [] = false
any_missing (v ∷ order) = is_negative v || any_missing order

module _ (gpu : Gpu) where
  -- One call of the extension, chosen by `comm_op`.
  unfoldable pub run_overlap : CommOp → gpu.Device → List ℤ → Result (gpu.Device × List ℤ)
  run_overlap all_reduce dev mm = ok (gpu.gemm_allreduce_overlap dev mm)
  run_overlap reduce_scatter dev mm = ok (gpu.gemm_reducescatter_overlap dev mm)
  run_overlap other_op dev mm = err value_error

  module _ (comm_op : CommOp) (tile_num seg_size : ℕ) where
    -- The body of the loop of `collect_monitor_samples`.
    unfoldable pub collect_sample : gpu.Device → List ℤ → Result (gpu.Device × List ℤ × Sample)
    collect_sample dev mm = do
      ran ← run_overlap comm_op dev (reset_monitor_matrix mm tile_num seg_size true)
      let order = monitor_order_view ran.1 tile_num seg_size
      if any_missing order then err runtime_error else ok (ran.0, ran.1, order)

    unfoldable pub collect_monitor_samples :
        (sample_count : ℕ) → gpu.Device → List ℤ → Result (gpu.Device × List ℤ × List Sample)
    collect_monitor_samples zero dev mm = ok (dev, mm, [])
    collect_monitor_samples (suc count) dev mm = do
      one ← collect_sample dev mm
      rest ← collect_monitor_samples count one.0 one.1
      ok (rest.0, rest.1, one.2 ∷ rest.2)

    -- The warm-up loop of `compute_hint_process`.
    unfoldable pub warm_up : (warmup : ℕ) → gpu.Device → List ℤ → Result (gpu.Device × List ℤ)
    warm_up zero dev mm = ok (dev, mm)
    warm_up (suc n) dev mm = do
      ran ← run_overlap comm_op dev (reset_monitor_matrix mm tile_num seg_size true)
      warm_up n ran.0 ran.1

    -- The rounds of samples: a second one only where the hint is to be confirmed.
    unfoldable pub collect_rounds :
        (effective_hint_confirm : Bool) (sample_count : ℕ)
        → gpu.Device
        → List ℤ
        → Result (List (List Sample))
    collect_rounds false count dev mm = do
      first ← collect_monitor_samples count dev mm
      ok (first.2 ∷ [])
    collect_rounds true count dev mm = do
      first ← collect_monitor_samples count dev mm
      confirm ← collect_monitor_samples count first.0 first.1
      ok (first.2 ∷ confirm.2 ∷ [])

  -- The work of one rank. What it allocates for A, B, C, D and the row remapping is not in the model.
  unfoldable pub compute_hint_process :
      CommOp
      → (m n bm bn window_size compute_sms nominal minimum : ℕ) → (effective_hint_confirm : Bool)
      → gpu.Device
      → Result HintResult
  compute_hint_process comm_op m n bm bn size compute_sms nominal minimum confirm dev = do
    tile_num ← tile_count m n bm bn
    cseg ← window_segments tile_num size
    let seg_size = length cseg
    let mm = replicate (monitor_size tile_num seg_size true) (pos 0)
    warm ← warm_up comm_op tile_num seg_size 100 dev mm
    rounds ← collect_rounds comm_op tile_num seg_size confirm 10 warm.0 warm.1
    compute_stable_hint_from_rounds rounds tile_num size compute_sms nominal minimum
