-- ===== src/Search/Sampling/Written.antt =====
-- What a collected sample is known to hold.
use ooverlap.Prelude.{
  ℕ, zero, suc, ◌+◌, ◌<◌, ◌≡◌, refl, ◌∙◌, ap, sym, inl, inr, true, false, List, [], ◌∷◌, ◌++◌,
  length, get_or, replicate, drop, All, Bool-cases, arith, length-take, length-drop, length-append,
  length-replicate, get_or-replicate,
}
use ooverlap.Prelude.Int.{ℤ, pos, negsuc, is_negative}
use ooverlap.Prelude.Result.{ok, err, runtime_error, >>=-eq-ok, ok-injective}
use ooverlap.Search.Geometry.{monitor_size, reset_monitor_matrix, monitor_order_view}
use ooverlap.Search.Geometry.Monitor.{reset_monitor_matrix_lem}
use ooverlap.Search.Latency.{CommOp, all_reduce, reduce_scatter, other_op}
use ooverlap.Search.Hint.{Sample}
use ooverlap.Search.Sampling.{
  Gpu, any_missing, run_overlap, collect_sample, collect_monitor_samples,
}

-- What the extension documents of a run: the matrix keeps its size.
pub record KeepsSize (gpu : Gpu) : Type 0 where
  pub all_reduce_size :
      (dev : gpu.Device) (mm : List ℤ) → length (gpu.gemm_allreduce_overlap dev mm).1 ≡ length mm
  pub reduce_scatter_size :
      (dev : gpu.Device) (mm : List ℤ)
      → length (gpu.gemm_reducescatter_overlap dev mm).1 ≡ length mm

-- A complete sample: a place for every tile.
pub record IsComplete (tile_num : ℕ) (sample : Sample) : Type 0 where
  pub size : length sample ≡ tile_num
  pub written : All (λ v. is_negative v ≡ false) sample

written_of : (order : List ℤ) → any_missing order ≡ false → All (λ v. is_negative v ≡ false) order
unfolding any_missing
written_of [] h = tt
written_of (v ∷ order) h = (ground arith, written_of order (ground arith))

length-monitor_order_view :
    (mm : List ℤ) (t s : ℕ)
    → length mm ≡ monitor_size t s true
    → length (monitor_order_view mm t s) ≡ t
unfolding monitor_order_view monitor_size
length-monitor_order_view mm t s h =
    length-take t (drop (s + t + 1) mm) ∙ omega (arith, length-drop {0} (s + t + 1) mm)

module _ (mm : List ℤ) (t s : ℕ) (h : length mm ≡ monitor_size t s true) where
  after_reset :
      (reset_monitor_matrix mm t s true ≡ replicate (s + t + 1) (pos 0) ++ replicate t (negsuc 0))
      × (monitor_order_view (reset_monitor_matrix mm t s true) t s ≡ replicate t (negsuc 0))
  after_reset =
      let plain = replicate (monitor_size t s false) (pos 0) in
      let all =
        reset_monitor_matrix_lem mm plain t s h
          (length-replicate (monitor_size t s false) (pos 0)) in
      (all.0, all.1)

  length-reset : length (reset_monitor_matrix mm t s true) ≡ monitor_size t s true
  unfolding monitor_size
  length-reset = rw after_reset.0 (
      length-append (replicate (s + t + 1) (pos 0)) (replicate t (negsuc 0))
      ∙ omega (arith, length-replicate {0} (s + t + 1) (pos 0), length-replicate {0} t (negsuc 0)))

missing_entry :
    (order : List ℤ) (i : ℕ)
    → i < length order
    → is_negative (get_or order i (negsuc 0)) ≡ true
    → any_missing order ≡ true
unfolding any_missing
missing_entry [] i h e = absurd (omega arith)
missing_entry (v ∷ order) zero h e = ground arith
missing_entry (v ∷ order) (suc i) h e = ground (arith, missing_entry order i (omega arith) e)

module _ (gpu : Gpu) (keeps : KeepsSize gpu) (comm_op : CommOp) (t s : ℕ) where
  length-run_overlap :
      (dev : gpu.Device) (mm : List ℤ) {ran : gpu.Device × List ℤ}
      → run_overlap gpu comm_op dev mm ≡ ok ran
      → length ran.1 ≡ length mm
  unfolding run_overlap
  length-run_overlap dev mm h = sized comm_op h
    where
      sized :
          (op : CommOp) {ran : gpu.Device × List ℤ}
          → run_overlap gpu op dev mm ≡ ok ran
          → length ran.1 ≡ length mm
      sized all_reduce h =
          ap (λ (r : gpu.Device × List ℤ). length r.1) (sym (ok-injective h))
          ∙ keeps.all_reduce_size dev mm
      sized reduce_scatter h =
          ap (λ (r : gpu.Device × List ℤ). length r.1) (sym (ok-injective h))
          ∙ keeps.reduce_scatter_size dev mm
      sized other_op h = cc

  -- One accepted sample, and the matrix that is handed on.
  collect_sample-IsComplete :
      (dev : gpu.Device) (mm : List ℤ) {one : gpu.Device × List ℤ × Sample}
      → length mm ≡ monitor_size t s true
      → collect_sample gpu comm_op t s dev mm ≡ ok one
      → IsComplete t one.2 × (length one.1 ≡ monitor_size t s true)
  unfolding collect_sample
  collect_sample-IsComplete dev mm {one} size h =
      let (ran, done, h') =
        >>=-eq-ok (run_overlap gpu comm_op dev (reset_monitor_matrix mm t s true)) _ h in
      let kept : length ran.1 ≡ monitor_size t s true =
        length-run_overlap dev (reset_monitor_matrix mm t s true) done ∙ length-reset mm t s size in
      let order = monitor_order_view ran.1 t s in
      elim (Bool-cases (any_missing order)) [
        | inl missing ↦ absurd (let bad = rw missing at h' in cc)
        | inr complete ↦
            let same : (ran.0, ran.1, order) ≡ one = ok-injective (rw complete at h') in
            rw (← same) (
              record {
                size = length-monitor_order_view ran.1 t s kept;
                written = written_of order complete;
              },
              kept,
            )
      ]

  -- A run that leaves the place of a tile as it found it is never taken for a sample, whatever stood
  -- in the matrix before.
  pub collect_sample-refuses :
      (dev : gpu.Device) (mm : List ℤ) (tile : ℕ) {ran : gpu.Device × List ℤ}
      → length mm ≡ monitor_size t s true
      → tile < t
      → run_overlap gpu comm_op dev (reset_monitor_matrix mm t s true) ≡ ok ran
      → get_or (monitor_order_view ran.1 t s) tile (negsuc 0)
        ≡ get_or (monitor_order_view (reset_monitor_matrix mm t s true) t s) tile (negsuc 0)
      → collect_sample gpu comm_op t s dev mm ≡ err runtime_error
  unfolding collect_sample
  collect_sample-refuses dev mm tile {ran} size inside done same =
      let kept : length ran.1 ≡ monitor_size t s true =
        length-run_overlap dev (reset_monitor_matrix mm t s true) done ∙ length-reset mm t s size in
      let order = monitor_order_view ran.1 t s in
      let blank : get_or order tile (negsuc 0) ≡ negsuc 0 =
        same
        ∙ ap (λ v. get_or v tile (negsuc 0)) (after_reset mm t s size).1
        ∙ get_or-replicate t tile (negsuc 0) in
      let inside' : tile < length order = rw (length-monitor_order_view ran.1 t s kept) inside in
      rw (done, missing_entry order tile inside' (rw blank))

  -- Whenever the collection succeeds there are as many samples as were asked for, and each of them
  -- holds a place for every tile.
  pub collect_monitor_samples-IsComplete :
      (sample_count : ℕ) (dev : gpu.Device) (mm : List ℤ) {out : gpu.Device × List ℤ × List Sample}
      → length mm ≡ monitor_size t s true
      → collect_monitor_samples gpu comm_op t s sample_count dev mm ≡ ok out
      → (length out.2 ≡ sample_count)
        × All (IsComplete t) out.2
        × (length out.1 ≡ monitor_size t s true)
  unfolding collect_monitor_samples
  collect_monitor_samples-IsComplete zero dev mm {out} size h =
      rw (← ok-injective h) (refl, tt, size)
  collect_monitor_samples-IsComplete (suc count) dev mm {out} size h =
      let (one, done, h') = >>=-eq-ok (collect_sample gpu comm_op t s dev mm) _ h in
      let (complete, kept) = collect_sample-IsComplete dev mm size done in
      let (rest, more, h'') =
        >>=-eq-ok (collect_monitor_samples gpu comm_op t s count one.0 one.1) _ h' in
      let (number, others, last) = collect_monitor_samples-IsComplete count one.0 one.1 kept more in
      rw (← ok-injective h'') (ap suc number, (complete, others), last)
