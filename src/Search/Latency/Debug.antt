-- ===== src/Search/Latency/Debug.antt =====
-- The two versions of the prediction give the same latency.
use ooverlap.Prelude.{
  ℕ, zero, suc, ◌*◌, ◌≡◌, refl, ◌∙◌, ap, sym, inl, inr, Option, none, some, List, [], ◌∷◌, ◌++◌,
  arith,
}
use ooverlap.Prelude.Floats.{Floats}
use ooverlap.Prelude.Result.{
  Result, ok, err, Error, zero_division, ◌>>=◌, Result-cases, bind_congr, >>=_assoc,
}
use ooverlap.Search.Geometry.{div_up, compute_sms_from_slack}
use ooverlap.Search.Latency.{
  TraceLine, final_comm, div_int, comm_before, predict_loop, debug_loop, predict_many, predict_lat,
  debug_many, predict_lat_with_debug, floor_div, sms_count_of, last_elem,
}

module _ (f : Floats) where
  abbrev latency_of : Result (f.F × List (TraceLine f)) → Result f.F
  latency_of r = r >>= λ t. ok t.0

  div_int-refused : (x : f.F) (n : ℕ) {e : Error} → div_int f x n ≡ err e → e ≡ zero_division
  unfolding div_int
  div_int-refused x zero h = ground arith
  div_int-refused x (suc n) h = cc

  div_up-refused : (x y : ℕ) {e : Error} → div_up x y ≡ err e → e ≡ zero_division
  unfolding div_up
  div_up-refused x zero h = ground arith
  div_up-refused x (suc y) h = cc

  module _ (latency : ℕ → Result f.F) (compute_sms : ℕ) where
    abbrev ends_of : Result (f.F × f.F × List (TraceLine f)) → Result (f.F × f.F)
    ends_of r = r >>= λ t. ok (t.0, t.1)

    debug_loop_lem :
        (gp : List ℕ) (elems : ℕ) (scaled : f.F) (waves : ℕ) (comm comp : f.F) (before : Option ℕ)
        (lines : List (TraceLine f))
        → ends_of (debug_loop f latency compute_sms elems scaled waves comm comp before gp lines)
          ≡ predict_loop f latency compute_sms elems scaled waves comm comp before gp
    unfolding debug_loop predict_loop
    debug_loop_lem [] elems scaled waves comm comp before lines = refl
    debug_loop_lem (tiles ∷ gp) elems scaled waves comm comp before lines =
        elim (Result-cases (comm_before f latency compute_sms elems before)) [
          | inr (e, failed) ↦ rw failed
          | inl (dur, before_ok) ↦ elim (Result-cases (div_int f scaled waves)) [
            | inr (e, failed) ↦ elim (Result-cases (div_up tiles compute_sms)) [
              | inr (e', failed') ↦
                  rw (before_ok, failed, failed')
                    (ap err (
                      div_up-refused tiles compute_sms failed'
                      ∙ sym (div_int-refused scaled waves failed)))
              | inl (q, rounded) ↦ rw (before_ok, failed, rounded)
            ]
            | inl (w, divided) ↦ elim (Result-cases (div_up tiles compute_sms)) [
              | inr (e', failed') ↦ rw (before_ok, divided, failed')
              | inl (q, rounded) ↦
                  rw (before_ok, divided, rounded)
                    (debug_loop_lem gp elems scaled waves _ _ (some tiles) _)
            ]
          ]
        ]

  module _ (latency : ℕ → Result f.F) (sm_count comm_sm_slack m n : ℕ) (gemm_dur : f.F) where
    -- The last step of both: the trace changes nothing.
    finish_agrees :
        (elems : ℕ) (gp : List ℕ) (line : ℕ → f.F → f.F → TraceLine f) (p : Result (f.F × f.F))
        (r : Result (f.F × f.F × List (TraceLine f)))
        → p ≡ (r >>= λ t. ok (t.0, t.1))
        → (p >>= λ ends. last_elem gp >>= λ tiles.
            latency (elems * tiles) >>= λ last. ok (f.add (f.fmax ends.1 ends.0) last))
          ≡ latency_of (
              r >>= λ ends. last_elem gp >>= λ tiles. latency (elems * tiles) >>= λ last.
              let total = f.add (f.fmax ends.1 ends.0) last in
              ok (total, ends.2 ++ line tiles last total ∷ []))
    finish_agrees elems gp line p (err e) h = rw h
    finish_agrees elems gp line p (ok ends) h = rw h (elim (Result-cases (last_elem gp)) [
      | inr (e, failed) ↦ rw failed
      | inl (tiles, found) ↦ elim (Result-cases (latency (elems * tiles))) [
        | inr (e, failed) ↦ rw (found, failed)
        | inl (last, done) ↦ rw (found, done)
      ]
    ])

    predict_many-agrees :
        (tile_num : ℕ) (gp : List ℕ)
        → predict_many f latency sm_count comm_sm_slack m n gemm_dur tile_num gp ≡ (
            floor_div (m * n) tile_num >>= λ elems.
            sms_count_of (compute_sms_from_slack sm_count comm_sm_slack) >>= λ sms.
            latency_of
              (debug_many f latency sm_count comm_sm_slack m n gemm_dur tile_num elems sms gp))
    unfolding predict_many debug_many
    predict_many-agrees tile_num gp = bind_congr (floor_div (m * n) tile_num) λ elems.
        bind_congr (sms_count_of (compute_sms_from_slack sm_count comm_sm_slack)) λ sms.
          elim (Result-cases (div_up tile_num sm_count)) [
            | inr (e, failed) ↦ rw failed
            | inl (old, a) ↦ elim (Result-cases (div_up tile_num sms)) [
              | inr (e, failed) ↦ rw (a, failed)
              | inl (waves, b) ↦ elim (Result-cases (div_int f gemm_dur old)) [
                | inr (e, failed) ↦ rw (a, b, failed)
                | inl (w, c) ↦
                    rw (a, b, c)
                      (finish_agrees elems gp (λ tiles. final_comm tiles (elems * tiles)) _ _
                        (sym (
                          debug_loop_lem latency sms gp elems (f.mul w (f.of_int waves)) waves
                            (f.of_int 0) (f.of_int 0) none _)))
              ]
            ]
          ]

    latency_of-many :
        (tile_num : ℕ) (gp : List ℕ)
        → latency_of (
            floor_div (m * n) tile_num >>= λ elems.
            sms_count_of (compute_sms_from_slack sm_count comm_sm_slack) >>= λ sms.
            debug_many f latency sm_count comm_sm_slack m n gemm_dur tile_num elems sms gp)
          ≡ (floor_div (m * n) tile_num >>= λ elems.
              sms_count_of (compute_sms_from_slack sm_count comm_sm_slack) >>= λ sms.
              latency_of
                (debug_many f latency sm_count comm_sm_slack m n gemm_dur tile_num elems sms gp))
    latency_of-many tile_num gp = simp >>=_assoc

    -- `predict_lat_with_debug` predicts the latency that `predict_lat` predicts, on every input and
    -- with every exception.
    pub predict_lat_with_debug-agrees :
        (tile_num : ℕ) (gp : List ℕ)
        → latency_of
            (predict_lat_with_debug f latency sm_count comm_sm_slack m n gemm_dur tile_num gp)
          ≡ predict_lat f latency sm_count comm_sm_slack m n gemm_dur tile_num gp
    unfolding predict_lat predict_lat_with_debug
    predict_lat_with_debug-agrees tile_num [] =
        latency_of-many tile_num [] ∙ sym (predict_many-agrees tile_num [])
    predict_lat_with_debug-agrees tile_num (tiles ∷ []) = simp >>=_assoc
    predict_lat_with_debug-agrees tile_num (a ∷ b ∷ gp) =
        latency_of-many tile_num (a ∷ b ∷ gp) ∙ sym (predict_many-agrees tile_num (a ∷ b ∷ gp))
