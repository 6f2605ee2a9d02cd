-- ===== src/Search/Solve/Optimal.antt =====
-- What `fast_search` and `exhaustive_search` save is a solution, and the best that they looked at.
use ooverlap.Prelude.{
  ℕ, ◌≡◌, refl, sym, ap, ◌∙◌, inl, inr, Bool, true, false, none, some, List, arith,
}
use mathlib.Core.Path.{fun_ext, subst}
use ooverlap.Prelude.Floats.{Floats, IsOrdered}
use ooverlap.Prelude.Result.{Result, ok, >>=-eq-ok, Option-cases}
use ooverlap.Search.Geometry.{div_up}
use ooverlap.Search.Partitions.{integer_partitions}
use ooverlap.Search.Partitions.Complete.{IsPartition, integer_partitions_iff}
use ooverlap.Search.Latency.Debug.{predict_lat_with_debug-agrees}
use ooverlap.Search.Candidates.{Candidate}
use ooverlap.Search.Choose.{Options, Machine, Selected, choose_candidate}
use ooverlap.Search.Choose.Accepted.{choose_candidate-IsSelected}
use ooverlap.Search.Solve.{
  Best, Solution, is_cold_start, search_loop, expand_units, estimate, predictive_search,
  fast_search, exhaustive_search,
}
use ooverlap.Search.Solve.Minimum.{CameFromTry, search_loop-IsLeast}
use ooverlap.Search.Solve.Valid.{IsSolution, cseg_covers, saved}

div_up_one : (n : ℕ) → div_up n 1 ≡ ok n
unfolding div_up
div_up_one n = ap ok (omega arith)

module _ (f : Floats) (machine : Machine) (o : Options) where
  -- The partition's segmentation has a duration, at some call, and it is not less than `best`.
  pub record NotBetter (s : Selected f) (g : ℕ) (dur_of : ℕ → List ℕ → Result f.F) (best : f.F)
      (gp : List ℕ) : Type 0 where
    pub cseg : List ℕ
    pub expanded : expand_units f machine o s g gp ≡ ok cseg
    pub call : ℕ
    pub dur : f.F
    pub timed : dur_of call cseg ≡ ok dur
    pub not_less : f.lt dur best ≡ false

  -- The segmentation is that of a partition that was not skipped, and `best` is its own duration.
  pub record IsTimed (s : Selected f) (g groups : ℕ) (skip : List ℕ → Bool)
      (dur_of : ℕ → List ℕ → Result f.F) (best : f.F) (cseg : List ℕ) : Type 0 where
    pub partition : List ℕ
    pub parts : IsPartition groups partition
    pub kept : skip partition ≡ false
    pub expanded : expand_units f machine o s g partition ≡ ok cseg
    pub call : ℕ
    pub timed : dur_of call cseg ≡ ok best

  came-IsTimed :
      (s : Selected f) (g groups : ℕ) (skip : List ℕ → Bool) (dur_of : ℕ → List ℕ → Result f.F)
      (best : Best f) (cseg : List ℕ)
      → (ordered : IsOrdered f)
      → CameFromTry f ordered skip
          (expand_units f machine o s g)
          dur_of
          (integer_partitions groups)
          best
      → best.best_cseg ≡ some cseg
      → IsTimed s g groups skip dur_of best.min_dur cseg
  came-IsTimed s g groups skip dur_of best cseg ordered (gp, place, t, same, dur) found =
      let own : t.cseg ≡ cseg = ground (arith, same, found) in
      record {
        partition = gp;
        parts = (integer_partitions_iff groups gp).0 place;
        kept = t.kept;
        expanded = t.expanded ∙ ap ok own;
        call = t.call;
        timed = ap (dur_of t.call) (sym own) ∙ t.timed ∙ ap ok (sym dur);
      }

  module _ (measure : ℕ → Selected f → List ℕ → Result f.F) (huge : f.F) where
    -- A predictive search that succeeds saves a solution. Its segmentation is that of a partition of the
    -- groups of waves which the cold-start rule keeps; its predicted latency is the estimate of that very
    -- segmentation, and its searched latency the first measurement of it; and the predicted latency is not
    -- beaten by any partition that the cold-start rule keeps.
    pub fast_search-IsSolution :
        (latency : ℕ → Result f.F) (debug : Bool) (loaded : List (Candidate f)) {sol : Solution f}
        → IsOrdered f
        → fast_search f machine o measure huge latency debug loaded ≡ ok sol
        → IsSolution f o sol
          × ((s : Selected f) × (groups : ℕ) × (best : f.F) × (choose_candidate f machine o loaded
                ≡ ok s)
              × (div_up s.wave_num s.effective_min_group_size ≡ ok groups)
              × (sol.predicted_latency_ms ≡ some best)
              × IsTimed s s.effective_min_group_size groups is_cold_start
                  (λ k cseg. estimate f machine o latency debug s cseg)
                  best
                  sol.cseg
              × (measure 0 s sol.cseg ≡ ok sol.searched_latency_ms)
              × ((gp : List ℕ)
                  → IsPartition groups gp
                  → is_cold_start gp ≡ false
                  → NotBetter s s.effective_min_group_size
                      (λ k cseg. estimate f machine o latency debug s cseg)
                      best
                      gp))
    unfolding fast_search
    fast_search-IsSolution latency debug loaded {sol} ordered h =
        let (s, chosen, h₁) = >>=-eq-ok (choose_candidate f machine o loaded) _ h in
        let (groups, grouped, h₂) = >>=-eq-ok (div_up s.wave_num s.effective_min_group_size) _ h₁ in
        let expand = expand_units f machine o s s.effective_min_group_size in
        let dur_of : ℕ → List ℕ → Result f.F =
          λ k cseg. estimate f machine o latency debug s cseg in
        let (best, looped, h₃) =
          >>=-eq-ok
            (search_loop f is_cold_start expand dur_of 0
              (record { min_dur = huge; best_cseg = none }) (integer_partitions groups))
            _ h₂ in
        elim (Option-cases best.best_cseg) [
          | inl nothing ↦ absurd (let bad = rw nothing at h₃ in cc)
          | inr (cseg, found) ↦
              let (searched, timed, h₄) = >>=-eq-ok (measure 0 s cseg) _ (rw found at h₃) in
              let (came, least) =
                search_loop-IsLeast f ordered is_cold_start expand dur_of
                  (integer_partitions groups) huge looped found in
              let own =
                came-IsTimed s s.effective_min_group_size groups is_cold_start dur_of best cseg
                  ordered came found in
              let (cs, filtered, member, v) =
                choose_candidate-IsSelected f machine o loaded chosen in
              let covers =
                cseg_covers f machine o s s.effective_min_group_size groups own.partition cseg
                  v.waves grouped own.parts own.expanded in
              let (good, a, b, c, d) =
                saved f machine o s cseg (some best.min_dur) searched v covers h₄ in
              (
                good,
                (
                  s,
                  groups,
                  best.min_dur,
                  chosen,
                  grouped,
                  b,
                  subst
                      (IsTimed s s.effective_min_group_size groups is_cold_start dur_of
                        best.min_dur)
                      (sym a) own,
                  ap (measure 0 s) a ∙ timed ∙ ap ok (sym c),
                  λ gq p kept.
                      let (u, e) = least gq ((integer_partitions_iff groups gq).1 p) kept in
                      record {
                        cseg = u.cseg;
                        expanded = u.expanded;
                        call = u.call;
                        dur = u.dur;
                        timed = u.timed;
                        not_less = e;
                      },
                ),
              )
        ]

    -- An exhaustive search that succeeds saves a solution. Its segmentation is that of a partition of the
    -- waves; its searched latency is a measurement of that very segmentation; and it is not beaten by the
    -- measurement of any partition of the waves.
    pub exhaustive_search-IsSolution :
        (loaded : List (Candidate f)) {sol : Solution f}
        → IsOrdered f
        → exhaustive_search f machine o measure huge loaded ≡ ok sol
        → IsSolution f o sol
          × ((s : Selected f) × (choose_candidate f machine o loaded ≡ ok s)
              × IsTimed s 1 s.wave_num
                  (λ gp. false)
                  (λ k cseg. measure k s cseg)
                  sol.searched_latency_ms
                  sol.cseg
              × ((gp : List ℕ)
                  → IsPartition s.wave_num gp
                  → NotBetter s 1 (λ k cseg. measure k s cseg) sol.searched_latency_ms gp))
    unfolding exhaustive_search
    exhaustive_search-IsSolution loaded {sol} ordered h =
        let (s, chosen, h₁) = >>=-eq-ok (choose_candidate f machine o loaded) _ h in
        let expand = expand_units f machine o s 1 in
        let dur_of : ℕ → List ℕ → Result f.F = λ k cseg. measure k s cseg in
        let skip : List ℕ → Bool = λ gp. false in
        let (best, looped, h₂) =
          >>=-eq-ok
            (search_loop f skip expand dur_of 0 (record { min_dur = huge; best_cseg = none })
              (integer_partitions s.wave_num))
            _ h₁ in
        elim (Option-cases best.best_cseg) [
          | inl nothing ↦ absurd (let bad = rw nothing at h₂ in cc)
          | inr (cseg, found) ↦
              let (came, least) =
                search_loop-IsLeast f ordered skip expand dur_of (integer_partitions s.wave_num)
                  huge looped found in
              let own = came-IsTimed s 1 s.wave_num skip dur_of best cseg ordered came found in
              let (cs, filtered, member, v) =
                choose_candidate-IsSelected f machine o loaded chosen in
              let covers =
                cseg_covers f machine o s 1 s.wave_num own.partition cseg v.waves
                  (div_up_one s.wave_num) own.parts own.expanded in
              let (good, a, b, c, d) =
                saved f machine o s cseg none best.min_dur v covers (rw found at h₂) in
              (
                good,
                (
                  s,
                  chosen,
                  rw (a, c) own,
                  λ gq p.
                      let (u, e) = least gq ((integer_partitions_iff s.wave_num gq).1 p) refl in
                      record {
                        cseg = u.cseg;
                        expanded = u.expanded;
                        call = u.call;
                        dur = u.dur;
                        timed = u.timed;
                        not_less = rw c e;
                      },
                ),
              )
        ]

    estimate-agrees :
        (latency : ℕ → Result f.F) (s : Selected f) (cseg : List ℕ)
        → estimate f machine o latency true s cseg ≡ estimate f machine o latency false s cseg
    unfolding estimate
    estimate-agrees latency s cseg =
        predict_lat_with_debug-agrees f latency machine.sm_count o.comm_sm_slack o.m o.n
          s.candidate.dur s.tile_num cseg

    -- `--debug_search` changes no solution and no exception of a predictive search.
    pub fast_search-debug :
        (latency : ℕ → Result f.F) (loaded : List (Candidate f))
        → fast_search f machine o measure huge latency true loaded
          ≡ fast_search f machine o measure huge latency false loaded
    unfolding fast_search
    fast_search-debug latency loaded =
        let same : estimate f machine o latency true ≡ estimate f machine o latency false =
          fun_ext (λ s. fun_ext (λ cseg. estimate-agrees latency s cseg)) in
        ap
          (λ (e : Selected f → List ℕ → Result f.F).
            predictive_search f machine o measure huge e loaded)
          same
