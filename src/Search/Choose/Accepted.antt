-- ===== src/Search/Choose/Accepted.antt =====
-- What is known of the candidate that `choose_candidate` returns.
use ooverlap.Prelude.{
  ℕ, zero, suc, ◌<◌, ◌≤◌, ◌≡◌, refl, sym, ap, ◌∙◌, inl, inr, Bool, true, false, some, List, [], ◌∷◌,
  length, take, ltb, if◌then◌else◌, replicate, Nodup, All, Bool-cases, arith,
}
use ooverlap.Prelude.Int.{pos}
use ooverlap.Prelude.Floats.{Floats}
use ooverlap.Prelude.Membership.{In, here, there}
use ooverlap.Prelude.Result.{ok, >>=-eq-ok, ok-injective, Option-cases, Result-cases}
use ooverlap.Search.Geometry.{div_up, tile_count, compute_sms_from_slack, monitor_size}
use ooverlap.Search.Segments.{window_segments}
use ooverlap.Search.Latency.{CommOp, sms_count_of}
use ooverlap.Search.Hint.{Sample, HintResult, compute_stable_hint_from_rounds}
use ooverlap.Search.Hint.Contents.{compute_stable_hint_from_rounds-holds, came_from}
use ooverlap.Search.Hint.Groups.{compute_stable_hint_from_rounds-group}
use ooverlap.Search.Sampling.{Gpu, warm_up, collect_rounds, compute_hint_process}
use ooverlap.Search.Candidates.{Candidate, filter_candidates_by_algo_id}
use ooverlap.Search.Choose.{
  Options, Machine, Selected, Groups, group_sizes, compute_hint, selection, accept, try_candidate,
  try_candidates, choose_candidate,
}

module _ (gpu : Gpu) where
  -- A hint that a rank returns was computed from rounds of samples of the grid's tiles.
  compute_hint_process-ok :
      (comm_op : CommOp) (m n bm bn size c nominal minimum : ℕ) (confirm : Bool) (dev : gpu.Device)
      {r : HintResult}
      → compute_hint_process gpu comm_op m n bm bn size c nominal minimum confirm dev ≡ ok r
      → (rounds : List (List Sample)) × (t : ℕ) × (tile_count m n bm bn ≡ ok t)
        × (compute_stable_hint_from_rounds rounds t size c nominal minimum ≡ ok r)
  unfolding compute_hint_process
  compute_hint_process-ok comm_op m n bm bn size c nominal minimum confirm dev h =
      let (t, counted, h₁) = >>=-eq-ok (tile_count m n bm bn) _ h in
      let (cseg, cut, h₂) = >>=-eq-ok (window_segments t size) _ h₁ in
      let mm = replicate (monitor_size t (length cseg) true) (pos 0) in
      let (warm, warmed, h₃) = >>=-eq-ok (warm_up gpu comm_op t (length cseg) 100 dev mm) _ h₂ in
      let (rounds, collected, h₄) =
        >>=-eq-ok (collect_rounds gpu comm_op t (length cseg) confirm 10 warm.0 warm.1) _ h₃ in
      (rounds, t, counted, h₄)

module _ (f : Floats) (machine : Machine) (o : Options) where
  -- The selected candidate with the sizes that follow from it, and a hint that suits them.
  pub record IsSelected (s : Selected f) : Type 0 where
    pub counted : tile_count o.m o.n s.candidate.bm s.candidate.bn ≡ ok s.tile_num
    pub waves : div_up s.tile_num s.compute_sms ≡ ok s.wave_num
    pub sms :
        sms_count_of (compute_sms_from_slack machine.sm_count o.comm_sm_slack) ≡ ok s.compute_sms
    pub positive_sms : 0 < s.compute_sms
    pub distinct : Nodup s.hint
    pub in_grid : All (λ x. x < s.tile_num) s.hint
    pub groups : Groups
    pub sized : group_sizes o s.wave_num s.compute_sms ≡ ok groups
    pub large_enough : groups.min_effective_group_size ≤ s.effective_min_group_size
    pub not_larger : s.effective_min_group_size ≤ groups.min_group_size

  compute_hint-ok :
      (t : ℕ) (x : Candidate f) (c : ℕ) (g : Groups) (tile_num : ℕ) {r : HintResult}
      → tile_count o.m o.n x.bm x.bn ≡ ok tile_num
      → compute_hint f machine o t x c g ≡ ok r
      → (rounds : List (List Sample)) × (compute_stable_hint_from_rounds rounds tile_num
            g.window_size c g.min_group_size g.min_effective_group_size
          ≡ ok r)
  unfolding compute_hint
  compute_hint-ok t x c g tile_num counted h = elim (Bool-cases (ltb machine.world_size 2)) [
    | inl alone ↦ absurd (let bad = rw alone at h in cc)
    | inr together ↦
        let (rounds, t', counted', made) =
          compute_hint_process-ok machine.gpu o.comm_op o.m o.n x.bm x.bn g.window_size c
            g.min_group_size g.min_effective_group_size
            (if o.predictive then o.effective_hint_confirm else false) (machine.device t)
            (rw together at h) in
        let same : t' ≡ tile_num = ok-injective (sym counted' ∙ counted) in
        (rounds, rw same at made)
  ]

  selection-IsSelected :
      (t : ℕ) (x : Candidate f) (c tile_num wave_num : ℕ) (g : Groups) (r : HintResult)
      → sms_count_of (compute_sms_from_slack machine.sm_count o.comm_sm_slack) ≡ ok c
      → tile_count o.m o.n x.bm x.bn ≡ ok tile_num
      → div_up tile_num c ≡ ok wave_num
      → group_sizes o wave_num c ≡ ok g
      → compute_hint f machine o t x c g ≡ ok r
      → r.accepted ≡ true
      → IsSelected (selection f machine o x tile_num wave_num c g r)
  selection-IsSelected t x c tile_num wave_num g r sms counted waves sized ran yes_ok =
      let (rounds, made) = compute_hint-ok t x c g tile_num counted ran in
      let low = g.min_effective_group_size in
      let (distinct, in_grid, exact) =
        compute_stable_hint_from_rounds-holds rounds tile_num g.window_size c g.min_group_size low
          made yes_ok in
      let (upper, lower, refused, windows) =
        compute_stable_hint_from_rounds-group rounds tile_num g.window_size c g.min_group_size low
          made in
      let v = came_from rounds tile_num g.window_size c g.min_group_size low made in
      record {
        counted = counted;
        waves = waves;
        sms = sms;
        positive_sms = v.positive_sms;
        distinct = distinct;
        in_grid = in_grid;
        groups = g;
        sized = sized;
        large_enough = lower yes_ok;
        not_larger = upper;
      }

  try_candidate-IsSelected :
      (t c : ℕ) (x : Candidate f) {s : Selected f}
      → sms_count_of (compute_sms_from_slack machine.sm_count o.comm_sm_slack) ≡ ok c
      → try_candidate f machine o t c x ≡ ok (some s)
      → IsSelected s × (s.candidate ≡ x)
  unfolding try_candidate accept
  try_candidate-IsSelected t c x {s} sms h =
      let (tile_num, counted, h₁) = >>=-eq-ok (tile_count o.m o.n x.bm x.bn) _ h in
      let (wave_num, waves, h₂) = >>=-eq-ok (div_up tile_num c) _ h₁ in
      let (g, sized, h₃) = >>=-eq-ok (group_sizes o wave_num c) _ h₂ in
      let taken = ok-injective h₃ in
      elim (Result-cases (compute_hint f machine o t x c g)) [
        | inr (e, failed) ↦ absurd (let bad = rw failed at taken in cc)
        | inl (r, ran) ↦
            let taken' : accept f machine o x tile_num wave_num c g (ok r) ≡ some s =
              rw ran at taken in
            elim (Bool-cases r.accepted) [
              | inr refused ↦ absurd (ground (arith, taken', refused))
              | inl accepted ↦
                  let same : selection f machine o x tile_num wave_num c g r ≡ s =
                    ground (arith, taken', accepted) in
                  rw (← same) (
                    selection-IsSelected t x c tile_num wave_num g r sms counted waves sized ran
                        accepted,
                    refl,
                  )
            ]
      ]

  try_candidates-IsSelected :
      (cs : List (Candidate f)) (t c : ℕ) {s : Selected f}
      → sms_count_of (compute_sms_from_slack machine.sm_count o.comm_sm_slack) ≡ ok c
      → try_candidates f machine o t c cs ≡ ok s
      → IsSelected s × In s.candidate cs
  unfolding try_candidates
  try_candidates-IsSelected [] t c sms h = cc
  try_candidates-IsSelected (x ∷ cs) t c {s} sms h =
      let (found, tried, h') = >>=-eq-ok (try_candidate f machine o t c x) _ h in
      elim (Option-cases found) [
        | inl refused ↦
            let (v, m) = try_candidates-IsSelected cs (suc t) c sms (ground (arith, h', refused)) in
            (v, there m)
        | inr (s', taken) ↦
            let same : s' ≡ s = ground (arith, h', taken) in
            let (v, e) =
              try_candidate-IsSelected t c x sms (tried ∙ ap ok (taken ∙ ap some same)) in
            (v, rw e here)
      ]

  In-take : (k : ℕ) (cs : List (Candidate f)) {x : Candidate f} → In x (take k cs) → In x cs
  In-take zero cs m = elim m [ ]
  In-take (suc k) [] m = elim m [ ]
  In-take (suc k) (y ∷ cs) here = here
  In-take (suc k) (y ∷ cs) (there m) = there (In-take k cs m)

  -- The candidate that is returned is one of those that passed `--algo_id`; its tile and wave numbers
  -- are those of its tile shape; its hint names tiles of the grid, each once, and its effective group
  -- size lies between the least one asked for and the nominal one.
  pub choose_candidate-IsSelected :
      (loaded : List (Candidate f)) {s : Selected f}
      → choose_candidate f machine o loaded ≡ ok s
      → (cs : List (Candidate f)) × (filter_candidates_by_algo_id f o.algo_id loaded ≡ ok cs)
        × In s.candidate cs
        × IsSelected s
  unfolding choose_candidate
  choose_candidate-IsSelected loaded h =
      let (cs, filtered, h₁) = >>=-eq-ok (filter_candidates_by_algo_id f o.algo_id loaded) _ h in
      let (c, sms, h₂) =
        >>=-eq-ok (sms_count_of (compute_sms_from_slack machine.sm_count o.comm_sm_slack)) _ h₁ in
      let (v, m) = try_candidates-IsSelected _ 0 c sms h₂ in (cs, filtered, In-take _ cs m, v)
