-- ===== src/Search/Backends/Started.antt =====
-- Which searches a run of the tool starts, and on which bandwidth file.
use ooverlap.Prelude.{
  ℕ, ◌*◌, ◌<◌, ◌≤◌, ◌≡◌, ◌⊎◌, refl, inl, inr, Bool, true, false, List, [], ◌∷◌, ltb, Bool-cases,
  arith,
}
use ooverlap.Prelude.Result.{Result, ok, >>=-eq-ok, ok-injective}
use ooverlap.Search.Backends.{
  Backend, nccl, ooverlap_backend, Requested, both, only, Args, CurvePath, curve_candidates,
  load_comm_array, requested_bandwidth_path, Run, fast, exhaustive, use_predictive, run_for_backend,
  backends, run_backends, main,
}
use ooverlap.Search.Backends.Files.{
  IsFirst, IsCandidates, curve_candidates-IsCandidates, load_comm_array-IsFirst,
}

module _ (exists_file : CurvePath → Bool) where
  -- A search that suits the arguments; also one that measures needs files that are not ambiguous.
  pub data IsSearch (world_size : ℕ) (args : Args) (backend : Backend) : Run → Type 0 where
    predictive :
        (path : CurvePath) (files : List CurvePath)
        → (args.predictive_search ≡ true) ⊎ (33554432 < args.m * args.n)
        → IsCandidates world_size args backend files
        → IsFirst exists_file path files
        → IsSearch world_size args backend (fast backend path)
    measured :
        (files : List CurvePath)
        → args.predictive_search ≡ false
        → args.m * args.n ≤ 33554432
        → IsCandidates world_size args backend files
        → IsSearch world_size args backend (exhaustive backend)

  use_predictive-true :
      (args : Args)
      → use_predictive args ≡ true
      → (args.predictive_search ≡ true) ⊎ (33554432 < args.m * args.n)
  unfolding use_predictive
  use_predictive-true args h = elim (Bool-cases args.predictive_search) [
    | inl asked ↦ inl asked
    | inr unasked ↦ inr (ground (arith, h, unasked))
  ]

  use_predictive-false :
      (args : Args)
      → use_predictive args ≡ false
      → (args.predictive_search ≡ false) × (args.m * args.n ≤ 33554432)
  unfolding use_predictive
  use_predictive-false args h = (ground (arith, h), ground (arith, h))

  run_for_backend-IsSearch :
      (world_size : ℕ) (args : Args) (backend : Backend) {run : Run}
      → run_for_backend exists_file world_size args backend ≡ ok run
      → IsSearch world_size args backend run
  unfolding run_for_backend
  run_for_backend-IsSearch world_size args backend {run} h =
      let (path, asked, h₁) = >>=-eq-ok (requested_bandwidth_path args backend) _ h in
      let files = curve_candidates backend args.comm_op world_size path in
      let suit = curve_candidates-IsCandidates world_size args backend asked in
      elim (Bool-cases (use_predictive args)) [
        | inl yes_ok ↦
            let (used, loaded, h₂) =
              >>=-eq-ok (load_comm_array exists_file backend args.comm_op world_size path) _
                (rw yes_ok at h₁) in
            rw (← ok-injective h₂) (
              predictive used files (use_predictive-true args yes_ok) suit
                (load_comm_array-IsFirst exists_file backend args.comm_op world_size path loaded))
        | inr no_ok ↦
            let (unasked, small) = use_predictive-false args no_ok in
            rw (← ok-injective (rw no_ok at h₁)) (measured files unasked small suit)
      ]

  module _ (search : Run → Result (Unit {0})) where
    -- The runs are one for each backend, in the same order, and each has ended well.
    pub data AreSearches (world_size : ℕ) (args : Args) : List Backend → List Run → Type 0 where
      no_more : AreSearches world_size args [] []
      next :
          {backend : Backend} {run : Run} {rest : List Backend} {runs : List Run}
          → IsSearch world_size args backend run
          → search run ≡ ok tt
          → AreSearches world_size args rest runs
          → AreSearches world_size args (backend ∷ rest) (run ∷ runs)

    run_backends-AreSearches :
        (world_size : ℕ) (args : Args) (bs : List Backend) {runs : List Run}
        → run_backends exists_file search world_size args bs ≡ ok runs
        → AreSearches world_size args bs runs
    unfolding run_backends
    run_backends-AreSearches world_size args [] h = rw (← ok-injective h) no_more
    run_backends-AreSearches world_size args (b ∷ bs) h =
        let (run, started, h₁) = >>=-eq-ok (run_for_backend exists_file world_size args b) _ h in
        let (u, ended, h₂) = >>=-eq-ok (search run) _ h₁ in
        let (runs, more, h₃) =
          >>=-eq-ok (run_backends exists_file search world_size args bs) _ h₂ in
        rw (← ok-injective h₃) (
          next (run_for_backend-IsSearch world_size args b started) ended
            (run_backends-AreSearches world_size args bs more))

    -- The searches of a run: for NCCL and then ooverlap where both are asked for, else for the one.
    pub data AreRequested (world_size : ℕ) (args : Args) (runs : List Run) : Type 0 where
      two :
          args.comm_backend ≡ both
          → AreSearches world_size args (nccl ∷ ooverlap_backend ∷ []) runs
          → AreRequested world_size args runs
      one :
          (backend : Backend)
          → args.comm_backend ≡ only backend
          → AreSearches world_size args (backend ∷ []) runs
          → AreRequested world_size args runs

    requested :
        (world_size : ℕ) (args : Args) (r : Requested) {runs : List Run}
        → args.comm_backend ≡ r
        → AreSearches world_size args (backends r) runs
        → AreRequested world_size args runs
    unfolding backends
    requested world_size args both e v = two e v
    requested world_size args (only backend) e v = one backend e v

    -- A run of the tool that ends well had at least two GPUs and started one search for each backend
    -- that was asked for, in order, and each ended well. A search is predictive where the arguments ask for it or
    -- the result has more than 33554432 elements, and measures otherwise; a predictive one reads the first existing
    -- file of its candidates: the file given for its backend alone; or else the file given for all alone, which no
    -- run for both backends has; or else those of `configs/`, for NCCL the one with its name before the one with
    -- the old name.
    pub main-AreSearches :
        (world_size : ℕ) (args : Args) {runs : List Run}
        → main exists_file search world_size args ≡ ok runs
        → (2 ≤ world_size) × AreRequested world_size args runs
    unfolding main
    main-AreSearches world_size args h = elim (Bool-cases (ltb world_size 2)) [
      | inl few ↦ absurd (ground (arith, few, h))
      | inr enough ↦ (
        ground (arith, enough),
        requested world_size args args.comm_backend refl (
            run_backends-AreSearches world_size args (backends args.comm_backend) (rw enough at h)),
      )
    ]
