-- ===== src/Search/Candidates/Known.antt =====
-- The candidates that are left after loading.
use ooverlap.Prelude.{
  ℕ, ◌≡◌, inl, inr, Bool, true, Option, none, some, List, [], ◌∷◌, filter, All, ◌==◌, Bool-cases,
  ==_iff, arith,
}
use ooverlap.Prelude.Floats.{Floats}
use ooverlap.Prelude.Result.{ok, ok-injective, Option-cases}
use ooverlap.Search.Candidates.{
  AlgoDict, find_algo, Candidate, normalize_loaded_candidates, filter_candidates_by_algo_id,
}

module _ (f : Floats) where
  -- The dictionary knows the algorithm, with the tile sizes of the candidate.
  abbrev pub IsKnown : AlgoDict → Candidate f → Type 0
  IsKnown dict c = find_algo c.algo dict ≡ some (record { tile_m = c.bm; tile_n = c.bn })

  -- `--algo_id` picks that algorithm.
  abbrev pub IsPicked : Option ℕ → Candidate f → Type 0
  IsPicked none c = Unit
  IsPicked (some id) c = c.algo ≡ id

  normalize-IsKnown :
      (dict : AlgoDict) (cs : List (Candidate f))
      → All (IsKnown dict) (normalize_loaded_candidates f dict cs)
  unfolding normalize_loaded_candidates
  normalize-IsKnown dict [] = tt
  normalize-IsKnown dict (c ∷ cs) = elim (Option-cases (find_algo c.algo dict)) [
    | inl unknown ↦ rw (unknown, All) (normalize-IsKnown dict cs)
    | inr (item, found) ↦ rw (found, All) (found, normalize-IsKnown dict cs)
  ]

  All-filter :
      (P : Candidate f → Type 0) (test : Candidate f → Bool) (cs : List (Candidate f))
      → All P cs
      → All P (filter test cs) × All (λ c. test c ≡ true) (filter test cs)
  All-filter P test [] h = (tt, tt)
  All-filter P test (c ∷ cs) h =
      let (a, b) = All-filter P test cs h.1 in
      elim (Bool-cases (test c)) [ inl e ↦ rw e ((h.0, a), (e, b)) | inr e ↦ rw e (a, b) ]

  All-IsPicked :
      (id : ℕ) (cs : List (Candidate f))
      → All (λ (c : Candidate f). (c.algo == id) ≡ true) cs
      → All (IsPicked (some id)) cs
  All-IsPicked id [] h = tt
  All-IsPicked id (c ∷ cs) h = ((==_iff c.algo id).0 h.0, All-IsPicked id cs h.1)

  All-IsPicked_trivial : (cs : List (Candidate f)) → All (IsPicked none) cs
  All-IsPicked_trivial [] = tt
  All-IsPicked_trivial (c ∷ cs) = (tt, All-IsPicked_trivial cs)

  -- What a search tries after loading and filtering: every candidate has an algorithm of the
  -- dictionary, with the dictionary's tile sizes, and it is the requested one if one was requested.
  pub load_and_filter-IsKnown :
      (dict : AlgoDict) (loaded : List (Candidate f)) (algo_id : Option ℕ) {cs : List (Candidate f)}
      → filter_candidates_by_algo_id f algo_id (normalize_loaded_candidates f dict loaded) ≡ ok cs
      → All (IsKnown dict) cs × All (IsPicked algo_id) cs
  unfolding filter_candidates_by_algo_id
  load_and_filter-IsKnown dict loaded none {cs} h = rw (← ok-injective h) (
    normalize-IsKnown dict loaded,
    All-IsPicked_trivial (normalize_loaded_candidates f dict loaded),
  )
  load_and_filter-IsKnown dict loaded (some id) {cs} h =
      let known = normalize_loaded_candidates f dict loaded in
      let test = λ (c : Candidate f). c.algo == id in
      let (a, b) = All-filter (IsKnown dict) test known (normalize-IsKnown dict loaded) in
      let same : filter test known ≡ cs = ground (arith, h) in
      rw (← same) (a, All-IsPicked id (filter test known) b)
