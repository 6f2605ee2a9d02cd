-- ===== src/Search/Candidates.antt =====
-- tool/search.py: the GEMM algorithms that a search may try.
pub mod Known
use ooverlap.Prelude.{
  ℕ, zero, suc, ◌+◌, Bool, true, false, Option, none, some, List, [], ◌∷◌, length, filter, min,
  ◌==◌, if◌then◌else◌,
}
use ooverlap.Prelude.Floats.{Floats}
use ooverlap.Prelude.Result.{Result, ok, err, value_error}

-- What AlgoDictSm90.json says of an algorithm that a search reads.
pub record AlgoItem : Type 0 where
  pub tile_m : ℕ
  pub tile_n : ℕ

-- `load_algo_dict`: the last entry of an id counts, so the list is the file's, last entry first.
abbrev pub AlgoDict : Type 0
AlgoDict = List (ℕ × AlgoItem)

unfoldable pub find_algo : ℕ → AlgoDict → Option AlgoItem
find_algo algo [] = none
find_algo algo ((id, item) ∷ dict) = if algo == id then some item else find_algo algo dict

-- One place of the four lists `BM`, `BN`, `dur` and `Algo`, which are kept in step.
pub record Candidate (f : Floats) : Type 0 where
  pub bm : ℕ
  pub bn : ℕ
  pub dur : f.F
  pub algo : ℕ

module _ (f : Floats) where
  -- `zip(BM_list, BN_list, gemm_dur_list, Algo_list)`
  unfoldable pub zip_candidates : (bm bn : List ℕ) → List f.F → List ℕ → List (Candidate f)
  zip_candidates (bm ∷ bms) (bn ∷ bns) (dur ∷ durs) (algo ∷ algos) =
      record { bm = bm; bn = bn; dur = dur; algo = algo } ∷ zip_candidates bms bns durs algos
  zip_candidates _ _ _ _ = []

  -- The loop of `normalize_loaded_candidates`: unknown algorithms are skipped, and the tile sizes
  -- are those of the dictionary.
  unfoldable pub normalize_loaded_candidates : AlgoDict → List (Candidate f) → List (Candidate f)
  normalize_loaded_candidates dict [] = []
  normalize_loaded_candidates dict (c ∷ cs) =
      let rest = normalize_loaded_candidates dict cs in
      elim (find_algo c.algo dict) [
        | none ↦ rest
        | some item ↦ record c { bm = item.tile_m; bn = item.tile_n } ∷ rest
      ]

  unfoldable pub filter_candidates_by_algo_id :
      Option ℕ → List (Candidate f) → Result (List (Candidate f))
  filter_candidates_by_algo_id none cs = ok cs
  filter_candidates_by_algo_id (some id) cs = elim (filter (λ (c : Candidate f). c.algo == id) cs) [
    | [] ↦ err value_error
    | c ∷ found ↦ ok (c ∷ found)
  ]

unfoldable pub candidate_count : (total default_limit : ℕ) → Option ℕ → ℕ
candidate_count total default_limit none = min default_limit total
candidate_count total default_limit (some id) = total
