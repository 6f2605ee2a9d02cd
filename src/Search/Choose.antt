-- ===== src/Search/Choose.antt =====
-- tool/search.py: `choose_candidate`, which takes the first candidate whose hint is accepted.
pub mod Accepted
use ooverlap.Prelude.{
  ℕ, zero, suc, ◌+◌, ◌-◌, ◌*◌, Bool, true, false, Option, none, some, List, [], ◌∷◌, length, take,
  max, ltb, if◌then◌else◌,
}
use ooverlap.Prelude.Floats.{Floats}
use ooverlap.Prelude.Result.{Result, ok, err, runtime_error, unmodelled, ◌>>=◌}
use ooverlap.Search.Geometry.{div_up, tile_count, compute_sms_from_slack}
use ooverlap.Search.Latency.{CommOp, sms_count_of}
use ooverlap.Search.Hint.{HintResult}
use ooverlap.Search.Sampling.{Gpu, compute_hint_process}
use ooverlap.Search.Candidates.{Candidate, filter_candidates_by_algo_id, candidate_count}

abbrev pub default_exhaustive_algos : ℕ
default_exhaustive_algos = 5

abbrev pub default_predictive_algos : ℕ
default_predictive_algos = 10

-- The options of a search.
pub record Options : Type 0 where
  pub m : ℕ
  pub n : ℕ
  pub comm_op : CommOp
  pub comm_sm_slack : ℕ
  pub predictive : Bool
  pub min_group_size_override : Option ℕ
  pub min_effective_group_size_override : Option ℕ
  pub effective_hint_confirm : Bool
  pub algo_id : Option ℕ

-- The machine: the extension, the device as the t-th try finds it, and what torch says of it.
pub record Machine : Type 1 where
  pub gpu : Gpu
  pub device : ℕ → gpu.Device
  pub sm_count : ℕ
  pub world_size : ℕ

-- `selected`
pub record Selected (f : Floats) : Type 0 where
  pub candidate : Candidate f
  pub tile_num : ℕ
  pub wave_num : ℕ
  pub hint : List ℕ
  pub effective_min_group_size : ℕ
  pub selected_min_group_size : ℕ
  pub compute_sms : ℕ

-- `min_group_size`, `min_effective_group_size` and `wSize`.
pub record Groups : Type 0 where
  pub min_group_size : ℕ
  pub min_effective_group_size : ℕ
  pub window_size : ℕ

unfoldable pub or_else : Option ℕ → Result ℕ → Result ℕ
or_else none r = r
or_else (some x) r = ok x

abbrev pub or_default : Option ℕ → ℕ → ℕ
or_default none d = d
or_default (some x) d = x

unfoldable pub group_sizes : Options → (wave_num compute_sms : ℕ) → Result Groups
group_sizes o wave_num compute_sms = elim o.predictive [
  | true ↦ do
    group ← or_else o.min_group_size_override (div_up wave_num 10)
    ok (record {
      min_group_size = group;
      min_effective_group_size = or_default o.min_effective_group_size_override (max 1 (group - 3));
      window_size = group * compute_sms;
    })
  | false ↦
      ok (record { min_group_size = 1; min_effective_group_size = 1; window_size = compute_sms })
]

module _ (f : Floats) (machine : Machine) (o : Options) where
  -- `compute_hint`: every rank runs `compute_hint_process`, and rank 0's result is returned.
  unfoldable pub compute_hint :
      (t : ℕ) → Candidate f → (compute_sms : ℕ) → Groups → Result HintResult
  compute_hint t c compute_sms g =
      if ltb machine.world_size 2
      then err runtime_error
      else compute_hint_process machine.gpu o.comm_op o.m o.n c.bm c.bn g.window_size compute_sms
          g.min_group_size g.min_effective_group_size
          (if o.predictive then o.effective_hint_confirm else false) (machine.device t)

  abbrev pub selection :
      Candidate f → (tile_num wave_num compute_sms : ℕ) → Groups → HintResult → Selected f
  selection c tile_num wave_num compute_sms g r = record {
    candidate = c;
    tile_num = tile_num;
    wave_num = wave_num;
    hint = r.hint;
    effective_min_group_size = r.effective_group;
    selected_min_group_size = g.min_group_size;
    compute_sms = compute_sms;
  }

  -- What the `except` clause and the test of `ok` make of a hint: the next candidate, or this one.
  unfoldable pub accept :
      Candidate f
      → (tile_num wave_num compute_sms : ℕ) → Groups
      → Result HintResult
      → Option (Selected f)
  accept c tile_num wave_num compute_sms g (err e) = none
  accept c tile_num wave_num compute_sms g (ok r) =
      if r.accepted then some (selection c tile_num wave_num compute_sms g r) else none

  -- The body of the loop over the candidates.
  unfoldable pub try_candidate : (t compute_sms : ℕ) → Candidate f → Result (Option (Selected f))
  try_candidate t compute_sms c = do
    tile_num ← tile_count o.m o.n c.bm c.bn
    wave_num ← div_up tile_num compute_sms
    g ← group_sizes o wave_num compute_sms
    ok (accept c tile_num wave_num compute_sms g (compute_hint t c compute_sms g))

  unfoldable pub try_candidates : (t compute_sms : ℕ) → List (Candidate f) → Result (Selected f)
  try_candidates t compute_sms [] = err runtime_error
  try_candidates t compute_sms (c ∷ cs) =
      let rest = try_candidates (suc t) compute_sms cs in
      try_candidate t compute_sms c >>= λ found. elim found [ some s ↦ ok s | none ↦ rest ]

  -- `loaded` is what `load_shape_config` returns.
  unfoldable pub choose_candidate : List (Candidate f) → Result (Selected f)
  choose_candidate loaded = do
    cs ← filter_candidates_by_algo_id f o.algo_id loaded
    compute_sms ← sms_count_of (compute_sms_from_slack machine.sm_count o.comm_sm_slack)
    let limit = if o.predictive then default_predictive_algos else default_exhaustive_algos
    try_candidates 0 compute_sms (take (candidate_count (length cs) limit o.algo_id) cs)
