-- ===== src/Search/Backends.antt =====
-- tool/search.py: `main`, `run_for_backend` and the bandwidth file that a predictive search reads. A
-- search that is started is a value, `Run`; how it ends is a parameter here.
pub mod Files
pub mod Started
use text.Mathlib.Text.{◌==◌ as str_eq}
use Prim.Native.String.{String}
use ooverlap.Prelude.{
  ℕ, ◌*◌, Bool, true, false, ◌||◌, not, Option, none, some, List, [], ◌∷◌, ltb, if◌then◌else◌,
}
use ooverlap.Prelude.Result.{Result, ok, err, value_error, runtime_error, file_not_found, ◌>>=◌}
use ooverlap.Search.Latency.{CommOp}

pub data Backend : Type 0 where
  nccl ooverlap_backend : Backend

-- The choices of `--comm_backend`.
pub data Requested : Type 0 where
  both : Requested
  only : Backend → Requested

-- The arguments that decide which search is run and on which file.
pub record Args : Type 0 where
  pub m : ℕ
  pub n : ℕ
  pub comm_op : CommOp
  pub comm_backend : Requested
  pub bandwidth_path : String
  pub nccl_bandwidth_path : String
  pub ooverlap_bandwidth_path : String
  pub predictive_search : Bool

-- A file: a given one, or one of `configs/`, whose names hold these values.
pub data CurvePath : Type 0 where
  given : String → CurvePath
  curve : Backend → CommOp → (world_size : ℕ) → CurvePath
  legacy_curve : CommOp → (world_size : ℕ) → CurvePath

unfoldable pub bandwidth_curve_paths : Backend → CommOp → ℕ → List CurvePath
bandwidth_curve_paths nccl op world_size =
    curve nccl op world_size ∷ legacy_curve op world_size ∷ []
bandwidth_curve_paths ooverlap_backend op world_size = curve ooverlap_backend op world_size ∷ []

-- `next((candidate for candidate in candidates if candidate.exists()), None)`
unfoldable pub first_existing : (exists_file : CurvePath → Bool) → List CurvePath → Option CurvePath
first_existing exists_file [] = none
first_existing exists_file (p ∷ ps) =
    let rest = first_existing exists_file ps in if exists_file p then some p else rest

unfoldable pub curve_candidates : Backend → CommOp → ℕ → String → List CurvePath
curve_candidates backend op world_size bandwidth_path =
    if str_eq bandwidth_path ""
    then bandwidth_curve_paths backend op world_size
    else given bandwidth_path ∷ []

-- The file that is loaded; its contents are a parameter of the searches.
unfoldable pub load_comm_array :
    (exists_file : CurvePath → Bool) → Backend → CommOp → ℕ → String → Result CurvePath
load_comm_array exists_file backend op world_size bandwidth_path =
    elim (first_existing exists_file (curve_candidates backend op world_size bandwidth_path)) [
      | none ↦ err file_not_found
      | some path ↦ ok path
    ]

unfoldable pub specific_path : Args → Backend → String
specific_path args nccl = args.nccl_bandwidth_path
specific_path args ooverlap_backend = args.ooverlap_bandwidth_path

-- `args.comm_backend == "both"`
unfoldable pub is_both : Requested → Bool
is_both both = true
is_both (only backend) = false

unfoldable pub requested_bandwidth_path : Args → Backend → Result String
requested_bandwidth_path args backend =
    if not (str_eq (specific_path args backend) "")
    then ok (specific_path args backend)
    else if not (str_eq args.bandwidth_path "")
    then (if is_both args.comm_backend then err value_error else ok args.bandwidth_path)
    else ok ""

pub data Run : Type 0 where
  fast : Backend → CurvePath → Run
  exhaustive : Backend → Run

unfoldable pub use_predictive : Args → Bool
use_predictive args = args.predictive_search || ltb 33554432 (args.m * args.n)

-- The search that is started, or the exception before it.
unfoldable pub run_for_backend :
    (exists_file : CurvePath → Bool) → (world_size : ℕ) → Args → Backend → Result Run
run_for_backend exists_file world_size args backend = do
  bandwidth_path ← requested_bandwidth_path args backend
  let loaded = load_comm_array exists_file backend args.comm_op world_size bandwidth_path in
      if use_predictive args
      then (do used_path ← loaded; ok (fast backend used_path))
      else ok (exhaustive backend)

unfoldable pub backends : Requested → List Backend
backends both = nccl ∷ ooverlap_backend ∷ []
backends (only backend) = backend ∷ []

-- The loop over the backends, with the searches that have ended well so far.
unfoldable pub run_backends :
    (exists_file : CurvePath → Bool) (search : Run → Result (Unit {0}))
    → (world_size : ℕ) → Args
    → List Backend
    → Result (List Run)
run_backends exists_file search world_size args [] = ok []
run_backends exists_file search world_size args (backend ∷ rest) = do
  run ← run_for_backend exists_file world_size args backend
  ended ← search run
  runs ← run_backends exists_file search world_size args rest
  ok (run ∷ runs)

unfoldable pub main :
    (exists_file : CurvePath → Bool) (search : Run → Result (Unit {0}))
    → (world_size : ℕ) → Args
    → Result (List Run)
main exists_file search world_size args =
    if ltb world_size 2
    then err runtime_error
    else run_backends exists_file search world_size args (backends args.comm_backend)
