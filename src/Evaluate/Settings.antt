-- ===== src/Evaluate/Settings.antt =====
-- The tables at the top of tool/evaluate_sm90.py and the checks of the settings.
use Prim.Native.String.{String}
use ooverlap.Prelude.{
  ℕ, ◌*◌, Bool, true, false, not, ◌&&◌, ◌||◌, Option, none, some, List, [], ◌∷◌, length, ltb, ◌==◌,
  if◌then◌else◌,
}
use ooverlap.Prelude.Int.{ℤ, pos, int_eq, is_negative, is_positive}
use ooverlap.Prelude.Result.{Result, ok, err, value_error, ◌>>=◌}
use ooverlap.Evaluate.{Shape, MinGroupTrial, CommRunConfig}

abbrev pub config : ℕ → ℕ → CommRunConfig
config slack ctas = record { comm_sm_slack = pos slack; max_ctas_per_reduce_task = pos ctas }

unfoldable pub comm_run_configs_by_tp : ℕ → List CommRunConfig
comm_run_configs_by_tp tp =
    if tp == 2
    then config 4 4 ∷ config 6 6 ∷ config 8 8 ∷ config 10 10 ∷ config 12 12 ∷ config 16 16 ∷ []
    else if tp == 4
    then config 6 2 ∷ config 9 3 ∷ config 12 4 ∷ config 15 5 ∷ config 18 6 ∷ config 24 8 ∷ []
    else []

abbrev pub trial : ℕ → ℕ → Option ℕ → MinGroupTrial
trial group effective max_mn = record {
  min_group_size = group;
  min_effective_group_size = effective;
  max_mn = max_mn;
}

unfoldable pub min_group_trials : List MinGroupTrial
min_group_trials =
    trial 4 2 (some (8192 * 4096))
    ∷ trial 8 6 none
    ∷ trial 10 8 none
    ∷ trial 12 10 none
    ∷ trial 16 12 none
    ∷ trial 20 16 none
    ∷ trial 24 20 none
    ∷ []

-- What the script fixes: its two tables and its shapes.
pub record Tables : Type 0 where
  pub shapes : List Shape
  pub configs_by_tp : ℕ → List CommRunConfig
  pub trials : List MinGroupTrial
  pub skip_existing_ok_scenarios : Bool

unfoldable pub has_int : ℤ → List ℤ → Bool
has_int x [] = false
has_int x (y ∷ ys) = int_eq x y || has_int x ys

-- `len(set(devices)) != len(devices)`
unfoldable pub has_duplicate : List ℤ → Bool
has_duplicate [] = false
has_duplicate (x ∷ xs) = has_int x xs || has_duplicate xs

unfoldable pub any_negative : List ℤ → Bool
any_negative [] = false
any_negative (x ∷ xs) = is_negative x || any_negative xs

-- The pieces are those of `value.split(",")` that are not blank; `parse` stands for `int`.
unfoldable pub parse_all : (parse : String → Option ℤ) → List String → Result (List ℤ)
parse_all parse [] = ok []
parse_all parse (piece ∷ pieces) = elim (parse piece) [
  | none ↦ err value_error
  | some device ↦ (do devices ← parse_all parse pieces; ok (device ∷ devices))
]

unfoldable pub parse_devices : (parse : String → Option ℤ) → List String → Result (List ℤ)
parse_devices parse pieces = do
  devices ← parse_all parse pieces
  if ltb (length devices) 2
      then err value_error
      else if has_duplicate devices
      then err value_error
      else if any_negative devices
      then err value_error
      else ok devices

unfoldable pub same_config : CommRunConfig → CommRunConfig → Bool
same_config a b =
    int_eq a.comm_sm_slack b.comm_sm_slack
    && int_eq a.max_ctas_per_reduce_task b.max_ctas_per_reduce_task

-- `pair in seen`
unfoldable pub has_config : CommRunConfig → List CommRunConfig → Bool
has_config c [] = false
has_config c (d ∷ ds) = same_config c d || has_config c ds

unfoldable pub check_configs : (seen : List CommRunConfig) → List CommRunConfig → Result (Unit {0})
check_configs seen [] = ok tt
check_configs seen (c ∷ cs) =
    let rest = check_configs (c ∷ seen) cs in
    if not (is_positive c.comm_sm_slack) || not (is_positive c.max_ctas_per_reduce_task)
    then err value_error
    else if has_config c seen
    then err value_error
    else rest

unfoldable pub active_comm_run_configs : Tables → (world_size : ℕ) → Result (List CommRunConfig)
active_comm_run_configs t world_size = elim (t.configs_by_tp world_size) [
  | [] ↦ err value_error
  | c ∷ cs ↦ (do checked ← check_configs [] (c ∷ cs); ok (c ∷ cs))
]

-- `min_group_trial_allowed`
unfoldable pub is_allowed : Shape → MinGroupTrial → Bool
is_allowed s trial = elim trial.max_mn [ none ↦ true | some max_mn ↦ not (ltb max_mn (s.m * s.n)) ]
