-- ===== src/Evaluate/Stages.antt =====
-- The stages of a scenario: `run_profile`, `run_search_with_retries`, `run_test`, `run_scenario`.
use ooverlap.Prelude.{
  ℕ, Bool, true, false, ◌&&◌, Option, none, some, List, [], ◌∷◌, ◌++◌, length, ltb, ◌==◌,
  if◌then◌else◌,
}
use ooverlap.Prelude.Int.{ℤ, pos, int_eq}
use ooverlap.Prelude.Result.{Result, ok, err, type_error}
use ooverlap.Prelude.Outcome.{M, and_then, ◌>>=◌, return, lift}
use ooverlap.Evaluate.{Shape, MinGroupTrial, CommRunConfig, Backend, nccl, ooverlap_backend}
use ooverlap.Evaluate.Settings.{is_allowed}
use ooverlap.Evaluate.World.{
  Status, running, succeeded, failed, Stage, search_stage, test_capped_stage, Trial, Search,
  Scenario, profile, search, test, SolutionFile, exact, legacy, matched, unknown_gpu, Solution,
  Outside, World, run_cmd, save_scenario, scenario_id,
}

-- `config_has_algos`, on what the file holds.
unfoldable pub config_has_algos : Option (Option ℕ) → Bool
config_has_algos none = false
config_has_algos (some none) = false
config_has_algos (some (some n)) = ltb 0 n

-- `load_solution_summary`: whether there is a solution for this number of devices, and the slack it
-- was made for.
pub record Summary : Type 0 where
  pub ok : Bool
  pub comm_sm_slack : Option ℤ

unfoldable pub is_world_size : ℕ → Option ℤ → Bool
is_world_size world_size none = true
is_world_size world_size (some n) = int_eq n (pos world_size)

unfoldable pub summarize_solution : (world_size : ℕ) → Option Solution → Summary
summarize_solution world_size none = record { ok = false; comm_sm_slack = none }
summarize_solution world_size (some s) =
    if is_world_size world_size s.world_size
    then record { ok = true; comm_sm_slack = s.comm_sm_slack }
    else record { ok = false; comm_sm_slack = none }

-- `int(solution.get("comm_sm_slack", -1)) == int(slack)`: the key is there, and may hold `None`.
unfoldable pub has_slack : Summary → ℤ → Result Bool
has_slack s slack = elim s.comm_sm_slack [ none ↦ err type_error | some n ↦ ok (int_eq n slack) ]

-- The second summary is looked at where the first one suits.
unfoldable pub solution_ok : (nccl_summary ooverlap_summary : Summary) → ℤ → Result Bool
solution_ok a b slack =
    if a.ok && b.ok
    then elim (has_slack a slack) [
      | err e ↦ err e
      | ok same ↦ if same then has_slack b slack else ok false
    ]
    else ok false

-- `EVALUATION_SCHEMA_VERSION`
abbrev pub evaluation_schema_version : ℕ
evaluation_schema_version = 2

-- The status after the test, and the stage that failed.
unfoldable pub test_status : Bool → Status
test_status true = succeeded
test_status false = failed

unfoldable pub failed_test : Bool → Option Stage
failed_test true = none
failed_test false = some test_capped_stage

unfoldable pub with_test : Scenario → Bool → Scenario
with_test searched capped = record searched {
  capped_ok = some capped;
  status = test_status capped;
  failed_stage = failed_test capped;
}

module _ (o : Outside) (devices : List ℤ) where
  unfoldable pub has_algos : Shape → M (World o) Bool
  has_algos s w = and_then (lift (o.algos s w.rest) w) (λ algos. return (config_has_algos algos))

  -- `run_profile` from the test for the CSV file on.
  unfoldable pub profile_anew : Shape → M (World o) Bool
  profile_anew s w =
      (if o.csv_exists s w.rest
          then (do code_ok ← run_cmd o (profile s); if code_ok then has_algos s else return false)
          else return false)
        w

  -- Whether the profile is there. Its files are read only where the flag asks for it.
  unfoldable pub run_profile : (skip_existing_profile : Bool) → Shape → M (World o) Bool
  run_profile false s = profile_anew s
  run_profile true s = do found ← has_algos s; if found then return true else profile_anew s

  -- `solution_path`, for two devices and more.
  unfoldable pub solution_path : Shape → Backend → o.State → SolutionFile
  solution_path s backend rest =
      let file = exact backend s (length devices) in
      let newest = matched backend s (length devices) in
      if o.gpu_known rest
      then (if o.solution_exists file rest
          then file
          else if (length devices == 2) && o.solution_exists (legacy backend s) rest
          then legacy backend s
          else file)
      else if o.solution_exists newest rest
      then newest
      else unknown_gpu backend s (length devices)

  unfoldable pub load_solution_summary : Shape → Backend → M (World o) Summary
  load_solution_summary s backend w =
      and_then (lift (o.solution_json (solution_path s backend w.rest) w.rest) w)
        (λ json. return (summarize_solution (length devices) json))

  -- Whether the trial found solutions for both backends and this slack.
  unfoldable pub run_search_trial : Shape → CommRunConfig → MinGroupTrial → M (World o) Bool
  run_search_trial s c trial = do
    code_ok ← run_cmd o (search s c trial)
    a ← load_solution_summary s nccl
    b ← load_solution_summary s ooverlap_backend
    suits ← lift (solution_ok a b c.comm_sm_slack)
    return (code_ok && suits)

  -- The loop over the trials, after `tried`.
  unfoldable pub try_trials :
      Shape → CommRunConfig → (tried : List Trial) → List MinGroupTrial → M (World o) Search
  try_trials s c tried [] = return (record { ok = false; selected = none; trials = tried })
  try_trials s c tried (t ∷ ts) =
      if is_allowed s t
      then (do
        found ← run_search_trial s c t
        let tried' = tried ++ record { ok = found; skipped = false; trial = t } ∷ []
        if found
            then return (record { ok = true; selected = some t; trials = tried' })
            else try_trials s c tried' ts)
      else try_trials s c (tried ++ record { ok = false; skipped = true; trial = t } ∷ []) ts

  unfoldable pub run_search_with_retries :
      List MinGroupTrial → Shape → CommRunConfig → M (World o) Search
  run_search_with_retries trials s c = try_trials s c [] trials

  -- Whether the test ended well. What it measured is read from its output.
  unfoldable pub run_test : Shape → CommRunConfig → M (World o) Bool
  run_test s c = run_cmd o (test s c)

  -- The scenario as it is saved first.
  unfoldable pub started : Shape → CommRunConfig → Scenario
  started s c = record {
    scenario_id = scenario_id o devices s c;
    m = s.m;
    n = s.n;
    k = s.k;
    world_size = some (pos (length devices));
    comm_sm_slack = some c.comm_sm_slack;
    max_ctas_per_reduce_task = some c.max_ctas_per_reduce_task;
    schema_version = some evaluation_schema_version;
    status = running;
    failed_stage = none;
    search = none;
    capped_ok = none;
    profile_ok = none;
  }

  -- `run_scenario` from the result of the search on. The summaries that go into the file are read
  -- before it is saved again.
  unfoldable pub finish_scenario : Shape → CommRunConfig → Search → M (World o) Scenario
  finish_scenario s c found =
      let searched = record (started s c) { search = some found } in
      if found.ok
      then (do
        a ← load_solution_summary s nccl
        b ← load_solution_summary s ooverlap_backend
        saved ← save_scenario o searched
        capped ← run_test s c
        let ended = with_test searched capped
        saved' ← save_scenario o ended
        return ended)
      else (do
        let ended = record searched { status = failed; failed_stage = some search_stage }
        saved ← save_scenario o ended
        return ended)

  unfoldable pub run_scenario : List MinGroupTrial → Shape → CommRunConfig → M (World o) Scenario
  run_scenario trials s c = do
    saved ← save_scenario o (started s c)
    found ← run_search_with_retries trials s c
    finish_scenario s c found
