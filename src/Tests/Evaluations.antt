-- ===== src/Tests/Evaluations.antt =====
-- An evaluation of one small shape on two devices.
use ooverlap.Prelude.Sorting.{sort_by, insert_by}
use Prim.Native.String.{String, ◌++◌}
use ooverlap.Prelude.{
  ℕ, zero, suc, ◌≡◌, refl, Bool, true, false, Option, none, some, List, [], ◌∷◌, ◌==◌,
}
use ooverlap.Prelude.Int.{ℤ, pos, negsuc}
use ooverlap.Prelude.Result.{ok}
use ooverlap.Prelude.Membership.{In}
use ooverlap.Prelude.Outcome.{Ends}
use ooverlap.Prelude.Dict.{lookup, insert}
use ooverlap.Evaluate.{Shape}
use ooverlap.Evaluate.Settings.{
  Tables, config, trial, active_comm_run_configs, is_allowed, has_config, same_config,
  parse_devices, parse_all, has_duplicate, has_int, any_negative, check_configs,
}
use ooverlap.Evaluate.World.{
  succeeded, Search, Scenario, Report, Command, profile, search, test, Outside, World, scenario_id,
  run_cmd, save_scenario, shape_id, device_part, device_config_id, join_devices,
}
use ooverlap.Evaluate.Stages.{
  run_search_with_retries, run_scenario, try_trials, run_search_trial, load_solution_summary,
  solution_ok, summarize_solution, is_world_size, has_slack, finish_scenario, started, with_test,
  test_status, failed_test, run_test, run_profile, profile_anew, has_algos, config_has_algos,
}
use ooverlap.Evaluate.Resume.{
  is_complete, keep_configured, load_existing_scenarios, load_files, name_le, with_id,
  uses_configured_comm_run_config, configured, is_succeeded, is_version, is_true, sorted_scenarios,
  summarize, existing_scenario_is_ok, scenario_le, key_le, scenario_numbers, or_zero,
}
use ooverlap.Evaluate.Run.{
  Args, main, validate_bandwidth_curves, has_curves, all_curves, curve_files, exit_if_empty,
  select_shapes, run_shapes, run_shape, all_ok, run_configs, is_kept, write_partial, finish,
}
use ooverlap.Evaluate.Retries.{IsRetried, run_search_with_retries-IsRetried}
use ooverlap.Evaluate.Interrupted.{IsSaved, IsUnfinished, run_scenario-IsSaved}
use ooverlap.Evaluate.Resumed.{main-keeps}
use ooverlap.Evaluate.Reported.{IsReported, main-IsReported}

abbrev digits : ℕ → String
digits zero = ""
digits (suc n) = "1" ++ digits n

abbrev str : ℤ → String
str (pos n) = digits n
str (negsuc n) = "-" ++ digits (suc n)

-- The search finds a solution with groups of ten waves.
abbrev ends_well : Command → Bool
ends_well (profile s) = true
ends_well (search s c t) = t.min_group_size == 10
ends_well (test s c) = true

abbrev machine : Outside
machine = record {
  State = ℕ;
  str = str;
  run = λ c n. (ends_well c, suc n);
  gpu_known = λ n. true;
  csv_exists = λ s n. true;
  algos = λ s n. ok (some (some 1));
  solution_exists = λ p n. true;
  solution_json = λ p n. ok (some (record { world_size = none; comm_sm_slack = some (pos 4) }));
  is_curve = λ p n. true;
}

abbrev shape : Shape
shape = record { m = 1; n = 2; k = 3; csv = "" }

abbrev tables : Tables
tables = record {
  shapes = shape ∷ [];
  configs_by_tp = λ tp. config 4 2 ∷ [];
  trials = trial 4 2 (some 1) ∷ trial 8 6 none ∷ trial 10 8 none ∷ trial 12 10 none ∷ [];
  skip_existing_ok_scenarios = true;
}

abbrev devices : List ℤ
devices = pos 0 ∷ pos 1 ∷ []

abbrev fresh : World machine
fresh = record { files = []; partial_report = none; final_report = none; commands = []; rest = 0 }

abbrev found : Search
found = record {
  ok = true;
  selected = some (trial 10 8 none);
  trials =
      record { ok = false; skipped = true; trial = trial 4 2 (some 1) }
      ∷ record { ok = false; skipped = false; trial = trial 8 6 none }
      ∷ record { ok = true; skipped = false; trial = trial 10 8 none }
      ∷ [];
}

abbrev searched : World machine
searched = record fresh {
  commands =
      search shape (config 4 2) (trial 8 6 none) ∷ search shape (config 4 2) (trial 10 8 none) ∷ [];
  rest = 2;
}

run_search_with_retries_example :
    IsRetried machine devices shape (config 4 2) fresh [] tables.trials found searched
unfolding run_search_with_retries try_trials run_search_trial load_solution_summary solution_ok
    summarize_solution is_world_size has_slack is_allowed run_cmd
run_search_with_retries_example =
    run_search_with_retries-IsRetried machine devices shape (config 4 2) tables.trials fresh
      {r = found} {w' = searched} refl

run_scenario_example :
    Ends
      (IsSaved machine devices shape (config 4 2))
      (λ v. IsUnfinished machine devices shape (config 4 2) v.files)
      (run_scenario machine devices tables.trials shape (config 4 2) fresh)
run_scenario_example = run_scenario-IsSaved machine devices shape (config 4 2) tables.trials fresh

abbrev parse : String → Option ℤ
parse (String.[]) = none
parse (String.◌∷◌ c rest) = elim rest [
  | String.[] ↦ some (pos 0)
  | String.◌∷◌ d more ↦ some (pos 1)
]

abbrev args : Args
args = record {
  skip_existing_profile = false;
  rerun_existing_scenarios = false;
  devices = "0" ∷ "01" ∷ [];
  only_shape = "";
}

abbrev sid : String
sid = "m1n11k111__tp11__dev-1__slack1111__rcta11"

abbrev kept : Scenario
kept = record {
  scenario_id = sid;
  m = 1;
  n = 2;
  k = 3;
  world_size = some (pos 2);
  comm_sm_slack = some (pos 4);
  max_ctas_per_reduce_task = some (pos 2);
  schema_version = some 2;
  status = succeeded;
  failed_stage = none;
  search = some found;
  capped_ok = some true;
  profile_ok = some true;
}

abbrev earlier : World machine
earlier = record fresh {
  files =
      (sid, some kept)
      ∷ ("broken", none)
      ∷ ("old", some (record kept { scenario_id = ""; world_size = none }))
      ∷ [];
}

main-keeps_example :
    Ends
      (λ code v.
        (lookup sid v.files ≡ some (some kept))
        × (report : Report) × (v.final_report ≡ some report)
        × In kept report.scenarios)
      (λ v. lookup sid v.files ≡ some (some kept))
      (main machine tables parse args earlier)
unfolding lookup insert keep_configured load_existing_scenarios load_files sort_by insert_by name_le
    with_id uses_configured_comm_run_config has_config configured same_config is_complete
    is_succeeded is_version is_true
main-keeps_example = main-keeps machine tables parse args sid kept earlier refl refl refl refl

abbrev report : Report
report = record {
  scenario_count = 1;
  ok_count = 1;
  failed_count = 0;
  failed_ids = [];
  scenarios = kept ∷ [];
}

abbrev evaluated : World machine
evaluated = record fresh {
  files = (sid, some kept) ∷ [];
  partial_report = some report;
  final_report = some report;
  commands =
      profile shape
      ∷ search shape (config 4 2) (trial 8 6 none)
      ∷ search shape (config 4 2) (trial 10 8 none)
      ∷ test shape (config 4 2)
      ∷ [];
  rest = 4;
}

main-IsReported_example : IsReported machine tables parse args evaluated 0
unfolding main validate_bandwidth_curves has_curves all_curves curve_files exit_if_empty
    select_shapes run_shapes run_shape all_ok run_configs is_kept write_partial finish parse_devices
    parse_all has_duplicate has_int any_negative active_comm_run_configs check_configs
    run_search_with_retries try_trials run_search_trial load_solution_summary solution_ok
    summarize_solution is_world_size has_slack is_allowed run_cmd lookup insert keep_configured
    load_existing_scenarios load_files sort_by insert_by name_le with_id
    uses_configured_comm_run_config has_config configured same_config is_complete is_succeeded
    is_version is_true run_scenario finish_scenario started with_test test_status failed_test
    run_test run_profile profile_anew has_algos config_has_algos save_scenario scenario_id shape_id
    device_part device_config_id join_devices sorted_scenarios summarize existing_scenario_is_ok
    scenario_le key_le scenario_numbers or_zero
main-IsReported_example = main-IsReported machine tables parse args fresh {w' = evaluated} refl
