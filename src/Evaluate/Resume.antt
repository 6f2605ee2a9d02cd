-- ===== src/Evaluate/Resume.antt =====
-- What an evaluation takes over from the files of an earlier one, and its reports.
use Prim.Native.String.{String, ◌++◌, compare}
use text.Mathlib.Text.{◌==◌ as str_eq, is_le}
use ooverlap.Prelude.{
  ℕ, Bool, true, false, not, ◌&&◌, Option, none, some, List, [], ◌∷◌, map, length, filter, ltb,
  ◌==◌, if◌then◌else◌,
}
use ooverlap.Prelude.Int.{ℤ, pos, negsuc, int_eq}
use ooverlap.Prelude.Dict.{lookup, insert, values}
use ooverlap.Prelude.Sorting.{sort_by}
use ooverlap.Evaluate.{CommRunConfig}
use ooverlap.Evaluate.Settings.{Tables, has_config}
use ooverlap.Evaluate.World.{Status, succeeded, Scenario, Report}
use ooverlap.Evaluate.Stages.{evaluation_schema_version}

abbrev pub Scenarios : Type 0
Scenarios = List (String × Scenario)

unfoldable pub name_le : String × Option Scenario → String × Option Scenario → Bool
name_le (a, x) (b, y) = is_le (compare (a ++ ".json") (b ++ ".json"))

-- A file without an id goes by its name.
unfoldable pub with_id : (name : String) → Scenario → Scenario
with_id name s = if str_eq s.scenario_id "" then record s { scenario_id = name } else s

unfoldable pub load_files : Scenarios → List (String × Option Scenario) → Scenarios
load_files out [] = out
load_files out ((name, none) ∷ files) = load_files out files
load_files out ((name, some data_of_file) ∷ files) =
    let s = with_id name data_of_file in load_files (insert s.scenario_id s out) files

-- `load_existing_scenarios`
unfoldable pub load_existing_scenarios : List (String × Option Scenario) → Scenarios
load_existing_scenarios files = load_files [] (sort_by name_le files)

unfoldable pub configured : Tables → ℤ → List CommRunConfig
configured t (pos world_size) = t.configs_by_tp world_size
configured t (negsuc n) = []

-- `scenario_uses_configured_comm_run_config`: a key that is missing is a `TypeError`, caught there.
unfoldable pub uses_configured_comm_run_config : Tables → Scenario → Bool
uses_configured_comm_run_config t s = elim s.world_size [
  | none ↦ false
  | some world_size ↦ elim s.comm_sm_slack [
    | none ↦ false
    | some slack ↦ elim s.max_ctas_per_reduce_task [
      | none ↦ false
      | some ctas ↦
          has_config (record { comm_sm_slack = slack; max_ctas_per_reduce_task = ctas })
            (configured t world_size)
    ]
  ]
]

unfoldable pub keep_configured : Tables → Scenarios → Scenarios
keep_configured t [] = []
keep_configured t ((sid, s) ∷ d) =
    let rest = keep_configured t d in
    if uses_configured_comm_run_config t s then (sid, s) ∷ rest else rest

unfoldable pub is_succeeded : Status → Bool
is_succeeded succeeded = true
is_succeeded _ = false

unfoldable pub is_version : Option ℕ → Bool
is_version none = false
is_version (some n) = n == evaluation_schema_version

unfoldable pub is_true : Option Bool → Bool
is_true none = false
is_true (some b) = b

-- The tests of `existing_scenario_is_ok` on the scenario that it finds.
unfoldable pub is_complete : Scenario → Bool
is_complete s = is_succeeded s.status && is_version s.schema_version && is_true s.capped_ok

unfoldable pub existing_scenario_is_ok : Scenarios → String → Bool
existing_scenario_is_ok d sid = elim (lookup sid d) [ none ↦ false | some s ↦ is_complete s ]

-- `int(row.get(key, 0) or 0)`
unfoldable pub or_zero : Option ℤ → ℤ
or_zero none = pos 0
or_zero (some n) = n

unfoldable pub int_lt : ℤ → ℤ → Bool
int_lt (pos a) (pos b) = ltb a b
int_lt (pos a) (negsuc b) = false
int_lt (negsuc a) (pos b) = true
int_lt (negsuc a) (negsuc b) = ltb b a

-- Tuples of the five numbers and the id are compared from the left.
unfoldable pub key_le : List ℤ → String → List ℤ → String → Bool
key_le (a ∷ as') x (b ∷ bs) y =
    let rest = key_le as' x bs y in if int_lt a b then true else if int_eq a b then rest else false
key_le _ x _ y = is_le (compare x y)

unfoldable pub scenario_numbers : Scenario → List ℤ
scenario_numbers s =
    pos s.m ∷ pos s.n ∷ pos s.k ∷ or_zero s.comm_sm_slack ∷ or_zero s.max_ctas_per_reduce_task ∷ []

unfoldable pub scenario_le : Scenario → Scenario → Bool
scenario_le a b = key_le (scenario_numbers a) a.scenario_id (scenario_numbers b) b.scenario_id

unfoldable pub sorted_scenarios : Scenarios → List Scenario
sorted_scenarios d = sort_by scenario_le (values d)

unfoldable pub summarize : List Scenario → Report
summarize results =
    let failures = filter (λ (s : Scenario). not (is_succeeded s.status)) results in
    record {
      scenario_count = length results;
      ok_count = length (filter (λ (s : Scenario). is_succeeded s.status) results);
      failed_count = length failures;
      failed_ids = map (λ (s : Scenario). s.scenario_id) failures;
      scenarios = results;
    }
