-- ===== src/Evaluate/World.antt =====
-- The state of an evaluation: the scenario files, the reports, the commands that were run, and the
-- rest of the machine, which only the commands change.
use Prim.Native.String.{String, ◌++◌}
use ooverlap.Prelude.{ℕ, Bool, Option, some, List, [], ◌∷◌, ◌++◌ as ◌++ᴸ◌, length}
use ooverlap.Prelude.Int.{ℤ, pos}
use ooverlap.Prelude.Result.{Result}
use ooverlap.Prelude.Outcome.{done, M}
use ooverlap.Prelude.Dict.{insert}
use ooverlap.Evaluate.{Shape, MinGroupTrial, CommRunConfig, Backend}

-- `status`, and any other text.
pub data Status : Type 0 where
  running succeeded failed other_status : Status

pub data Stage : Type 0 where
  profile_stage search_stage test_capped_stage : Stage

-- A trial of the search: whether it was skipped, and whether it succeeded.
pub record Trial : Type 0 where
  pub ok : Bool
  pub skipped : Bool
  pub trial : MinGroupTrial

pub record Search : Type 0 where
  pub ok : Bool
  pub selected : Option MinGroupTrial
  pub trials : List Trial

-- A scenario file, as far as the driver reads it: `none` is a key that is missing.
pub record Scenario : Type 0 where
  pub scenario_id : String
  pub m : ℕ
  pub n : ℕ
  pub k : ℕ
  pub world_size : Option ℤ
  pub comm_sm_slack : Option ℤ
  pub max_ctas_per_reduce_task : Option ℤ
  pub schema_version : Option ℕ
  pub status : Status
  pub failed_stage : Option Stage
  pub search : Option Search
  pub capped_ok : Option Bool
  pub profile_ok : Option Bool

-- `summarize`, with the scenarios that it is about.
pub record Report : Type 0 where
  pub scenario_count : ℕ
  pub ok_count : ℕ
  pub failed_count : ℕ
  pub failed_ids : List String
  pub scenarios : List Scenario

-- A command that a stage runs.
pub data Command : Type 0 where
  profile : Shape → Command
  search : Shape → CommRunConfig → MinGroupTrial → Command
  test : Shape → CommRunConfig → Command

-- The files that a search writes for a backend, by the parts of their names.
pub data SolutionFile : Type 0 where
  exact : Backend → Shape → (world_size : ℕ) → SolutionFile
  legacy : Backend → Shape → SolutionFile
  matched : Backend → Shape → (world_size : ℕ) → SolutionFile
  unknown_gpu : Backend → Shape → (world_size : ℕ) → SolutionFile

pub data CurveFile : Type 0 where
  nccl_curve : (world_size : ℕ) (slack : ℤ) → CurveFile
  ooverlap_curve : (world_size : ℕ) (slack reduce_ctas : ℤ) → CurveFile

-- The keys of a solution that are compared.
pub record Solution : Type 0 where
  pub world_size : Option ℤ
  pub comm_sm_slack : Option ℤ

-- What the driver finds outside. A command gives whether its return code is 0; reading a file may
-- raise, and gives `none` where it is missing, empty or no object. `matched` is the newest file that
-- the pattern of `solution_path` finds. No command writes in the folder of the scenarios.
pub record Outside : Type 1 where
  pub State : Type 0
  pub str : ℤ → String
  pub run : Command → State → Bool × State
  pub gpu_known : State → Bool
  pub csv_exists : Shape → State → Bool
  pub algos : Shape → State → Result (Option (Option ℕ))
  pub solution_exists : SolutionFile → State → Bool
  pub solution_json : SolutionFile → State → Result (Option Solution)
  pub is_curve : CurveFile → State → Bool

module _ (o : Outside) where
  -- Scenario files by their names without `.json`; `none` is a file that holds no object.
  pub record World : Type 0 where
    pub files : List (String × Option Scenario)
    pub partial_report : Option Report
    pub final_report : Option Report
    pub commands : List Command
    pub rest : o.State

  -- `run_cmd`
  unfoldable pub run_cmd : Command → M World Bool
  run_cmd c w =
      let (code_ok, rest) = o.run c w.rest in
      done code_ok (record w { commands = w.commands ++ᴸ c ∷ []; rest = rest })

  -- `save_scenario`: the file is replaced as a whole.
  unfoldable pub save_scenario : Scenario → M World (Unit {0})
  save_scenario s w = done tt (record w { files = insert s.scenario_id (some s) w.files })

  unfoldable pub shape_id : Shape → String
  shape_id s = "m" ++ o.str (pos s.m) ++ "n" ++ o.str (pos s.n) ++ "k" ++ o.str (pos s.k)

  -- `'-'.join(...)`
  unfoldable pub join_devices : List ℤ → String
  join_devices [] = ""
  join_devices (d ∷ []) = o.str d
  join_devices (d ∷ e ∷ ds) = o.str d ++ "-" ++ join_devices (e ∷ ds)

  unfoldable pub device_config_id : List ℤ → String
  device_config_id devices = "tp" ++ o.str (pos (length devices)) ++ "__dev" ++ join_devices devices

  unfoldable pub device_part : List ℤ → String
  device_part [] = "tp_unknown"
  device_part (d ∷ ds) = device_config_id (d ∷ ds)

  unfoldable pub scenario_id : List ℤ → Shape → CommRunConfig → String
  scenario_id devices s c =
      shape_id s
      ++ "__"
      ++ device_part devices
      ++ "__slack"
      ++ o.str c.comm_sm_slack
      ++ "__rcta"
      ++ o.str c.max_ctas_per_reduce_task
