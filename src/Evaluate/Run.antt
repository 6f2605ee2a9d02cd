-- ===== src/Evaluate/Run.antt =====
-- `main`: the loop over the shapes and their communication configurations.
use Prim.Native.String.{String}
use text.Mathlib.Text.{◌==◌ as str_eq}
use ooverlap.Prelude.{
  ℕ, Bool, true, false, not, ◌&&◌, Option, none, some, List, [], ◌∷◌, length, filter, ◌==◌,
  if◌then◌else◌,
}
use ooverlap.Prelude.Int.{ℤ}
use ooverlap.Prelude.Result.{system_exit}
use ooverlap.Prelude.Outcome.{done, M, ◌>>=◌, return, throw, lift}
use ooverlap.Prelude.Dict.{insert}
use ooverlap.Evaluate.{Shape, CommRunConfig}
use ooverlap.Evaluate.Settings.{Tables, parse_devices, active_comm_run_configs}
use ooverlap.Evaluate.World.{
  failed, profile_stage, Scenario, CurveFile, nccl_curve, ooverlap_curve, Outside, World,
  save_scenario, shape_id, scenario_id,
}
use ooverlap.Evaluate.Stages.{run_profile, started, run_scenario}
use ooverlap.Evaluate.Resume.{
  Scenarios, load_existing_scenarios, keep_configured, existing_scenario_is_ok, sorted_scenarios,
  summarize,
}

-- The command line, with the ids of `--devices` at its commas.
pub record Args : Type 0 where
  pub skip_existing_profile : Bool
  pub rerun_existing_scenarios : Bool
  pub devices : List String
  pub only_shape : String

module _ (o : Outside) where
  -- `bandwidth_curve_path`, for two devices and more.
  unfoldable pub curve_files : (world_size : ℕ) → CommRunConfig → List CurveFile
  curve_files world_size c =
      nccl_curve world_size c.comm_sm_slack
      ∷ ooverlap_curve world_size c.comm_sm_slack c.max_ctas_per_reduce_task
      ∷ []

  unfoldable pub all_curves : o.State → List CurveFile → Bool
  all_curves rest [] = true
  all_curves rest (p ∷ ps) = o.is_curve p rest && all_curves rest ps

  unfoldable pub has_curves : o.State → (world_size : ℕ) → List CommRunConfig → Bool
  has_curves rest world_size [] = true
  has_curves rest world_size (c ∷ cs) =
      all_curves rest (curve_files world_size c) && has_curves rest world_size cs

  -- `validate_bandwidth_curves`
  unfoldable pub validate_bandwidth_curves :
      (world_size : ℕ) → List CommRunConfig → M (World o) (Unit {0})
  validate_bandwidth_curves world_size configs w =
      if has_curves w.rest world_size configs then return tt w else throw system_exit w

  unfoldable pub write_partial : Scenarios → M (World o) (Unit {0})
  write_partial d w = done tt (record w { partial_report = some (summarize (sorted_scenarios d)) })

  -- The last lines: the report, and the exit code.
  unfoldable pub finish : Scenarios → M (World o) ℕ
  finish d w =
      let report = summarize (sorted_scenarios d) in
      done (if report.failed_count == 0 then 0 else 1) (record w { final_report = some report })

  module _ (t : Tables) (devices : List ℤ) (skip_existing skip_existing_profile : Bool) where
    -- `skip_existing_scenarios and existing_scenario_is_ok(...)`
    unfoldable pub is_kept : Scenarios → Shape → CommRunConfig → Bool
    is_kept d s c = skip_existing && existing_scenario_is_ok d (scenario_id o devices s c)

    unfoldable pub all_ok : Scenarios → Shape → List CommRunConfig → Bool
    all_ok d s [] = true
    all_ok d s (c ∷ cs) = existing_scenario_is_ok d (scenario_id o devices s c) && all_ok d s cs

    -- A scenario that failed with its profile, which has no schema version.
    unfoldable pub profile_failure : Shape → CommRunConfig → Scenario
    profile_failure s c = record (started o devices s c) {
      status = failed;
      failed_stage = some profile_stage;
      schema_version = none;
      profile_ok = some false;
    }

    unfoldable pub fail_configs : Shape → List CommRunConfig → Scenarios → M (World o) Scenarios
    fail_configs s [] d = return d
    fail_configs s (c ∷ cs) d = if is_kept d s c then fail_configs s cs d else (do
      let scenario = profile_failure s c
      saved ← save_scenario o scenario
      fail_configs s cs (insert (scenario_id o devices s c) scenario d))

    unfoldable pub run_configs : Shape → List CommRunConfig → Scenarios → M (World o) Scenarios
    run_configs s [] d = return d
    run_configs s (c ∷ cs) d =
        if is_kept d s c then (do written ← write_partial d; run_configs s cs d) else (do
          ended ← run_scenario o devices t.trials s c
          let scenario = record ended { profile_ok = some true }
          let d' = insert (scenario_id o devices s c) scenario d
          saved ← save_scenario o scenario
          written ← write_partial d'
          run_configs s cs d')

    unfoldable pub run_shape : Shape → List CommRunConfig → Scenarios → M (World o) Scenarios
    run_shape s configs d =
        if skip_existing && all_ok d s configs
        then (do written ← write_partial d; return d)
        else (do
          profiled ← run_profile o devices skip_existing_profile s
          if profiled
              then run_configs s configs d
              else (do d' ← fail_configs s configs d; written ← write_partial d'; return d'))

    unfoldable pub run_shapes : List Shape → List CommRunConfig → Scenarios → M (World o) Scenarios
    run_shapes [] configs d = return d
    run_shapes (s ∷ ss) configs d = do d' ← run_shape s configs d; run_shapes ss configs d'

  unfoldable pub select_shapes : Tables → (only_shape : String) → List Shape
  select_shapes t only_shape =
      if str_eq only_shape ""
      then t.shapes
      else filter (λ s. str_eq (shape_id o s) only_shape) t.shapes

  unfoldable pub exit_if_empty : List Shape → M (World o) (Unit {0})
  exit_if_empty [] = throw system_exit
  exit_if_empty (s ∷ ss) = return tt

  -- `main`; `parse` stands for Python's `int` on a text.
  unfoldable pub main : Tables → (parse : String → Option ℤ) → Args → M (World o) ℕ
  main t parse args = do
    devices ← lift (parse_devices parse args.devices)
    configs ← lift (active_comm_run_configs t (length devices))
    valid ← validate_bandwidth_curves (length devices) configs
    some_shapes ← exit_if_empty t.shapes
    d ← λ w. done (keep_configured t (load_existing_scenarios w.files)) w
    let shapes = select_shapes t args.only_shape
    some_selected ← exit_if_empty shapes
    let skip_existing = t.skip_existing_ok_scenarios && not args.rerun_existing_scenarios
    d' ← run_shapes t devices skip_existing args.skip_existing_profile shapes configs d
    finish d'
