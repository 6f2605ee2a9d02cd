-- ===== src/Evaluate/Resumed.antt =====
-- What an evaluation leaves alone of an earlier one.
use Prim.Native.String.{String}
use text.Mathlib.Text.{◌==◌ as str_eq}
use text.Mathlib.TextEquality.{eq_iff}
use ooverlap.Prelude.{
  ℕ, ◌≡◌, refl, sym, ◌∙◌, inl, inr, length, Bool, true, false, not, ◌&&◌, Option, some, List, [],
  ◌∷◌, Bool-cases, arith,
}
use ooverlap.Prelude.Int.{ℤ}
use mathlib.Core.Path.{subst}
use ooverlap.Prelude.Membership.{In}
use ooverlap.Prelude.Result.{Result, ok, err}
use ooverlap.Prelude.Outcome.{M, ◌>>=◌, lift, Ends, Ends-bind, Ends-weaken}
use ooverlap.Prelude.Dict.{lookup, values, lookup-insert, In-values}
use ooverlap.Prelude.Sorting.{In-sort_by}
use ooverlap.Evaluate.{Shape, CommRunConfig}
use ooverlap.Evaluate.Settings.{Tables, parse_devices, active_comm_run_configs}
use ooverlap.Evaluate.World.{Scenario, Report, Outside, World, scenario_id}
use ooverlap.Evaluate.Resume.{
  Scenarios, is_complete, load_existing_scenarios, keep_configured, sorted_scenarios, scenario_le,
  summarize, existing_scenario_is_ok,
}
use ooverlap.Evaluate.Run.{
  Args, is_kept, run_shapes, validate_bandwidth_curves, has_curves, exit_if_empty, select_shapes,
  finish, main,
}
use ooverlap.Evaluate.Loop.{Files, IsStable, run_shapes-Runs}

module _ (o : Outside) (t : Tables) (devices : List ℤ) (skip_profile : Bool) (sid : String)
    (x : Scenario) (done_before : is_complete x ≡ true) (file : Option (Option Scenario)) where
  -- A scenario that is run is another one.
  other_id :
      (d : Scenarios) (s : Shape) (c : CommRunConfig)
      → lookup sid d ≡ some x
      → is_kept o t devices true skip_profile d s c ≡ false
      → str_eq (scenario_id o devices s c) sid ≡ false
  unfolding is_kept existing_scenario_is_ok
  other_id d s c held run_it = elim (Bool-cases (str_eq (scenario_id o devices s c) sid)) [
    | inr other ↦ other
    | inl same ↦
        let e = (eq_iff (scenario_id o devices s c) sid).0 same in
        let found : lookup (scenario_id o devices s c) d ≡ some x = rw e held in
        absurd (ground (arith, run_it, found, done_before))
  ]

  abbrev Held : Scenarios → Files o t devices true skip_profile → Type 0
  Held d files = (lookup sid d ≡ some x) × (lookup sid files ≡ file)

  Held-IsStable : IsStable o t devices true skip_profile Held
  Held-IsStable = record {
    file = λ d files s c y run_it h.
        let other = other_id d s c h.0 run_it in
        (h.0, lookup-insert (scenario_id o devices s c) sid (some y) files ∙ rw other h.1);
    entry = λ d files s c y run_it named h.
        let other = other_id d s c h.0 run_it in
        (lookup-insert (scenario_id o devices s c) sid y d ∙ rw other h.0, h.1);
  }

  pub run_shapes-Held :
      (ss : List Shape) (cs : List CommRunConfig) (d : Scenarios) (w : World o)
      → lookup sid d ≡ some x
      → lookup sid w.files ≡ file
      → Ends
          (λ d' v. (lookup sid d' ≡ some x) × (lookup sid v.files ≡ file))
          (λ v. lookup sid v.files ≡ file)
          (run_shapes o t devices true skip_profile ss cs d w)
  run_shapes-Held ss cs d w held filed =
      Ends-weaken (λ d' v. Held d' v.files) (λ d' v. Held d' v.files)
        (λ v. (d' : Scenarios) × Held d' v.files) (λ v. lookup sid v.files ≡ file)
        (run_shapes o t devices true skip_profile ss cs d w) (λ d' v p. p) (λ v p. p.1.1)
        (run_shapes-Runs o t devices true skip_profile Held Held-IsStable ss cs d w (held, filed))

module _ (o : Outside) (t : Tables) (parse : String → Option ℤ) (args : Args) where
  -- Parts of `main` that only look at the machine.
  Same-bind :
      {A : Type 0} (R : ℕ → World o → Type 0) (Q : World o → Type 0) (m : M (World o) A)
      (rest : A → M (World o) ℕ) (w : World o)
      → Ends (λ a v. w ≡ v) (λ v. w ≡ v) (m w)
      → Q w
      → ((a : A) → Ends R Q (rest a w))
      → Ends R Q ((m >>= rest) w)
  Same-bind R Q m rest w h q k =
      Ends-bind (λ a v. w ≡ v) R Q m rest w
        (Ends-weaken (λ a v. w ≡ v) (λ a v. w ≡ v) (λ v. w ≡ v) Q (m w) (λ a v e. e)
          (λ v e. subst Q e q) h)
        (λ a v e. subst (λ u. Ends R Q (rest a u)) e (k a))

  lift_same :
      {A : Type 0} (r : Result A) (w : World o) → Ends (λ a v. w ≡ v) (λ v. w ≡ v) (lift r w)
  lift_same (ok a) w = refl
  lift_same (err e) w = refl

  validate_same :
      (n : ℕ) (cs : List CommRunConfig) (w : World o)
      → Ends (λ a v. w ≡ v) (λ v. w ≡ v) (validate_bandwidth_curves o n cs w)
  unfolding validate_bandwidth_curves
  validate_same n cs w = elim (Bool-cases (has_curves o w.rest n cs)) [
    | inl all ↦ rw (validate_bandwidth_curves, all) refl
    | inr some_missing ↦ rw (validate_bandwidth_curves, some_missing) refl
  ]

  exit_same :
      (ss : List Shape) (w : World o) → Ends (λ a v. w ≡ v) (λ v. w ≡ v) (exit_if_empty o ss w)
  unfolding exit_if_empty
  exit_same [] w = refl
  exit_same (s ∷ ss) w = refl

  -- Where complete scenarios are skipped by the settings and `--rerun-existing-scenarios` is not given, a
  -- scenario of the files that is complete, and whose number of devices and communication configuration are
  -- among the configured ones, is in the final report as it was loaded, and its file is what it was, also
  -- where the evaluation raises.
  pub main-keeps :
      (sid : String) (x : Scenario) (w : World o)
      → t.skip_existing_ok_scenarios ≡ true
      → args.rerun_existing_scenarios ≡ false
      → lookup sid (keep_configured t (load_existing_scenarios w.files)) ≡ some x
      → is_complete x ≡ true
      → Ends
          (λ code v.
            (lookup sid v.files ≡ lookup sid w.files)
            × (report : Report) × (v.final_report ≡ some report)
            × In x report.scenarios)
          (λ v. lookup sid v.files ≡ lookup sid w.files)
          (main o t parse args w)
  unfolding main finish summarize sorted_scenarios
  main-keeps sid x w skip resume held complete =
      let R : ℕ → World o → Type 0 = λ code v.
        (lookup sid v.files ≡ lookup sid w.files)
        × (report : Report) × (v.final_report ≡ some report)
        × In x report.scenarios in
      let Q : World o → Type 0 = λ v. lookup sid v.files ≡ lookup sid w.files in
      Same-bind R Q (lift (parse_devices parse args.devices)) _ w
        (lift_same (parse_devices parse args.devices) w) refl
        λ devices.
          Same-bind R Q (lift (active_comm_run_configs t (length devices))) _ w
            (lift_same (active_comm_run_configs t (length devices)) w) refl
            λ configs.
              Same-bind R Q (validate_bandwidth_curves o (length devices) configs) _ w
                (validate_same (length devices) configs w) refl
                λ valid.
                  Same-bind R Q (exit_if_empty o t.shapes) _ w (exit_same t.shapes w) refl
                    λ some_shapes.
                      Same-bind R Q (exit_if_empty o (select_shapes o t args.only_shape)) _ w
                        (exit_same (select_shapes o t args.only_shape) w) refl
                        λ some_selected.
                          let d = keep_configured t (load_existing_scenarios w.files) in
                          let shapes = select_shapes o t args.only_shape in
                          let P : Scenarios → World o → Type 0 = λ d' v.
                            (lookup sid d' ≡ some x) × (lookup sid v.files ≡ lookup sid w.files) in
                          let skips : (t.skip_existing_ok_scenarios
                                && not args.rerun_existing_scenarios)
                              ≡ true =
                            rw (skip, resume) refl in
                          Ends-bind P R Q
                            (run_shapes o t devices
                              (t.skip_existing_ok_scenarios && not args.rerun_existing_scenarios)
                              args.skip_existing_profile shapes configs d)
                            (finish o) w
                            (subst
                              (λ b. Ends P Q (
                                run_shapes o t devices b args.skip_existing_profile shapes configs d
                                  w))
                              (sym skips)
                              (run_shapes-Held o t devices args.skip_existing_profile sid x complete
                                (lookup sid w.files) shapes configs d w held refl))
                            λ d' v p. (
                              p.1,
                              summarize (sorted_scenarios d'),
                              refl,
                              In-sort_by scenario_le (values d') (In-values sid d' p.0),
                            )
