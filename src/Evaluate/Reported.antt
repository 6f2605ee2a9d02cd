-- ===== src/Evaluate/Reported.antt =====
-- What the final report of an evaluation holds, and the exit code.
use Prim.Native.String.{String}
use mathlib.Core.Path.{subst}
use ooverlap.Prelude.{
  ℕ, ◌+◌, ◌≡◌, refl, sym, ap, ◌⊎◌, inl, inr, true, false, not, ◌&&◌, Option, some, List, [], length,
  filter, ◌==◌, if◌then◌else◌, arith,
}
use ooverlap.Prelude.Int.{ℤ}
use ooverlap.Prelude.Membership.{In}
use ooverlap.Prelude.Result.{ok}
use ooverlap.Prelude.Outcome.{done, lift, Ends-done, >>=-eq-done, done_injective, lift-done}
use ooverlap.Prelude.Dict.{lookup, values, In-values}
use ooverlap.Prelude.Sorting.{In-sort_by}
use ooverlap.Evaluate.{Shape, CommRunConfig}
use ooverlap.Evaluate.Settings.{Tables, parse_devices, active_comm_run_configs}
use ooverlap.Evaluate.World.{Scenario, Report, Outside, World, scenario_id}
use ooverlap.Evaluate.Resume.{
  Scenarios, load_existing_scenarios, keep_configured, is_succeeded, scenario_le, sorted_scenarios,
  summarize,
}
use ooverlap.Evaluate.Run.{
  Args, run_shapes, validate_bandwidth_curves, exit_if_empty, select_shapes, finish, main,
}
use ooverlap.Evaluate.Keyed.{
  IsKeyed, lookup-IsKeyed, load_files-IsKeyed, keep_configured-IsKeyed, filter_parts, filter_cases,
}
use ooverlap.Evaluate.Complete.{IsKeyed-IsStable, run_shapes-HasAll}
use ooverlap.Evaluate.Loop.{run_shapes-Runs}

-- The two counts of a report, and its exit code.
pub record IsSummary (report : Report) (code : ℕ) : Type 0 where
  pub counts : report.ok_count + report.failed_count ≡ report.scenario_count
  pub size : report.scenario_count ≡ length report.scenarios
  pub exit_code :
      ((code ≡ 0) × ((x : Scenario) → In x report.scenarios → is_succeeded x.status ≡ true))
      ⊎ ((x : Scenario) × (code ≡ 1) × In x report.scenarios × (is_succeeded x.status ≡ false))

summarize-IsSummary :
    (xs : List Scenario)
    → IsSummary (summarize xs) (if (summarize xs).failed_count == 0 then 0 else 1)
unfolding summarize
summarize-IsSummary xs =
    let failures = filter (λ (s : Scenario). not (is_succeeded s.status)) xs in
    record {
      counts = filter_parts (λ (s : Scenario). is_succeeded s.status) xs;
      size = refl;
      exit_code = elim (filter_cases (λ (s : Scenario). is_succeeded s.status) xs) [
        | inl (e, all) ↦ inl (ground (arith, e), all)
        | inr (x, lt, m, bad) ↦ inr (x, ground (arith, lt), m, bad)
      ];
    }

module _ (o : Outside) (t : Tables) (parse : String → Option ℤ) (args : Args) where
  -- The report of an evaluation: it has the result of each selected shape with each configuration.
  pub record IsReported (w : World o) (code : ℕ) : Type 0 where
    pub devices : List ℤ
    pub configs : List CommRunConfig
    pub report : Report
    pub parsed : parse_devices parse args.devices ≡ ok devices
    pub active : active_comm_run_configs t (length devices) ≡ ok configs
    pub written : w.final_report ≡ some report
    pub summary : IsSummary report code
    pub results :
        (s : Shape) (c : CommRunConfig)
        → In s (select_shapes o t args.only_shape)
        → In c configs
        → (y : Scenario) × In y report.scenarios × (y.scenario_id ≡ scenario_id o devices s c)

  finish-IsReported :
      (devices : List ℤ) (configs : List CommRunConfig) (d : Scenarios) (v : World o) {w : World o}
      {code : ℕ}
      → parse_devices parse args.devices ≡ ok devices
      → active_comm_run_configs t (length devices) ≡ ok configs
      → finish o d v ≡ done code w
      → IsKeyed d
      → ((s : Shape) (c : CommRunConfig)
          → In s (select_shapes o t args.only_shape)
          → In c configs
          → (y : Scenario) × (lookup (scenario_id o devices s c) d ≡ some y))
      → IsReported w code
  unfolding finish sorted_scenarios
  finish-IsReported devices configs d v parsed active h keyed all =
      let (result, same) = done_injective h in
      record {
        devices = devices;
        configs = configs;
        report = summarize (sorted_scenarios d);
        parsed = parsed;
        active = active;
        written = ap (λ (u : World o). u.final_report) (sym same);
        summary =
            subst (IsSummary (summarize (sorted_scenarios d))) result
              (summarize-IsSummary (sorted_scenarios d));
        results = λ s c m n.
            let (y, held) = all s c m n in
            (
              y,
              unfold summarize in
                  In-sort_by scenario_le (values d) (In-values (scenario_id o devices s c) d held),
              lookup-IsKeyed (scenario_id o devices s c) d keyed held,
            );
      }

  -- An evaluation that does not raise writes a final report with a scenario for each selected shape
  -- and each communication configuration of its devices, under their id; the two counts add up; and
  -- it exits with 0 exactly if every scenario of the report succeeded.
  pub main-IsReported :
      (w : World o) {code : ℕ} {w' : World o}
      → main o t parse args w ≡ done code w'
      → IsReported w' code
  unfolding main load_existing_scenarios
  main-IsReported w h =
      let (devices, w₁, p, h₁) = >>=-eq-done (lift (parse_devices parse args.devices)) _ w h in
      let (configs, w₂, q, h₂) =
        >>=-eq-done (lift (active_comm_run_configs t (length devices))) _ w₁ h₁ in
      let (valid, w₃, checked, h₃) =
        >>=-eq-done (validate_bandwidth_curves o (length devices) configs) _ w₂ h₂ in
      let (some_shapes, w₄, filled, h₄) = >>=-eq-done (exit_if_empty o t.shapes) _ w₃ h₃ in
      let d = keep_configured t (load_existing_scenarios w₄.files) in
      let (some_selected, w₅, selected, h₅) =
        >>=-eq-done (exit_if_empty o (select_shapes o t args.only_shape)) _ w₄ h₄ in
      let skip = t.skip_existing_ok_scenarios && not args.rerun_existing_scenarios in
      let shapes = select_shapes o t args.only_shape in
      let (d', w₆, ran, h₆) =
        >>=-eq-done (run_shapes o t devices skip args.skip_existing_profile shapes configs d) _ w₅
          h₅ in
      let keyed : IsKeyed d = keep_configured-IsKeyed t _ (load_files-IsKeyed [] _ tt) in
      let keyed' : IsKeyed d' =
        Ends-done (λ e v. IsKeyed e) (λ v. (e : Scenarios) × IsKeyed e)
          (run_shapes o t devices skip args.skip_existing_profile shapes configs d w₅)
          (run_shapes-Runs o t devices skip args.skip_existing_profile (λ e files. IsKeyed e)
            (IsKeyed-IsStable o t devices skip args.skip_existing_profile) shapes configs d w₅
            keyed)
          ran in
      finish-IsReported devices configs d' w₆ (lift-done (parse_devices parse args.devices) p).0
        (lift-done (active_comm_run_configs t (length devices)) q).0 h₆ keyed'
        λ s c m n.
          run_shapes-HasAll o t devices skip args.skip_existing_profile shapes configs d w₅ ran s m
            c n
