-- ===== src/Evaluate/Loop.antt =====
-- The rule for the loops of `main`: what every scenario that is run keeps, the whole run keeps.
use Prim.Native.String.{String}
use ooverlap.Prelude.{
  ◌≡◌, refl, sym, inl, inr, Bool, true, false, ◌&&◌, Option, some, List, [], ◌∷◌, Bool-cases,
}
use mathlib.Core.Path.{subst}
use ooverlap.Prelude.Int.{ℤ}
use ooverlap.Prelude.Outcome.{M, Ends, Ends-bind, Ends-if, Ends-and, Ends-weaken}
use ooverlap.Prelude.Dict.{insert}
use ooverlap.Evaluate.{Shape, CommRunConfig}
use ooverlap.Evaluate.Settings.{Tables}
use ooverlap.Evaluate.World.{Scenario, Outside, World, save_scenario, scenario_id}
use ooverlap.Evaluate.Stages.{run_profile, started, run_scenario}
use ooverlap.Evaluate.Resume.{Scenarios}
use ooverlap.Evaluate.Run.{
  write_partial, is_kept, all_ok, profile_failure, fail_configs, run_configs, run_shape, run_shapes,
}
use ooverlap.Evaluate.Keeps.{run_profile-Keeps, run_scenario-Keeps}
use ooverlap.Evaluate.Interrupted.{IsUnfinished, IsSaved, run_scenario-IsSaved}

module _ (o : Outside) (t : Tables) (devices : List ℤ) (skip skip_profile : Bool) where
  abbrev pub Files : Type 0
  Files = List (String × Option Scenario)

  -- A property of the scenarios in memory and of the files that a scenario which is run keeps, when
  -- its file is written and when it is entered under its id.
  pub record IsStable (R : Scenarios → Files → Type 0) : Type 0 where
    pub file :
        (d : Scenarios) (files : Files) (s : Shape) (c : CommRunConfig) (x : Scenario)
        → is_kept o t devices skip skip_profile d s c ≡ false
        → R d files
        → R d (insert (scenario_id o devices s c) (some x) files)
    pub entry :
        (d : Scenarios) (files : Files) (s : Shape) (c : CommRunConfig) (x : Scenario)
        → is_kept o t devices skip skip_profile d s c ≡ false
        → x.scenario_id ≡ scenario_id o devices s c
        → R d files
        → R (insert (scenario_id o devices s c) x d) files

  module _ (R : Scenarios → Files → Type 0) (stable : IsStable R) where
    -- `R` at both ends; where a stage raises, of the scenarios that were in memory.
    abbrev pub Runs : Scenarios → M (World o) Scenarios → Type 0
    Runs d m =
        (w : World o)
        → R d w.files
        → Ends (λ d' v. R d' v.files) (λ v. (d' : Scenarios) × R d' v.files) (m w)

    run_one :
        (s : Shape) (c : CommRunConfig) (d : Scenarios) (w : World o)
        → is_kept o t devices skip skip_profile d s c ≡ false
        → R d w.files
        → Ends
            (λ y v. R d v.files × IsSaved o devices s c y v)
            (λ v. R d v.files × IsUnfinished o devices s c v.files)
            (run_scenario o devices t.trials s c w)
    run_one s c d w run_it r =
        Ends-and (λ y v. R d v.files) (IsSaved o devices s c) (λ v. R d v.files)
          (λ v. IsUnfinished o devices s c v.files) (run_scenario o devices t.trials s c w)
          (run_scenario-Keeps o (R d) devices t.trials s c
            (λ files x r'. stable.file d files s c x run_it r') w r)
          (run_scenario-IsSaved o devices s c t.trials w)

    pub run_configs-Runs :
        (s : Shape) (cs : List CommRunConfig) (d : Scenarios)
        → Runs d (run_configs o t devices skip skip_profile s cs d)
    unfolding run_configs write_partial save_scenario
    run_configs-Runs s [] d = λ w r. r
    run_configs-Runs s (c ∷ cs) d = λ w r.
        elim (Bool-cases (is_kept o t devices skip skip_profile d s c)) [
          | inl kept ↦ rw (run_configs, kept) (run_configs-Runs s cs d _ r)
          | inr run_it ↦
              rw (run_configs, run_it)
                (Ends-bind (λ y v. R d v.files × IsSaved o devices s c y v) (λ d' v. R d' v.files)
                  (λ v. (d' : Scenarios) × R d' v.files) (run_scenario o devices t.trials s c) _ w
                  (Ends-weaken (λ y v. R d v.files × IsSaved o devices s c y v)
                    (λ y v. R d v.files × IsSaved o devices s c y v)
                    (λ v. R d v.files × IsUnfinished o devices s c v.files)
                    (λ v. (d' : Scenarios) × R d' v.files) (run_scenario o devices t.trials s c w)
                    (λ y v p. p) (λ v p. (d, p.0)) (run_one s c d w run_it r))
                  λ y v p.
                    let x = record y { profile_ok = some true } in
                    let files = insert y.scenario_id (some x) v.files in
                    let written : R d files =
                      subst (λ k. R d (insert k (some x) v.files)) (sym p.1.named)
                        (stable.file d v.files s c x run_it p.0) in
                    run_configs-Runs s cs (insert (scenario_id o devices s c) x d) _
                      (stable.entry d files s c x run_it p.1.named written))
        ]

    pub fail_configs-Runs :
        (s : Shape) (cs : List CommRunConfig) (d : Scenarios)
        → Runs d (fail_configs o t devices skip skip_profile s cs d)
    unfolding fail_configs save_scenario profile_failure started
    fail_configs-Runs s [] d = λ w r. r
    fail_configs-Runs s (c ∷ cs) d = λ w r.
        elim (Bool-cases (is_kept o t devices skip skip_profile d s c)) [
          | inl kept ↦ rw (fail_configs, kept) (fail_configs-Runs s cs d w r)
          | inr run_it ↦
              rw (fail_configs, run_it)
                (let x = profile_failure o t devices skip skip_profile s c in
                  let files = insert (scenario_id o devices s c) (some x) w.files in
                  fail_configs-Runs s cs (insert (scenario_id o devices s c) x d)
                    (record w { files = files })
                    (stable.entry d files s c x run_it refl (stable.file d w.files s c x run_it r)))
        ]

    pub run_shape-Runs :
        (s : Shape) (cs : List CommRunConfig) (d : Scenarios)
        → Runs d (run_shape o t devices skip skip_profile s cs d)
    unfolding run_shape write_partial
    run_shape-Runs s cs d = λ w r.
        Ends-if (λ d' v. R d' v.files) (λ v. (d' : Scenarios) × R d' v.files)
          (skip && all_ok o t devices skip skip_profile d s cs) _ _ w r
          (Ends-bind (λ profiled v. R d v.files) (λ d' v. R d' v.files)
            (λ v. (d' : Scenarios) × R d' v.files) (run_profile o devices skip_profile s) _ w
            (Ends-weaken (λ profiled v. R d v.files) (λ profiled v. R d v.files) (λ v. R d v.files)
              (λ v. (d' : Scenarios) × R d' v.files) (run_profile o devices skip_profile s w)
              (λ b v p. p) (λ v p. (d, p)) (run_profile-Keeps o (R d) devices skip_profile s w r))
            λ profiled v p.
              Ends-if (λ d' v. R d' v.files) (λ v. (d' : Scenarios) × R d' v.files) profiled _ _ v
                (run_configs-Runs s cs d v p)
                (Ends-bind (λ d' u. R d' u.files) (λ d' u. R d' u.files)
                  (λ u. (d' : Scenarios) × R d' u.files)
                  (fail_configs o t devices skip skip_profile s cs d) _ v
                  (fail_configs-Runs s cs d v p) (λ d' u q. q)))

    pub run_shapes-Runs :
        (ss : List Shape) (cs : List CommRunConfig) (d : Scenarios)
        → Runs d (run_shapes o t devices skip skip_profile ss cs d)
    unfolding run_shapes
    run_shapes-Runs [] cs d = λ w r. r
    run_shapes-Runs (s ∷ ss) cs d = λ w r.
        Ends-bind (λ d' v. R d' v.files) (λ d' v. R d' v.files)
          (λ v. (d' : Scenarios) × R d' v.files) (run_shape o t devices skip skip_profile s cs d) _
          w (run_shape-Runs s cs d w r) (λ d' v p. run_shapes-Runs ss cs d' v p)
