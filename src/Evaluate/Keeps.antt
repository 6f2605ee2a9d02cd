-- ===== src/Evaluate/Keeps.antt =====
-- What a stage leaves alone, whether it ends well or raises.
use Prim.Native.String.{String}
use ooverlap.Prelude.{Bool, true, false, Option, some, List, [], ◌∷◌, ◌++◌, length, if◌then◌else◌}
use ooverlap.Prelude.Int.{ℤ}
use ooverlap.Prelude.Result.{Result, ok, err}
use ooverlap.Prelude.Outcome.{M, ◌>>=◌, return, lift, Ends, Ends-bind}
use ooverlap.Prelude.Dict.{insert}
use ooverlap.Evaluate.{Shape, MinGroupTrial, CommRunConfig, Backend, nccl, ooverlap_backend}
use ooverlap.Evaluate.Settings.{is_allowed}
use ooverlap.Evaluate.World.{
  Trial, Scenario, Command, profile, search, test, Outside, World, run_cmd, save_scenario,
  scenario_id,
}
use ooverlap.Evaluate.Stages.{
  summarize_solution, solution_ok, config_has_algos, has_algos, profile_anew, run_profile,
  solution_path, load_solution_summary, run_search_trial, try_trials, run_search_with_retries,
  run_test, started, with_test, finish_scenario, run_scenario,
}

module _ (o : Outside) (Q : List (String × Option Scenario) → Type 0) where
  -- The scenario files have the property `Q` afterwards if they had it before.
  abbrev pub Keeps : {A : Type 0} → M (World o) A → Type 0
  Keeps m = (w : World o) → Q w.files → Ends (λ a v. Q v.files) (λ v. Q v.files) (m w)

  pub bind-Keeps :
      {A B : Type 0} (m : M (World o) A) (rest : A → M (World o) B)
      → Keeps m
      → ((a : A) → Keeps (rest a))
      → Keeps (m >>= rest)
  bind-Keeps m rest p k w q =
      Ends-bind (λ a v. Q v.files) (λ b v. Q v.files) (λ v. Q v.files) m rest w (p w q)
        (λ a v q'. k a v q')

  pub lift-Keeps : {A : Type 0} (r : Result A) → Keeps (lift r)
  lift-Keeps (ok a) w q = q
  lift-Keeps (err e) w q = q

  pub if-Keeps :
      {A : Type 0} (b : Bool) (m n : M (World o) A) → Keeps m → Keeps n → Keeps (if b then m else n)
  if-Keeps true m n p p' = p
  if-Keeps false m n p p' = p'

  pub run_cmd-Keeps : (k : Command) → Keeps (run_cmd o k)
  unfolding run_cmd
  run_cmd-Keeps k w q = q

  module _ (devices : List ℤ) where
    has_algos-Keeps : (s : Shape) → Keeps (has_algos o devices s)
    unfolding has_algos
    has_algos-Keeps s w q =
        bind-Keeps (lift (o.algos s w.rest)) (λ algos. return (config_has_algos algos))
          (lift-Keeps (o.algos s w.rest)) (λ a v p. p) w q

    profile_anew-Keeps : (s : Shape) → Keeps (profile_anew o devices s)
    unfolding profile_anew
    profile_anew-Keeps s w q =
        if-Keeps (o.csv_exists s w.rest)
          (do
            code_ok ← run_cmd o (profile s)
            if code_ok then has_algos o devices s else return false)
          (return false)
          (bind-Keeps (run_cmd o (profile s))
            (λ code_ok. if code_ok then has_algos o devices s else return false)
            (run_cmd-Keeps (profile s))
            (λ code_ok.
              if-Keeps code_ok (has_algos o devices s) (return false) (has_algos-Keeps s)
                (λ v p. p)))
          (λ v p. p) w q

    pub run_profile-Keeps : (skip : Bool) (s : Shape) → Keeps (run_profile o devices skip s)
    unfolding run_profile
    run_profile-Keeps false s = profile_anew-Keeps s
    run_profile-Keeps true s =
        bind-Keeps (has_algos o devices s)
          (λ found. if found then return true else profile_anew o devices s) (has_algos-Keeps s)
          (λ found.
            if-Keeps found (return true) (profile_anew o devices s) (λ v p. p)
              (profile_anew-Keeps s))

    pub load-Keeps : (s : Shape) (b : Backend) → Keeps (load_solution_summary o devices s b)
    unfolding load_solution_summary
    load-Keeps s b w q =
        let json = o.solution_json (solution_path o devices s b w.rest) w.rest in
        bind-Keeps (lift json) (λ x. return (summarize_solution (length devices) x))
          (lift-Keeps json) (λ a v p. p) w q

    run_search_trial-Keeps :
        (s : Shape) (c : CommRunConfig) (t : MinGroupTrial)
        → Keeps (run_search_trial o devices s c t)
    unfolding run_search_trial
    run_search_trial-Keeps s c t =
        bind-Keeps (run_cmd o (search s c t)) _ (run_cmd-Keeps (search s c t)) λ code_ok.
          bind-Keeps (load_solution_summary o devices s nccl) _ (load-Keeps s nccl) λ a.
            bind-Keeps (load_solution_summary o devices s ooverlap_backend) _
              (load-Keeps s ooverlap_backend)
              λ b.
                bind-Keeps (lift (solution_ok a b c.comm_sm_slack)) _
                  (lift-Keeps (solution_ok a b c.comm_sm_slack)) λ suits v p. p

    try_trials-Keeps :
        (s : Shape) (c : CommRunConfig) (tried : List Trial) (trials : List MinGroupTrial)
        → Keeps (try_trials o devices s c tried trials)
    unfolding try_trials
    try_trials-Keeps s c tried [] = λ w q. q
    try_trials-Keeps s c tried (t ∷ ts) =
        if-Keeps (is_allowed s t) _ _
          (bind-Keeps (run_search_trial o devices s c t) _ (run_search_trial-Keeps s c t) λ found.
            if-Keeps found _ _ (λ v p. p)
              (try_trials-Keeps s c
                (tried ++ record { ok = found; skipped = false; trial = t } ∷ []) ts))
          (try_trials-Keeps s c (tried ++ record { ok = false; skipped = true; trial = t } ∷ []) ts)

    pub run_search_with_retries-Keeps :
        (trials : List MinGroupTrial) (s : Shape) (c : CommRunConfig)
        → Keeps (run_search_with_retries o devices trials s c)
    unfolding run_search_with_retries
    run_search_with_retries-Keeps trials s c = try_trials-Keeps s c [] trials

    pub run_test-Keeps : (s : Shape) (c : CommRunConfig) → Keeps (run_test o devices s c)
    unfolding run_test
    run_test-Keeps s c = run_cmd-Keeps (test s c)

    -- A scenario writes its own file only.
    pub run_scenario-Keeps :
        (trials : List MinGroupTrial) (s : Shape) (c : CommRunConfig)
        → ((files : List (String × Option Scenario)) (x : Scenario)
            → Q files
            → Q (insert (scenario_id o devices s c) (some x) files))
        → Keeps (run_scenario o devices trials s c)
    unfolding run_scenario finish_scenario save_scenario started with_test
    run_scenario-Keeps trials s c own w q =
        bind-Keeps (run_search_with_retries o devices trials s c) (finish_scenario o devices s c)
          (run_search_with_retries-Keeps trials s c)
          (λ found.
            if-Keeps found.ok _ _
              (bind-Keeps (load_solution_summary o devices s nccl) _ (load-Keeps s nccl) λ a.
                bind-Keeps (load_solution_summary o devices s ooverlap_backend) _
                  (load-Keeps s ooverlap_backend)
                  λ b v p.
                    bind-Keeps (run_test o devices s c) _ (run_test-Keeps s c)
                      (λ capped u p'. own u.files _ p')
                      (record v { files = insert (scenario_id o devices s c) (some _) v.files })
                      (own v.files _ p))
              (λ v p. own v.files _ p))
          (record w {
            files = insert (scenario_id o devices s c) (some (started o devices s c)) w.files;
          })
          (own w.files (started o devices s c) q)
