-- ===== src/Evaluate/Interrupted.antt =====
-- The file of a scenario while it runs, and when it ends.
use Prim.Native.String.{String}
use ooverlap.Prelude.{◌≡◌, refl, ap, ◌∙◌, ◌≢◌, Bool, true, false, Option, some, List}
use ooverlap.Prelude.Int.{ℤ}
use ooverlap.Prelude.Outcome.{Ends, Ends-bind, Ends-if}
use ooverlap.Prelude.Dict.{lookup, insert, lookup-insert_self}
use ooverlap.Evaluate.{Shape, MinGroupTrial, CommRunConfig, nccl, ooverlap_backend}
use ooverlap.Evaluate.World.{running, Search, Scenario, Outside, World, save_scenario, scenario_id}
use ooverlap.Evaluate.Stages.{
  load_solution_summary, run_search_with_retries, run_test, started, test_status, failed_test,
  with_test, finish_scenario, run_scenario,
}
use ooverlap.Evaluate.Resume.{is_succeeded, is_version, is_true, is_complete}
use ooverlap.Evaluate.Keeps.{load-Keeps, run_search_with_retries-Keeps, run_test-Keeps}

module _ (o : Outside) (devices : List ℤ) (s : Shape) (c : CommRunConfig) where
  abbrev pub own_id : String
  own_id = scenario_id o devices s c

  -- The file says that the scenario is not complete, so that it is run again.
  abbrev pub IsUnfinished : List (String × Option Scenario) → Type 0
  IsUnfinished files =
      (y : Scenario) × (lookup own_id files ≡ some (some y)) × (is_complete y ≡ false)

  -- The file holds the result, which is complete exactly if its status is `ok`.
  pub record IsSaved (y : Scenario) (w : World o) : Type 0 where
    pub file : lookup own_id w.files ≡ some (some y)
    pub ended : y.status ≢ running
    pub complete : is_complete y ≡ is_succeeded y.status
    pub named : y.scenario_id ≡ own_id

  saved-IsUnfinished :
      (files : List (String × Option Scenario)) (y : Scenario)
      → is_complete y ≡ false
      → IsUnfinished (insert own_id (some y) files)
  saved-IsUnfinished files y h = (y, lookup-insert_self own_id (some y) files, h)

  tested : Search → Bool → Scenario
  tested found capped = with_test (record (started o devices s c) { search = some found }) capped

  with_test-IsSaved :
      (found : Search) (capped : Bool) (w : World o) (files : List (String × Option Scenario))
      → w.files ≡ insert own_id (some (tested found capped)) files
      → IsSaved (tested found capped) w
  unfolding tested with_test test_status failed_test started is_complete is_succeeded is_true
      is_version
  with_test-IsSaved found true w files e = record {
    file = ap (lookup own_id) e ∙ lookup-insert_self own_id (some _) files;
    ended = λ e. cc;
    complete = refl;
    named = refl;
  }
  with_test-IsSaved found false w files e = record {
    file = ap (lookup own_id) e ∙ lookup-insert_self own_id (some _) files;
    ended = λ e. cc;
    complete = refl;
    named = refl;
  }

  finish_scenario-IsSaved :
      (found : Search) (w : World o)
      → IsUnfinished w.files
      → Ends IsSaved (λ v. IsUnfinished v.files) (finish_scenario o devices s c found w)
  unfolding finish_scenario save_scenario tested started with_test is_complete is_succeeded is_true
      is_version
  finish_scenario-IsSaved found w q =
      Ends-if IsSaved (λ v. IsUnfinished v.files) found.ok _ _ w
        (Ends-bind (λ a v. IsUnfinished v.files) IsSaved (λ v. IsUnfinished v.files)
          (load_solution_summary o devices s nccl) _ w
          (load-Keeps o IsUnfinished devices s nccl w q)
          λ a v q'.
            Ends-bind (λ b u. IsUnfinished u.files) IsSaved (λ u. IsUnfinished u.files)
              (load_solution_summary o devices s ooverlap_backend) _ v
              (load-Keeps o IsUnfinished devices s ooverlap_backend v q')
              λ b u q''.
                let searched = record (started o devices s c) { search = some found } in
                let saved = record u { files = insert own_id (some searched) u.files } in
                Ends-bind (λ capped x. IsUnfinished x.files) IsSaved (λ x. IsUnfinished x.files)
                  (run_test o devices s c) _ saved
                  (run_test-Keeps o IsUnfinished devices s c saved
                    (saved-IsUnfinished u.files searched refl))
                  λ capped x q₃. with_test-IsSaved found capped _ x.files refl)
        (record {
          file = lookup-insert_self own_id (some _) w.files;
          ended = λ e. cc;
          complete = refl;
          named = refl;
        })

  -- A scenario that ends well has its result in its file, with a status other than `running`; the
  -- file is complete, so that a later evaluation skips it, exactly if the status is `ok`. Where a stage
  -- raises, the file that is left is not complete, so that it is run again.
  pub run_scenario-IsSaved :
      (trials : List MinGroupTrial) (w : World o)
      → Ends IsSaved (λ v. IsUnfinished v.files) (run_scenario o devices trials s c w)
  unfolding run_scenario save_scenario started is_complete is_succeeded
  run_scenario-IsSaved trials w =
      let start = started o devices s c in
      let begun = record w { files = insert own_id (some start) w.files } in
      Ends-bind (λ found v. IsUnfinished v.files) IsSaved (λ v. IsUnfinished v.files)
        (run_search_with_retries o devices trials s c) (finish_scenario o devices s c) begun
        (run_search_with_retries-Keeps o IsUnfinished devices trials s c begun
          (saved-IsUnfinished w.files start refl))
        (λ found v q. finish_scenario-IsSaved found v q)
