-- ===== src/Evaluate/Complete.antt =====
-- After the loops of `main`, each selected scenario is in memory.
use Prim.Native.String.{String}
use text.Mathlib.Text.{◌==◌ as str_eq}
use ooverlap.Prelude.{
  ◌≡◌, refl, ◌∙◌, inl, inr, Bool, true, ◌&&◌, some, List, [], ◌∷◌, Bool-cases, arith,
}
use ooverlap.Prelude.Int.{ℤ}
use ooverlap.Prelude.Membership.{In, In-cons}
use ooverlap.Prelude.Result.{Option-cases}
use ooverlap.Prelude.Outcome.{done, M, Ends, Ends-done, >>=-eq-done, done_injective}
use ooverlap.Prelude.Dict.{lookup, insert, lookup-insert, lookup-insert_self}
use ooverlap.Evaluate.{Shape, CommRunConfig}
use ooverlap.Evaluate.Settings.{Tables}
use ooverlap.Evaluate.World.{Scenario, Outside, World, scenario_id, save_scenario}
use ooverlap.Evaluate.Stages.{run_profile, run_scenario}
use ooverlap.Evaluate.Resume.{Scenarios, existing_scenario_is_ok}
use ooverlap.Evaluate.Run.{
  write_partial, is_kept, all_ok, profile_failure, fail_configs, run_configs, run_shape, run_shapes,
}
use ooverlap.Evaluate.Keyed.{IsKeyed, insert-IsKeyed}
use ooverlap.Evaluate.Loop.{Files, IsStable, run_configs-Runs, fail_configs-Runs, run_shapes-Runs}

module _ (o : Outside) (t : Tables) (devices : List ℤ) (skip skip_profile : Bool) where
  abbrev pub Has : String → Scenarios → Files o t devices skip skip_profile → Type 0
  Has k d files = (y : Scenario) × (lookup k d ≡ some y)

  Has-insert :
      (k j : String) (x : Scenario) (d : Scenarios)
      → ((y : Scenario) × (lookup k d ≡ some y))
      → (y : Scenario) × (lookup k (insert j x d) ≡ some y)
  Has-insert k j x d (y, held) = elim (Bool-cases (str_eq j k)) [
    | inl same ↦ (x, lookup-insert j k x d ∙ rw same refl)
    | inr other ↦ (y, lookup-insert j k x d ∙ rw other held)
  ]

  Has-IsStable : (k : String) → IsStable o t devices skip skip_profile (Has k)
  Has-IsStable k = record {
    file = λ d files s c x run_it h. h;
    entry = λ d files s c x run_it named h. Has-insert k (scenario_id o devices s c) x d h;
  }

  pub IsKeyed-IsStable : IsStable o t devices skip skip_profile (λ d files. IsKeyed d)
  IsKeyed-IsStable = record {
    file = λ d files s c x run_it h. h;
    entry = λ d files s c x run_it named h. insert-IsKeyed (scenario_id o devices s c) x d named h;
  }

  kept-Has :
      (d : Scenarios) (s : Shape) (c : CommRunConfig)
      → existing_scenario_is_ok d (scenario_id o devices s c) ≡ true
      → (y : Scenario) × (lookup (scenario_id o devices s c) d ≡ some y)
  unfolding existing_scenario_is_ok
  kept-Has d s c h = elim (Option-cases (lookup (scenario_id o devices s c) d)) [
    | inl missing ↦ absurd (ground (arith, h, missing))
    | inr found ↦ found
  ]

  -- What was there before a loop is there after it.
  still_Has :
      (k : String) (m : M (World o) Scenarios) (d : Scenarios) (w : World o) {d' : Scenarios}
      {w' : World o}
      → ((v : World o)
          → Has k d v.files
          → Ends (λ e u. Has k e u.files) (λ u. (e : Scenarios) × Has k e u.files) (m v))
      → m w ≡ done d' w'
      → (y : Scenario) × (lookup k d ≡ some y)
      → (y : Scenario) × (lookup k d' ≡ some y)
  still_Has k m d w {d'} {w'} runs h has =
      Ends-done (λ e u. Has k e u.files) (λ u. (e : Scenarios) × Has k e u.files) (m w) (runs w has)
        h

  -- Each scenario of a list is there afterwards.
  abbrev pub HasAll : Shape → List CommRunConfig → Scenarios → Type 0
  HasAll s cs d =
      (c : CommRunConfig)
      → In c cs
      → (y : Scenario) × (lookup (scenario_id o devices s c) d ≡ some y)

  HasAll-cons :
      (s : Shape) (b : CommRunConfig) (cs : List CommRunConfig) (d : Scenarios)
      → ((y : Scenario) × (lookup (scenario_id o devices s b) d ≡ some y))
      → HasAll s cs d
      → HasAll s (b ∷ cs) d
  HasAll-cons s b cs d first rest c m = elim (In-cons m) [
    | inl e ↦ rw e first
    | inr later ↦ rest c later
  ]

  run_configs-HasAll :
      (s : Shape) (cs : List CommRunConfig) (d : Scenarios) (w : World o) {d' : Scenarios}
      {w' : World o}
      → run_configs o t devices skip skip_profile s cs d w ≡ done d' w'
      → HasAll s cs d'
  unfolding run_configs write_partial save_scenario is_kept
  run_configs-HasAll s [] d w h = λ c m. elim m [ ]
  run_configs-HasAll s (b ∷ cs) d w {d'} {w'} h =
      let id = scenario_id o devices s b in
      let keeps = λ (e : Scenarios).
        run_configs-Runs o t devices skip skip_profile (Has id) (Has-IsStable id) s cs e in
      elim (Bool-cases (is_kept o t devices skip skip_profile d s b)) [
        | inl kept ↦
            let h' : run_configs o t devices skip skip_profile s cs d _ ≡ done d' w' =
              rw (run_configs, kept) at h in
            let old : existing_scenario_is_ok d id ≡ true = ground (arith, kept) in
            HasAll-cons s b cs d' (still_Has id _ d _ (keeps d) h' (kept-Has d s b old))
              (run_configs-HasAll s cs d _ h')
        | inr run_it ↦
            let (y, v, ran, h') =
              >>=-eq-done (run_scenario o devices t.trials s b) _ w
                (rw (run_configs, run_it) at h) in
            let x = record y { profile_ok = some true } in
            let d₁ = insert id x d in
            HasAll-cons s b cs d' (still_Has id _ d₁ _ (keeps d₁) h' (x, lookup-insert_self id x d))
              (run_configs-HasAll s cs d₁ _ h')
      ]

  fail_configs-HasAll :
      (s : Shape) (cs : List CommRunConfig) (d : Scenarios) (w : World o) {d' : Scenarios}
      {w' : World o}
      → fail_configs o t devices skip skip_profile s cs d w ≡ done d' w'
      → HasAll s cs d'
  unfolding fail_configs save_scenario is_kept
  fail_configs-HasAll s [] d w h = λ c m. elim m [ ]
  fail_configs-HasAll s (b ∷ cs) d w {d'} {w'} h =
      let id = scenario_id o devices s b in
      let keeps = λ (e : Scenarios).
        fail_configs-Runs o t devices skip skip_profile (Has id) (Has-IsStable id) s cs e in
      elim (Bool-cases (is_kept o t devices skip skip_profile d s b)) [
        | inl kept ↦
            let h' : fail_configs o t devices skip skip_profile s cs d w ≡ done d' w' =
              rw (fail_configs, kept) at h in
            let old : existing_scenario_is_ok d id ≡ true = ground (arith, kept) in
            HasAll-cons s b cs d' (still_Has id _ d w (keeps d) h' (kept-Has d s b old))
              (fail_configs-HasAll s cs d w h')
        | inr run_it ↦
            let x = profile_failure o t devices skip skip_profile s b in
            let d₁ = insert id x d in
            let h' : fail_configs o t devices skip skip_profile s cs d₁ _ ≡ done d' w' =
              rw (fail_configs, run_it) at h in
            HasAll-cons s b cs d' (still_Has id _ d₁ _ (keeps d₁) h' (x, lookup-insert_self id x d))
              (fail_configs-HasAll s cs d₁ _ h')
      ]

  all_ok-HasAll :
      (s : Shape) (cs : List CommRunConfig) (d : Scenarios)
      → all_ok o t devices skip skip_profile d s cs ≡ true
      → HasAll s cs d
  unfolding all_ok
  all_ok-HasAll s [] d h = λ c m. elim m [ ]
  all_ok-HasAll s (b ∷ cs) d h =
      HasAll-cons s b cs d (kept-Has d s b (ground (arith, h)))
        (all_ok-HasAll s cs d (ground (arith, h)))

  run_shape-HasAll :
      (s : Shape) (cs : List CommRunConfig) (d : Scenarios) (w : World o) {d' : Scenarios}
      {w' : World o}
      → run_shape o t devices skip skip_profile s cs d w ≡ done d' w'
      → HasAll s cs d'
  unfolding run_shape write_partial
  run_shape-HasAll s cs d w {d'} {w'} h =
      elim (Bool-cases (skip && all_ok o t devices skip skip_profile d s cs)) [
        | inl resumed ↦
            let same = (done_injective (rw (run_shape, resumed) at h)).0 in
            rw (← same) (all_ok-HasAll s cs d (ground (arith, resumed)))
        | inr work ↦
            let (profiled, v, ran, h') =
              >>=-eq-done (run_profile o devices skip_profile s) _ w (rw (run_shape, work) at h) in
            elim (Bool-cases profiled) [
              | inl good ↦ run_configs-HasAll s cs d v (rw good at h')
              | inr bad ↦
                  let (e, u, wrote, h'') =
                    >>=-eq-done (fail_configs o t devices skip skip_profile s cs d) _ v
                      (rw bad at h') in
                  rw (← (done_injective h'').0) (fail_configs-HasAll s cs d v wrote)
            ]
      ]

  pub run_shapes-HasAll :
      (ss : List Shape) (cs : List CommRunConfig) (d : Scenarios) (w : World o) {d' : Scenarios}
      {w' : World o}
      → run_shapes o t devices skip skip_profile ss cs d w ≡ done d' w'
      → (s : Shape) → In s ss
      → HasAll s cs d'
  unfolding run_shapes
  run_shapes-HasAll [] cs d w h s m = elim m [ ]
  run_shapes-HasAll (r ∷ ss) cs d w {d'} {w'} h s m =
      let (e, v, ran, h') = >>=-eq-done (run_shape o t devices skip skip_profile r cs d) _ w h in
      elim (In-cons m) [
        | inr later ↦ run_shapes-HasAll ss cs e v h' s later
        | inl same ↦ λ c n.
            let id = scenario_id o devices s c in
            still_Has id (run_shapes o t devices skip skip_profile ss cs e) e v
              (run_shapes-Runs o t devices skip skip_profile (Has id) (Has-IsStable id) ss cs e) h'
              (run_shape-HasAll s cs d w (rw (← same) at ran) c n)
      ]
