-- ===== src/Evaluate/Tried.antt =====
-- One trial of a search: what it runs, and what it leaves.
use mathlib.Core.Path.{subst}
use ooverlap.Prelude.{
  ◌≡◌, refl, ◌⊎◌, Bool-cases, false, sym, ap, ◌∙◌, inl, inr, Bool, true, Option, none, some, List,
  [], ◌∷◌, ◌++◌, length, arith,
}
use ooverlap.Prelude.Int.{ℤ, int_eq_iff}
use ooverlap.Prelude.Result.{Result, ok, Option-cases}
use ooverlap.Prelude.Outcome.{done, lift, >>=-eq-done, done_injective, lift-done}
use ooverlap.Evaluate.{Shape, MinGroupTrial, CommRunConfig, Backend, nccl, ooverlap_backend}
use ooverlap.Evaluate.World.{Command, search, Solution, Outside, World, run_cmd}
use ooverlap.Evaluate.Stages.{
  Summary, is_world_size, summarize_solution, has_slack, solution_ok, solution_path,
  load_solution_summary, run_search_trial,
}

solution_ok-true :
    (a b : Summary) (slack : ℤ)
    → solution_ok a b slack ≡ ok true
    → (a.ok ≡ true)
      × (a.comm_sm_slack ≡ some slack)
      × (b.ok ≡ true)
      × (b.comm_sm_slack ≡ some slack)
unfolding solution_ok has_slack
solution_ok-true a b slack h = elim (Option-cases a.comm_sm_slack) [
  | inl missing ↦ absurd (ground (arith, h, missing))
  | inr (x, held) ↦ elim (Option-cases b.comm_sm_slack) [
    | inl missing ↦ absurd (ground (arith, h, held, missing))
    | inr (y, held') ↦
        let same : x ≡ slack = (int_eq_iff x slack).0 (ground (arith, h, held, held')) in
        let same' : y ≡ slack = (int_eq_iff y slack).0 (ground (arith, h, held, held')) in
        (
          ground (arith, h, held, held'),
          held ∙ ap some same,
          ground (arith, h, held, held'),
          held' ∙ ap some same',
        )
  ]
]

solution_ok-of :
    (a b : Summary) (slack : ℤ)
    → a.ok ≡ true
    → a.comm_sm_slack ≡ some slack
    → b.ok ≡ true
    → b.comm_sm_slack ≡ some slack
    → solution_ok a b slack ≡ ok true
unfolding solution_ok has_slack
solution_ok-of a b slack p q p' q' =
    let same = (int_eq_iff slack slack).1 refl in rw (solution_ok, p, p', q, q', same) refl

module _ (o : Outside) (devices : List ℤ) (s : Shape) (c : CommRunConfig) where
  -- The file that a search left for a backend is for this number of devices and this slack.
  pub record IsSolved (b : Backend) (w : World o) : Type 0 where
    pub solution : Solution
    pub read : o.solution_json (solution_path o devices s b w.rest) w.rest ≡ ok (some solution)
    pub size : is_world_size (length devices) solution.world_size ≡ true
    pub slack : solution.comm_sm_slack ≡ some c.comm_sm_slack

  -- The command of a trial ended with 0 and left solutions that suit for both backends.
  pub record HasSucceeded (t : MinGroupTrial) (w v : World o) : Type 0 where
    pub ran : run_cmd o (search s c t) w ≡ done true v
    pub nccl_solved : IsSolved nccl v
    pub ooverlap_solved : IsSolved ooverlap_backend v

  -- The command of a trial ended, with another code or without such solutions.
  pub record HasFailed (t : MinGroupTrial) (w v : World o) : Type 0 where
    pub code_ok : Bool
    pub ran : run_cmd o (search s c t) w ≡ done code_ok v
    pub reason : (code_ok ≡ false) ⊎ ((IsSolved nccl v × IsSolved ooverlap_backend v) → ⊥)

  load-done :
      (b : Backend) {w w' : World o} {a : Summary}
      → load_solution_summary o devices s b w ≡ done a w'
      → (json : Option Solution) × (w ≡ w')
        × (o.solution_json (solution_path o devices s b w.rest) w.rest ≡ ok json)
        × (summarize_solution (length devices) json ≡ a)
  unfolding load_solution_summary
  load-done b {w} h =
      let (json, v, read, h') =
        >>=-eq-done (lift (o.solution_json (solution_path o devices s b w.rest) w.rest)) _ w h in
      let (got, same) =
        lift-done (o.solution_json (solution_path o devices s b w.rest) w.rest) read in
      let (made, same') = done_injective h' in (json, same ∙ same', got, made)

  summary-IsSolved :
      (b : Backend) {w : World o} {a : Summary} (json : Option Solution)
      → o.solution_json (solution_path o devices s b w.rest) w.rest ≡ ok json
      → summarize_solution (length devices) json ≡ a
      → a.ok ≡ true
      → a.comm_sm_slack ≡ some c.comm_sm_slack
      → IsSolved b w
  unfolding summarize_solution
  summary-IsSolved b none read made good slack = absurd (ground (arith, made, good))
  summary-IsSolved b (some x) read made good slack = record {
    solution = x;
    read = read;
    size = ground (arith, made, good);
    slack = ground (arith, made, good, slack);
  }

  summary-of_IsSolved :
      (b : Backend) {w : World o} {a : Summary} (json : Option Solution)
      → o.solution_json (solution_path o devices s b w.rest) w.rest ≡ ok json
      → summarize_solution (length devices) json ≡ a
      → IsSolved b w
      → (a.ok ≡ true) × (a.comm_sm_slack ≡ some c.comm_sm_slack)
  unfolding summarize_solution
  summary-of_IsSolved b none read made v = let two = v.read in absurd (ground (arith, read, two))
  summary-of_IsSolved b (some x) read made v =
      let two = v.read in
      let same : x ≡ v.solution = ground (arith, read, two) in
      let size = v.size in
      let slack = v.slack in
      (ground (arith, same, made, size), ground (arith, same, made, size, slack))

  run_cmd-commands :
      (k : Command) (w : World o) {b : Bool} {w' : World o}
      → run_cmd o k w ≡ done b w'
      → w'.commands ≡ w.commands ++ k ∷ []
  unfolding run_cmd
  run_cmd-commands k w h = sym (ap (λ (u : World o). u.commands) (done_injective h).1)

  -- A trial runs its search, once, and tells whether it succeeded.
  pub run_search_trial-done :
      (t : MinGroupTrial) (w : World o) {w' : World o} {b : Bool}
      → run_search_trial o devices s c t w ≡ done b w'
      → (w'.commands ≡ w.commands ++ search s c t ∷ [])
        × (b ≡ true → HasSucceeded t w w')
        × (b ≡ false → HasFailed t w w')
  unfolding run_search_trial
  run_search_trial-done t w {w'} {b} h =
      let (code_ok, v, ran, h₁) = >>=-eq-done (run_cmd o (search s c t)) _ w h in
      let (x, v₁, first, h₂) = >>=-eq-done (load_solution_summary o devices s nccl) _ v h₁ in
      let (y, v₂, second, h₃) =
        >>=-eq-done (load_solution_summary o devices s ooverlap_backend) _ v₁ h₂ in
      let (suits, v₃, judged, h₄) = >>=-eq-done (lift (solution_ok x y c.comm_sm_slack)) _ v₂ h₃ in
      let (json, same₁, read, made) = load-done nccl first in
      let (json', same₂, read', made') = load-done ooverlap_backend second in
      let (good, same₃) = lift-done (solution_ok x y c.comm_sm_slack) judged in
      let (result, same₄) = done_injective h₄ in
      let end₂ : v₁ ≡ w' = same₂ ∙ same₃ ∙ same₄ in
      let end₁ : v ≡ w' = same₁ ∙ end₂ in
      (
        ap (λ (u : World o). u.commands) (sym end₁) ∙ run_cmd-commands (search s c t) w ran,
        λ yes_ok.
            let suits_ok : suits ≡ true = ground (arith, result, yes_ok) in
            let code : code_ok ≡ true = ground (arith, result, yes_ok) in
            let (p, q, p', q') = solution_ok-true x y c.comm_sm_slack (rw suits_ok at good) in
            record {
              ran = ran ∙ ap (λ k. done k v) code ∙ ap (λ u. done true u) end₁;
              nccl_solved = subst (IsSolved nccl) end₁ (summary-IsSolved nccl json read made p q);
              ooverlap_solved =
                  subst (IsSolved ooverlap_backend) end₂
                    (summary-IsSolved ooverlap_backend json' read' made' p' q');
            },
        λ no_ok. record {
          code_ok = code_ok;
          ran = ran ∙ ap (λ u. done code_ok u) end₁;
          reason = elim (Bool-cases code_ok) [
            | inr failed ↦ inl failed
            | inl ended ↦ inr (λ both.
                let suits_not : suits ≡ false = ground (arith, result, no_ok, ended) in
                let (p, q) =
                  summary-of_IsSolved nccl json read made
                    (subst (IsSolved nccl) (sym end₁) both.0) in
                let (p', q') =
                  summary-of_IsSolved ooverlap_backend json' read' made'
                    (subst (IsSolved ooverlap_backend) (sym end₂) both.1) in
                let agreed = solution_ok-of x y c.comm_sm_slack p q p' q' in
                let clash : ◌≡◌ {A = Result Bool} (ok true) (ok false) =
                  sym agreed ∙ good ∙ ap ok suits_not in
                cc)
          ];
        },
      )
