-- ===== src/Evaluate/Retries.antt =====
-- What `run_search_with_retries` runs, and what it returns.
use mathlib.Core.Path.{subst}
use ooverlap.Prelude.{
  ◌≡◌, refl, sym, ap, ◌∙◌, ◌⊎◌, inl, inr, true, false, not, none, some, List, [], ◌∷◌, ◌++◌, map,
  filter, append_assoc, append-nil, Bool-cases,
}
use ooverlap.Prelude.Int.{ℤ}
use ooverlap.Prelude.Outcome.{done, >>=-eq-done, done_injective}
use ooverlap.Evaluate.{Shape, MinGroupTrial, CommRunConfig}
use ooverlap.Evaluate.Settings.{is_allowed}
use ooverlap.Evaluate.World.{Trial, Search, Command, search, Outside, World}
use ooverlap.Evaluate.Stages.{run_search_trial, try_trials, run_search_with_retries}
use ooverlap.Evaluate.Tried.{HasSucceeded, HasFailed, run_search_trial-done}

module _ (o : Outside) (devices : List ℤ) (s : Shape) (c : CommRunConfig) where
  -- A trial that was not taken, as it is listed.
  abbrev pub passed : MinGroupTrial → Trial
  passed t = record { ok = false; skipped = not (is_allowed s t); trial = t }

  abbrev pub allowed : List MinGroupTrial → List MinGroupTrial
  allowed ts = filter (is_allowed s) ts

  -- The trials, in order: one that is not allowed changes nothing, and each that is allowed is run and fails.
  pub data HaveFailed : World o → List MinGroupTrial → World o → Type 0 where
    none_left : {w : World o} → HaveFailed w [] w
    skipped :
        {t : MinGroupTrial} {ts : List MinGroupTrial} {w v : World o}
        → is_allowed s t ≡ false
        → HaveFailed w ts v
        → HaveFailed w (t ∷ ts) v
    failed :
        {t : MinGroupTrial} {ts : List MinGroupTrial} {w u v : World o}
        → is_allowed s t ≡ true
        → HasFailed o devices s c t w u
        → HaveFailed u ts v
        → HaveFailed w (t ∷ ts) v

  -- The search stops at the first allowed trial that succeeds; those before it failed.
  pub record IsFound (w : World o) (tried : List Trial) (trials : List MinGroupTrial) (r : Search)
      (w' : World o) : Type 0 where
    pub before : List MinGroupTrial
    pub trial : MinGroupTrial
    pub after : List MinGroupTrial
    pub parts : trials ≡ before ++ trial ∷ after
    pub allowed_trial : is_allowed s trial ≡ true
    pub result : r ≡ record {
      ok = true;
      selected = some trial;
      trials =
          tried ++ (map passed before ++ record { ok = true; skipped = false; trial = trial } ∷ []);
    }
    pub commands :
        w'.commands ≡ w.commands ++ (map (search s c) (allowed before) ++ search s c trial ∷ [])
    pub between : World o
    pub failures : HaveFailed w before between
    pub success : HasSucceeded o devices s c trial between w'

  -- All allowed trials were run, and failed.
  pub record IsExhausted (w : World o) (tried : List Trial) (trials : List MinGroupTrial)
      (r : Search) (w' : World o) : Type 0 where
    pub result : r ≡ record { ok = false; selected = none; trials = tried ++ map passed trials }
    pub commands : w'.commands ≡ w.commands ++ map (search s c) (allowed trials)
    pub failures : HaveFailed w trials w'

  -- Both ends of the loop, for the trials that are left.
  abbrev pub IsRetried : World o → List Trial → List MinGroupTrial → Search → World o → Type 0
  IsRetried w tried trials r w' = IsFound w tried trials r w' ⊎ IsExhausted w tried trials r w'

  allowed-cons :
      (t : MinGroupTrial) (us : List MinGroupTrial) (rest : List Command)
      → map (search s c) (allowed (t ∷ [])) ++ (map (search s c) (allowed us) ++ rest)
        ≡ map (search s c) (allowed (t ∷ us)) ++ rest
  allowed-cons t us rest = elim (Bool-cases (is_allowed s t)) [
    | inl able ↦ rw able refl
    | inr unable ↦ rw unable refl
  ]

  allowed-cons_only :
      (t : MinGroupTrial) (us : List MinGroupTrial)
      → map (search s c) (allowed (t ∷ [])) ++ map (search s c) (allowed us)
        ≡ map (search s c) (allowed (t ∷ us))
  allowed-cons_only t us = elim (Bool-cases (is_allowed s t)) [
    | inl able ↦ rw able refl
    | inr unable ↦ rw unable refl
  ]

  -- One more trial before the others: skipped, or run and failed.
  IsRetried-cons :
      (w v : World o) (tried : List Trial) (t : MinGroupTrial) (ts : List MinGroupTrial)
      {r : Search} {w' : World o}
      → v.commands ≡ w.commands ++ map (search s c) (allowed (t ∷ []))
      → ((us : List MinGroupTrial) (u : World o) → HaveFailed v us u → HaveFailed w (t ∷ us) u)
      → IsRetried v (tried ++ passed t ∷ []) ts r w'
      → IsRetried w tried (t ∷ ts) r w'
  IsRetried-cons w v tried t ts step more (inl x) =
      let last = search s c x.trial ∷ [] in
      inl (record {
        before = t ∷ x.before;
        trial = x.trial;
        after = x.after;
        parts = ap (λ l. t ∷ l) x.parts;
        allowed_trial = x.allowed_trial;
        result =
            x.result
            ∙ ap (λ l. record { ok = true; selected = some x.trial; trials = l })
                (append_assoc tried (passed t ∷ []) _);
        commands =
            x.commands
            ∙ ap (λ l. l ++ (map (search s c) (allowed x.before) ++ last)) step
            ∙ append_assoc w.commands (map (search s c) (allowed (t ∷ []))) _
            ∙ ap (λ l. w.commands ++ l) (allowed-cons t x.before last);
        between = x.between;
        failures = more x.before x.between x.failures;
        success = x.success;
      })
  IsRetried-cons w v tried t ts step more (inr x) = inr (record {
    result =
        x.result
        ∙ ap (λ l. record { ok = false; selected = none; trials = l })
            (append_assoc tried (passed t ∷ []) _);
    commands =
        x.commands
        ∙ ap (λ l. l ++ map (search s c) (allowed ts)) step
        ∙ append_assoc w.commands (map (search s c) (allowed (t ∷ []))) _
        ∙ ap (λ l. w.commands ++ l) (allowed-cons_only t ts);
    failures = more ts _ x.failures;
  })

  try_trials-IsRetried :
      (tried : List Trial) (trials : List MinGroupTrial) (w : World o) {r : Search} {w' : World o}
      → try_trials o devices s c tried trials w ≡ done r w'
      → IsRetried w tried trials r w'
  unfolding try_trials
  try_trials-IsRetried tried [] w h =
      let (result, same) = done_injective h in
      inr (record {
        result =
            sym result
            ∙ ap (λ l. record { ok = false; selected = none; trials = l }) (sym (append-nil tried));
        commands = ap (λ (u : World o). u.commands) (sym same) ∙ sym (append-nil w.commands);
        failures = subst (HaveFailed w []) same none_left;
      })
  try_trials-IsRetried tried (t ∷ ts) w {r} {w'} h = elim (Bool-cases (is_allowed s t)) [
    | inr unable ↦
        let listed : passed t ≡ record { ok = false; skipped = true; trial = t } = rw unable refl in
        let none_run : w.commands ≡ w.commands ++ map (search s c) (allowed (t ∷ [])) =
          rw unable (sym (append-nil w.commands)) in
        let h' : try_trials o devices s c (tried ++ passed t ∷ []) ts w ≡ done r w' =
          rw listed (rw unable at h) in
        IsRetried-cons w w tried t ts none_run (λ us u m. skipped unable m)
          (try_trials-IsRetried (tried ++ passed t ∷ []) ts w h')
    | inl able ↦
        let (found, v, ran, h') =
          >>=-eq-done (run_search_trial o devices s c t) _ w (rw able at h) in
        let (one_run, succeeded, has_failed) = run_search_trial-done o devices s c t w ran in
        elim (Bool-cases found) [
          | inl good ↦
              let (result, same) = done_injective (rw good at h') in
              inl (record {
                before = [];
                trial = t;
                after = ts;
                parts = refl;
                allowed_trial = able;
                result = sym result;
                commands = ap (λ (u : World o). u.commands) (sym same) ∙ one_run;
                between = w;
                failures = none_left;
                success = subst (HasSucceeded o devices s c t w) same (succeeded good);
              })
          | inr bad ↦
              let missed : passed t ≡ record { ok = false; skipped = false; trial = t } =
                rw able refl in
              let run_here : v.commands ≡ w.commands ++ map (search s c) (allowed (t ∷ [])) =
                rw able one_run in
              let h'' : try_trials o devices s c (tried ++ passed t ∷ []) ts v ≡ done r w' =
                rw missed (rw bad at h') in
              IsRetried-cons w v tried t ts run_here (λ us u m. failed able (has_failed bad) m)
                (try_trials-IsRetried (tried ++ passed t ∷ []) ts v h'')
        ]
  ]

  -- A search with retries that does not raise either selects an allowed trial whose command ended with 0 and
  -- left, for both backends, a solution of this slack and this number of devices, after each allowed trial
  -- before it was run, in order, and ended with another code or left no such solutions; or it ran all allowed
  -- trials, in order, and each failed in that way. It lists what it did with each, and a trial that is not
  -- allowed is never run.
  pub run_search_with_retries-IsRetried :
      (trials : List MinGroupTrial) (w : World o) {r : Search} {w' : World o}
      → run_search_with_retries o devices trials s c w ≡ done r w'
      → IsRetried w [] trials r w'
  unfolding run_search_with_retries
  run_search_with_retries-IsRetried trials w h = try_trials-IsRetried [] trials w h
