-- ===== src/Search/Solve/Minimum.antt =====
-- The loop that both searches share keeps a least duration and the segmentation that has it.
use ooverlap.Prelude.{
  ℕ, suc, ◌≡◌, refl, ap, ◌∙◌, ◌⊎◌, inl, inr, Bool, false, none, some, List, [], ◌∷◌, Bool-cases,
  arith,
}
use ooverlap.Prelude.Floats.{Floats, IsOrdered}
use ooverlap.Prelude.Membership.{In, here, there}
use ooverlap.Prelude.Result.{Result, ok, >>=-eq-ok}
use ooverlap.Search.Solve.{Best, keep_better, search_loop}

module _ (f : Floats) (ordered : IsOrdered f) (skip : List ℕ → Bool)
    (expand : List ℕ → Result (List ℕ)) (dur_of : ℕ → List ℕ → Result f.F) where
  -- The partition was not skipped, and its segmentation and duration at some call.
  pub record Tried (gp : List ℕ) : Type 0 where
    pub kept : skip gp ≡ false
    pub cseg : List ℕ
    pub expanded : expand gp ≡ ok cseg
    pub call : ℕ
    pub dur : f.F
    pub timed : dur_of call cseg ≡ ok dur

  -- The segmentation that is kept is one that was tried, with its duration.
  abbrev pub CameFromTry : List (List ℕ) → Best f → Type 0
  CameFromTry gps b =
      (gp : List ℕ) × In gp gps × (t : Tried gp) × (b.best_cseg ≡ some t.cseg) × (b.min_dur ≡ t.dur)

  -- No duration that was tried is less than the one that is kept.
  abbrev pub IsLeast : List (List ℕ) → Best f → Type 0
  IsLeast gps b =
      (gp : List ℕ) → In gp gps → skip gp ≡ false → (t : Tried gp) × (f.lt t.dur b.min_dur ≡ false)

  keep_better-lt :
      (b : Best f) (d x : f.F) (cseg : List ℕ)
      → f.lt x b.min_dur ≡ false
      → f.lt x (keep_better f b d cseg).min_dur ≡ false
  unfolding keep_better
  keep_better-lt b d x cseg h = elim (Bool-cases (f.lt d b.min_dur)) [
    | inr not_less ↦ rw not_less h
    | inl less ↦ rw less (elim (Bool-cases (f.lt x d)) [
      | inr e ↦ e
      | inl e ↦ absurd (let bad = ordered.trans x d b.min_dur e less in ground (arith, bad, h))
    ])
  ]

  keep_better_self :
      (b : Best f) (d : f.F) (cseg : List ℕ) → f.lt d (keep_better f b d cseg).min_dur ≡ false
  unfolding keep_better
  keep_better_self b d cseg = elim (Bool-cases (f.lt d b.min_dur)) [
    | inr not_less ↦ rw not_less not_less
    | inl less ↦ rw less (ordered.irrefl d)
  ]

  record Searched (gps : List (List ℕ)) (b out : Best f) : Type 0 where
    source : (out ≡ b) ⊎ CameFromTry gps out
    least : IsLeast gps out
    lower : (x : f.F) → f.lt x b.min_dur ≡ false → f.lt x out.min_dur ≡ false

  -- One more partition in front, of which the loop made `b'`.
  in_front :
      (gp : List ℕ) (gps : List (List ℕ)) (b b' out : Best f)
      → Searched gps b' out
      → (b' ≡ b) ⊎ CameFromTry (gp ∷ gps) b'
      → ((x : f.F) → f.lt x b.min_dur ≡ false → f.lt x b'.min_dur ≡ false)
      → (skip gp ≡ false → (t : Tried gp) × (f.lt t.dur b'.min_dur ≡ false))
      → Searched (gp ∷ gps) b out
  in_front gp gps b b' out v step lower own = record {
    source = elim v.source [
      | inr (g, m, t, e, d) ↦ inr (g, there m, t, e, d)
      | inl same ↦ elim step [
        | inl still ↦ inl (same ∙ still)
        | inr (g, m, t, e, d) ↦ inr (
          g,
          m,
          t,
          ap (λ (r : Best f). r.best_cseg) same ∙ e,
          ap (λ (r : Best f). r.min_dur) same ∙ d,
        )
      ]
    ];
    least = λ g m kept. first g m kept;
    lower = λ x h. v.lower x (lower x h);
  }
    where
      first :
          (g : List ℕ)
          → In g (gp ∷ gps)
          → skip g ≡ false
          → (t : Tried g) × (f.lt t.dur out.min_dur ≡ false)
      first _ here kept = let (t, e) = own kept in (t, v.lower t.dur e)
      first g (there m) kept = v.least g m kept

  search_loop-Searched :
      (gps : List (List ℕ)) (k : ℕ) (b : Best f) {out : Best f}
      → search_loop f skip expand dur_of k b gps ≡ ok out
      → Searched gps b out
  unfolding search_loop
  search_loop-Searched [] k b {out} h = record {
    source = inl (ground (arith, h));
    least = λ g m kept. elim m [ ];
    lower = λ x e. ground (arith, h, e);
  }
  search_loop-Searched (gp ∷ gps) k b {out} h = elim (Bool-cases (skip gp)) [
    | inl skipped ↦
        in_front gp gps b b out (search_loop-Searched gps k b (rw skipped at h)) (inl refl)
          (λ x e. e) (λ kept. absurd (ground (arith, kept, skipped)))
    | inr kept ↦
        let (cseg, expanded, h₁) = >>=-eq-ok (expand gp) _ (rw kept at h) in
        let (dur, timed, h₂) = >>=-eq-ok (dur_of k cseg) _ h₁ in
        let b' = keep_better f b dur cseg in
        let own : Tried gp = record {
          kept = kept;
          cseg = cseg;
          expanded = expanded;
          call = k;
          dur = dur;
          timed = timed;
        } in
        in_front gp gps b b' out (search_loop-Searched gps (suc k) b' h₂) (came b gp gps own)
          (λ x e. keep_better-lt b dur x cseg e) (λ _. (own, keep_better_self b dur cseg))
  ]
    where
      came :
          (b : Best f) (gp : List ℕ) (gps : List (List ℕ)) (t : Tried gp)
          → (keep_better f b t.dur t.cseg ≡ b)
            ⊎ CameFromTry (gp ∷ gps) (keep_better f b t.dur t.cseg)
      came b gp gps t =
          unfold keep_better in
          elim (Bool-cases (f.lt t.dur b.min_dur)) [
            | inl less ↦ inr (gp, here, t, rw less refl, rw less refl)
            | inr not_less ↦ inl (rw not_less refl)
          ]

  -- A search that starts with no segmentation ends with one that was tried, and no partition that is
  -- not skipped has a lesser duration.
  pub search_loop-IsLeast :
      (gps : List (List ℕ)) (huge : f.F) {out : Best f} {cseg : List ℕ}
      → search_loop f skip expand dur_of 0 (record { min_dur = huge; best_cseg = none }) gps
        ≡ ok out
      → out.best_cseg ≡ some cseg
      → CameFromTry gps out × IsLeast gps out
  search_loop-IsLeast gps huge {out} h found =
      let start : Best f = record { min_dur = huge; best_cseg = none } in
      let v = search_loop-Searched gps 0 start h in
      elim v.source [
        | inr made ↦ (made, v.least)
        | inl same ↦
            absurd (let bad = ap (λ (r : Best f). r.best_cseg) same in ground (arith, bad, found))
      ]
