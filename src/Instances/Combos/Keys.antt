-- ===== src/Instances/Combos/Keys.antt =====
-- The round trip of a combination through its key, and what a canonical combination is.
use text.Mathlib.TextEquality.{eq_iff}
use text.Mathlib.TextPositions.{eq_refl}
use ooverlap.Prelude.{◌≡◌, ◌≢◌, refl, ap, inl, inr, ◌↔◌, Bool, true, ◌&&◌, some, Bool-cases, arith}
use ooverlap.Prelude.Int.{ℤ, negsuc, int_eq, int_eq_iff}
use ooverlap.Prelude.Result.{ok}
use ooverlap.Instances.{
  Stages, auto, count, Scheduler, normal, stream_k, RawCombo, Combo, Texts, IsPython,
}
use ooverlap.Instances.Combos.{
  normalize_scheduler, normalize_stages, normalize_split_k, is_supported_combo, is_mainloop,
  is_epilogue, get_text, canonical_combo, Key, combo_key, combo_from_key, stages_eq, scheduler_eq,
  key_eq, stages_cell, scheduler_text, raw_of,
}

stages_eq_iff : (a b : Stages) → (stages_eq a b ≡ true) ↔ (a ≡ b)
unfolding stages_eq
stages_eq_iff auto auto = (λ h. refl, λ h. refl)
stages_eq_iff auto (count n) = (λ h. cc, λ h. cc)
stages_eq_iff (count m) auto = (λ h. cc, λ h. cc)
stages_eq_iff (count m) (count n) =
    (λ h. ap count ((int_eq_iff m n).0 h), λ h. (int_eq_iff m n).1 (cc))

scheduler_eq_iff : (a b : Scheduler) → (scheduler_eq a b ≡ true) ↔ (a ≡ b)
unfolding scheduler_eq
scheduler_eq_iff normal normal = (λ h. refl, λ h. refl)
scheduler_eq_iff normal stream_k = (λ h. cc, λ h. cc)
scheduler_eq_iff stream_k normal = (λ h. cc, λ h. cc)
scheduler_eq_iff stream_k stream_k = (λ h. refl, λ h. refl)

and_split : {a b : Bool} → a && b ≡ true → (a ≡ true) × (b ≡ true)
and_split {a} {b} h = (ground (arith, h), ground (arith, h))

int_eq_refl : (a : ℤ) → int_eq a a ≡ true
int_eq_refl a = (int_eq_iff a a).1 refl

stages_eq_refl : (a : Stages) → stages_eq a a ≡ true
stages_eq_refl a = (stages_eq_iff a a).1 refl

scheduler_eq_refl : (a : Scheduler) → scheduler_eq a a ≡ true
scheduler_eq_refl a = (scheduler_eq_iff a a).1 refl

key_eq_refl : (a : Key) → key_eq a a ≡ true
unfolding key_eq
key_eq_refl a = simp (int_eq_refl, stages_eq_refl, scheduler_eq_refl, eq_refl)

-- Two keys pass the test of a `dict` exactly when they are the same.
pub key_eq_iff : (a b : Key) → (key_eq a b ≡ true) ↔ (a ≡ b)
unfolding key_eq
key_eq_iff a b = (
  λ h.
      let s9 = and_split h in
      let s8 = and_split s9.0 in
      let s7 = and_split s8.0 in
      let s6 = and_split s7.0 in
      let s5 = and_split s6.0 in
      let s4 = and_split s5.0 in
      let s3 = and_split s4.0 in
      let s2 = and_split s3.0 in
      let s1 = and_split s2.0 in
      let s0 = and_split s1.0 in
      λ i. record {
        tile_m = (int_eq_iff a.tile_m b.tile_m).0 s0.0 i;
        tile_n = (int_eq_iff a.tile_n b.tile_n).0 s0.1 i;
        tile_k = (int_eq_iff a.tile_k b.tile_k).0 s1.1 i;
        cluster_m = (int_eq_iff a.cluster_m b.cluster_m).0 s2.1 i;
        cluster_n = (int_eq_iff a.cluster_n b.cluster_n).0 s3.1 i;
        cluster_k = (int_eq_iff a.cluster_k b.cluster_k).0 s4.1 i;
        stages = (stages_eq_iff a.stages b.stages).0 s5.1 i;
        mainloop = (eq_iff a.mainloop b.mainloop).0 s6.1 i;
        epilogue = (eq_iff a.epilogue b.epilogue).0 s7.1 i;
        scheduler = (scheduler_eq_iff a.scheduler b.scheduler).0 s8.1 i;
        split_k = (int_eq_iff a.split_k b.split_k).0 s9.1 i;
      },
  λ e. rw (← e) (key_eq_refl a),
)

-- What `canonical_combo` checked.
pub record IsCanonical (p : Texts) (c : Combo) : Type 0 where
  pub mainloop : is_mainloop c.mainloop ≡ true
  pub epilogue : is_epilogue c.epilogue ≡ true
  pub supported : is_supported_combo p c.mainloop (scheduler_text c.scheduler) ≡ true

pub canonical_combo-IsCanonical :
    (p : Texts) (x : RawCombo) {c : Combo} → canonical_combo p x ≡ ok c → IsCanonical p c
unfolding canonical_combo
canonical_combo-IsCanonical p x {c} h = record {
  mainloop = ground (arith, h);
  epilogue = ground (arith, h);
  supported = ground (arith, h);
}

module _ (p : Texts) (python : IsPython p) where
  normalize_scheduler-scheduler_text :
      (s : Scheduler) → normalize_scheduler p (some (scheduler_text s)) ≡ s
  unfolding normalize_scheduler scheduler_text
  normalize_scheduler-scheduler_text normal = rw python.normal refl
  normalize_scheduler-scheduler_text stream_k = rw python.stream_k refl

  -- One number of stages has two meanings: the text of -1 is that of `auto`.
  normalize_stages-stages_cell :
      (s : Stages) → s ≢ count (negsuc 0) → normalize_stages p (some (stages_cell s)) ≡ ok s
  unfolding normalize_stages stages_cell
  normalize_stages-stages_cell auto apart = rw python.auto refl
  normalize_stages-stages_cell (count n) apart = elim (Bool-cases (int_eq n (negsuc 0))) [
    | inl same ↦ absurd (apart (ap count ((int_eq_iff n (negsuc 0)).0 same)))
    | inr other ↦ rw other refl
  ]

  -- A combination whose stages are not the number -1 has a key, and is the same after a trip through it.
  pub combo_from_key-combo_key :
      (c : Combo)
      → c.stages ≢ count (negsuc 0)
      → (k : Key) × (combo_key p (raw_of c) ≡ ok k) × (combo_from_key k ≡ c)
  unfolding combo_key raw_of combo_from_key normalize_split_k get_text
  combo_from_key-combo_key c apart =
      let sched = normalize_scheduler-scheduler_text c.scheduler in
      let stages = normalize_stages-stages_cell c.stages apart in
      (
        record {
          tile_m = c.tile_m;
          tile_n = c.tile_n;
          tile_k = c.tile_k;
          cluster_m = c.cluster_m;
          cluster_n = c.cluster_n;
          cluster_k = c.cluster_k;
          stages = c.stages;
          mainloop = c.mainloop;
          epilogue = c.epilogue;
          scheduler = c.scheduler;
          split_k = c.split_k;
        },
        rw stages (rw sched refl),
        refl,
      )

  -- A combination that passes the checks of `canonical_combo`, and whose stages are not the number -1, stays as it
  -- is when it is made canonical again.
  pub canonical_combo_idem :
      (c : Combo)
      → IsCanonical p c
      → c.stages ≢ count (negsuc 0)
      → canonical_combo p (raw_of c) ≡ ok c
  unfolding canonical_combo raw_of normalize_split_k get_text
  canonical_combo_idem c v apart =
      let sched = normalize_scheduler-scheduler_text c.scheduler in
      let stages = normalize_stages-stages_cell c.stages apart in
      rw (sched, v.mainloop, v.epilogue, v.supported, stages) refl
