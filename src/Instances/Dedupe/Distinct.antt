-- ===== src/Instances/Dedupe/Distinct.antt =====
-- What `dedupe` returns: one canonical combination for each key of its input.
use ooverlap.Prelude.{◌≡◌, ◌≢◌, sym, ap, ◌∙◌, inl, inr, List, [], ◌∷◌}
use ooverlap.Prelude.Membership.{In, here, there, In-cons}
use ooverlap.Prelude.Result.{ok, >>=-eq-ok, ok-injective}
use ooverlap.Prelude.Sorting.{sort_by, In-sort_by, In-sort_by_cases}
use ooverlap.Prelude.Pairwise.{Pairwise, Pairwise-sort_by, In-fetch}
use ooverlap.Instances.{RawCombo, Combo, Texts}
use ooverlap.Instances.Combos.{canonical_combo, Key, key_eq}
use ooverlap.Instances.Combos.Keys.{key_eq_iff}
use ooverlap.Instances.Dedupe.{Entries, add_combos, combo_le, combos_of, dedupe}
use ooverlap.Instances.Dedupe.Rounds.{
  key_of, HaveOtherKeys, IsEntryOf, IsIndexOf, IsIndexOf-add_combos, covered,
}

module _ (p : Texts) where
  -- The abstract view of `dedupe`: a set of keys, each with one combination.
  pub record IsSetOf (xs : List RawCombo) (out : List Combo) : Type 0 where
    pub distinct : Pairwise (HaveOtherKeys p) out
    pub from_input :
        (c : Combo) → In c out → (x : RawCombo) × In x xs × (canonical_combo p x ≡ ok c)
    pub covers :
        (x : RawCombo) (c : Combo)
        → In x xs
        → canonical_combo p x ≡ ok c
        → (d : Combo) × In d out × (key_of p d ≡ key_of p c)

  In-combos_of : {k : Key} {c : Combo} (d : Entries) → In (k, c) d → In c (combos_of d)
  unfolding combos_of
  In-combos_of [] m = elim m [ ]
  In-combos_of {k} {c} ((j, w) ∷ d) m = elim (In-cons m) [
    | inl e ↦ rw (ap (λ (x : Key × Combo). x.1) e) here
    | inr old ↦ there (In-combos_of d old)
  ]

  In-combos_of_inv : {c : Combo} (d : Entries) → In c (combos_of d) → (k : Key) × In (k, c) d
  unfolding combos_of
  In-combos_of_inv [] m = elim m [ ]
  In-combos_of_inv ((j, w) ∷ d) m = elim (In-cons m) [
    | inl e ↦ (j, rw e here)
    | inr old ↦ let (k, i) = In-combos_of_inv d old in (k, there i)
  ]

  Pairwise-combos_of :
      (xs : List RawCombo) (d : Entries)
      → Pairwise (λ a b. a.0 ≢ b.0) d
      → ((e : Key × Combo) → In e d → IsEntryOf p xs e)
      → Pairwise (HaveOtherKeys p) (combos_of d)
  unfolding combos_of
  Pairwise-combos_of xs [] u v = tt
  Pairwise-combos_of xs ((j, w) ∷ d) u v = (
    λ y m same.
        let (k, i) = In-combos_of_inv d m in
        let (x, x_in, canon, key) = v (j, w) here in
        let (x', x_in', canon', key') = v (k, y) (there i) in
        u.0 (k, y) i (ok-injective (sym key ∙ same ∙ key')),
    Pairwise-combos_of xs d u.1 (λ e m. v e (there m)),
  )

  -- Where `dedupe` returns, its list stands for the set of the keys of the combinations that are supported: no two
  -- items have the same key, each is the canonical form of an item of the input, and each supported item of the input
  -- has its key among them.
  pub dedupe-IsSetOf :
      (xs : List RawCombo) {out : List Combo} → dedupe p xs ≡ ok out → IsSetOf xs out
  unfolding dedupe
  dedupe-IsSetOf xs {out} h =
      let (d, loop, e) =
        >>=-eq-ok (add_combos p xs []) (λ d. ok (sort_by (combo_le p) (combos_of d))) h in
      let e_out : sort_by (combo_le p) (combos_of d) ≡ out = ok-injective e in
      let start : IsIndexOf p xs [] = record { distinct = tt; entries = λ a m. elim m [ ] } in
      let v = IsIndexOf-add_combos p xs xs (λ y m. m) start loop in
      rw (← e_out) (record {
        distinct =
            Pairwise-sort_by (HaveOtherKeys p) (λ x y apart e. apart (sym e)) (combo_le p)
              (combos_of d) (Pairwise-combos_of xs d v.distinct v.entries);
        from_input = λ c m.
            let (k, i) = In-combos_of_inv d (In-sort_by_cases (combo_le p) (combos_of d) m) in
            let (x, x_in, canon, key) = v.entries (k, c) i in (x, x_in, canon);
        covers = λ x c m r.
            let (k, key, (w, found)) = covered p x c xs [] m r loop in
            let i = In-fetch key_eq key_eq_iff k d found in
            let (x', x_in', canon', key') = v.entries (k, w) i in
            (w, In-sort_by (combo_le p) (combos_of d) (In-combos_of d i), key' ∙ sym key);
      })
