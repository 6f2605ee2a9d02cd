-- ===== src/Instances/Dedupe/Total.antt =====
-- When `dedupe` returns, and what.
use ooverlap.Prelude.{◌≡◌, refl, inl, inr, some, List, [], ◌∷◌, if◌then◌else◌}
use ooverlap.Prelude.Int.{negsuc, int_eq}
use ooverlap.Prelude.Membership.{In, here, there}
use ooverlap.Prelude.Result.{Result, ok, err, Error, value_error, Result-cases}
use ooverlap.Prelude.Sorting.{sort_by}
use ooverlap.Prelude.Pairwise.{store}
use ooverlap.Instances.{Stages, auto, count, RawCombo, Combo, Texts, IsPython}
use ooverlap.Instances.Combos.{
  canonical_combo, Key, key_eq, combo_key, raw_of, normalize_stages, stages_cell, normalize_split_k,
}
use ooverlap.Instances.Dedupe.{Entries, add_canonical, add_combos, combo_le, combos_of, dedupe}
use ooverlap.Instances.Dedupe.Distinct.{IsSetOf, dedupe-IsSetOf}

module _ (p : Texts) (python : IsPython p) where
  -- What `normalize_stages` returned it accepts again.
  normalize_stages-returns :
      (s : Stages) → (t : Stages) × (normalize_stages p (some (stages_cell s)) ≡ ok t)
  unfolding normalize_stages stages_cell
  normalize_stages-returns auto = (auto, rw python.auto refl)
  normalize_stages-returns (count n) = (if int_eq n (negsuc 0) then auto else count n, refl)

  -- Each combination that is canonical has a key.
  pub combo_key-returns : (c : Combo) → (k : Key) × (combo_key p (raw_of c) ≡ ok k)
  unfolding combo_key raw_of normalize_split_k
  combo_key-returns c =
      let (t, e) = normalize_stages-returns c.stages in
      elim (Result-cases (combo_key p (raw_of c))) [
        | inl found ↦ found
        | inr raised ↦ let clash = (rw e at raised.1) in cc
      ]

  add_canonical-returns :
      (d : Entries) (r : Result Combo)
      → ((e : Error) → r ≡ err e → e ≡ value_error)
      → (out : Entries) × (add_canonical p d r ≡ ok out)
  unfolding add_canonical
  add_canonical-returns d (ok c) only =
      let (k, key) = combo_key-returns c in (store key_eq k c d, rw key refl)
  add_canonical-returns d (err e) only = (d, rw (only e refl) refl)

  add_combos-returns :
      (xs : List RawCombo) (d : Entries)
      → ((x : RawCombo) → In x xs → (e : Error) → canonical_combo p x ≡ err e → e ≡ value_error)
      → (out : Entries) × (add_combos p xs d ≡ ok out)
  unfolding add_combos
  add_combos-returns [] d only = (d, refl)
  add_combos-returns (x ∷ xs) d only =
      let (next, e) = add_canonical-returns d (canonical_combo p x) (only x here) in
      let (out, rest) = add_combos-returns xs next (λ y m. only y (there m)) in (out, rw e rest)

  -- Where no combination of the input raises anything but a `ValueError`, `dedupe` returns, and its list stands for the
  -- set of the keys of the combinations that are supported: no two items have the same key, each is the canonical form
  -- of an item of the input, and each supported item of the input has its key among them.
  pub dedupe-refines :
      (xs : List RawCombo)
      → ((x : RawCombo) → In x xs → (e : Error) → canonical_combo p x ≡ err e → e ≡ value_error)
      → (out : List Combo) × (dedupe p xs ≡ ok out) × IsSetOf p xs out
  unfolding dedupe
  dedupe-refines xs only =
      let (d, e) = add_combos-returns xs [] only in
      let out : List Combo = sort_by (combo_le p) (combos_of d) in
      let returned : dedupe p xs ≡ ok out = rw e refl in
      (out, returned, dedupe-IsSetOf p xs returned)
