-- ===== src/Instances/Dedupe/Rounds.antt =====
-- The loop of `dedupe`: what the index holds after each round.
use ooverlap.Prelude.{◌≡◌, ◌≢◌, refl, sym, ap, ◌∙◌, inl, inr, some, List, [], ◌∷◌, Bool-cases}
use ooverlap.Prelude.Membership.{In, here, there, In-cons}
use ooverlap.Prelude.Result.{
  Result, ok, err, value_error, runtime_error, file_not_found, key_error, index_error, type_error,
  zero_division, overflow_error, assertion_error, system_exit, unmodelled, >>=-eq-ok, ok-injective,
}
use ooverlap.Prelude.Pairwise.{
  Pairwise, fetch, store, fetch-store, fetch-store_self, In-store_cases, Pairwise-store,
}
use ooverlap.Instances.{RawCombo, Combo, Texts}
use ooverlap.Instances.Combos.{canonical_combo, Key, key_eq, combo_key, raw_of}
use ooverlap.Instances.Combos.Keys.{key_eq_iff}
use ooverlap.Instances.Dedupe.{Entries, add_canonical, add_combos}

module _ (p : Texts) where
  -- The key of a combination, as an outcome.
  abbrev pub key_of : Combo → Result Key
  key_of c = combo_key p (raw_of c)

  abbrev pub HaveOtherKeys : Combo → Combo → Type 0
  HaveOtherKeys a b = key_of a ≢ key_of b

  -- An entry that the loop made: of a combination of the input, under its key.
  abbrev pub IsEntryOf : List RawCombo → Key × Combo → Type 0
  IsEntryOf xs (k, c) = (x : RawCombo) × In x xs × (canonical_combo p x ≡ ok c) × (key_of c ≡ ok k)

  -- What one round does.
  data Round (by_key : Entries) (r : Result Combo) (next : Entries) : Type 0 where
    skipped : r ≡ err value_error → next ≡ by_key → Round by_key r next
    stored :
        (c : Combo) (k : Key)
        → r ≡ ok c
        → key_of c ≡ ok k
        → next ≡ store key_eq k c by_key
        → Round by_key r next

  add_canonical-Round :
      (by_key : Entries) (r : Result Combo) {next : Entries}
      → add_canonical p by_key r ≡ ok next
      → Round by_key r next
  unfolding add_canonical
  add_canonical-Round by_key (ok c) h =
      let (k, key, e) = >>=-eq-ok (combo_key p (raw_of c)) (λ k. ok (store key_eq k c by_key)) h in
      stored c k refl key (sym (ok-injective e))
  add_canonical-Round by_key (err value_error) h = skipped refl (sym (ok-injective h))
  add_canonical-Round by_key (err runtime_error) h = cc
  add_canonical-Round by_key (err file_not_found) h = cc
  add_canonical-Round by_key (err key_error) h = cc
  add_canonical-Round by_key (err index_error) h = cc
  add_canonical-Round by_key (err type_error) h = cc
  add_canonical-Round by_key (err zero_division) h = cc
  add_canonical-Round by_key (err overflow_error) h = cc
  add_canonical-Round by_key (err assertion_error) h = cc
  add_canonical-Round by_key (err system_exit) h = cc
  add_canonical-Round by_key (err unmodelled) h = cc

  pub record IsIndexOf (xs : List RawCombo) (by_key : Entries) : Type 0 where
    pub distinct : Pairwise (λ a b. a.0 ≢ b.0) by_key
    pub entries : (e : Key × Combo) → In e by_key → IsEntryOf xs e

  IsIndexOf-Round :
      (xs : List RawCombo) {by_key next : Entries} (x : RawCombo)
      → In x xs
      → IsIndexOf xs by_key
      → Round by_key (canonical_combo p x) next
      → IsIndexOf xs next
  IsIndexOf-Round xs x m v (skipped r e) = rw e v
  IsIndexOf-Round xs {by_key} x m v (stored c k r key e) = rw e (record {
    distinct = Pairwise-store key_eq key_eq_iff k c by_key v.distinct;
    entries = λ a a_in. elim (In-store_cases key_eq key_eq_iff k c by_key v.distinct a_in) [
      | inl same ↦ rw same (x, m, r, key)
      | inr old ↦ v.entries a old.0
    ];
  })

  pub IsIndexOf-add_combos :
      (xs ys : List RawCombo) {by_key out : Entries}
      → ((y : RawCombo) → In y ys → In y xs)
      → IsIndexOf xs by_key
      → add_combos p ys by_key ≡ ok out
      → IsIndexOf xs out
  unfolding add_combos
  IsIndexOf-add_combos xs [] part v h = rw (← ok-injective h) v
  IsIndexOf-add_combos xs (y ∷ ys) {by_key} part v h =
      let (next, e, rest) =
        >>=-eq-ok (add_canonical p by_key (canonical_combo p y)) (add_combos p ys) h in
      let w =
        IsIndexOf-Round xs y (part y here) v (add_canonical-Round by_key (canonical_combo p y) e) in
      IsIndexOf-add_combos xs ys (λ z m. part z (there m)) w rest

  abbrev pub HasKey : Key → Entries → Type 0
  HasKey k by_key = (d : Combo) × (fetch key_eq k by_key ≡ some d)

  HasKey-store : (j k : Key) (c : Combo) (d : Entries) → HasKey k d → HasKey k (store key_eq j c d)
  HasKey-store j k c d (v, e) = elim (Bool-cases (key_eq j k)) [
    | inl same ↦ (c, rw (fetch-store key_eq key_eq_iff j k c d, same) refl)
    | inr other ↦ (v, rw (fetch-store key_eq key_eq_iff j k c d, other) e)
  ]

  HasKey-Round :
      (k : Key) {by_key next : Entries} {r : Result Combo}
      → HasKey k by_key
      → Round by_key r next
      → HasKey k next
  HasKey-Round k h (skipped r e) = rw e h
  HasKey-Round k {by_key} h (stored c j r key e) = rw e (HasKey-store j k c by_key h)

  HasKey-add_combos :
      (k : Key) (ys : List RawCombo) (by_key : Entries) {out : Entries}
      → HasKey k by_key
      → add_combos p ys by_key ≡ ok out
      → HasKey k out
  unfolding add_combos
  HasKey-add_combos k [] by_key v h = rw (← ok-injective h) v
  HasKey-add_combos k (y ∷ ys) by_key v h =
      let (next, e, rest) =
        >>=-eq-ok (add_canonical p by_key (canonical_combo p y)) (add_combos p ys) h in
      HasKey-add_combos k ys next
        (HasKey-Round k v (add_canonical-Round by_key (canonical_combo p y) e)) rest

  HasKey-stored :
      {by_key next : Entries} {r : Result Combo} (c : Combo)
      → Round by_key r next
      → r ≡ ok c
      → (k : Key) × (key_of c ≡ ok k) × HasKey k next
  HasKey-stored c (skipped r e) h = cc
  HasKey-stored {by_key} c (stored d k r key e) h =
      let same : d ≡ c = ok-injective (sym r ∙ h) in
      (k, rw same at key, (d, rw e (fetch-store_self key_eq key_eq_iff k d by_key)))

  -- A combination of the input has its key in the index.
  pub covered :
      (x : RawCombo) (c : Combo) (ys : List RawCombo) (by_key : Entries) {out : Entries}
      → In x ys
      → canonical_combo p x ≡ ok c
      → add_combos p ys by_key ≡ ok out
      → (k : Key) × (key_of c ≡ ok k) × HasKey k out
  unfolding add_combos
  covered x c [] by_key m r h = elim m [ ]
  covered x c (y ∷ ys) by_key m r h =
      let (next, e, rest) =
        >>=-eq-ok (add_canonical p by_key (canonical_combo p y)) (add_combos p ys) h in
      elim (In-cons m) [
        | inl same ↦
            let made = add_canonical-Round by_key (canonical_combo p y) e in
            let (k, key, v) = HasKey-stored c made (ap (canonical_combo p) (sym same) ∙ r) in
            (k, key, HasKey-add_combos k ys next v rest)
        | inr old ↦ covered x c ys next old r rest
      ]
