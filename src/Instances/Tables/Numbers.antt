-- ===== src/Instances/Tables/Numbers.antt =====
-- The index of the algorithms, and lists that are made item by item.
use ooverlap.Prelude.{
  ℕ, zero, suc, ◌+◌, ◌≡◌, ◌≢◌, refl, sym, ap, ◌∙◌, inl, inr, some, List, [], ◌∷◌, length, get_elem?,
  arith, Bool-cases,
}
use ooverlap.Prelude.Membership.{In, here, there}
use ooverlap.Prelude.Result.{Result, ok, ◌>>=◌, >>=-eq-ok, ok-injective}
use ooverlap.Prelude.Pairwise.{Pairwise, fetch, store, fetch-store, fetch-store_self}
use ooverlap.Instances.{Combo, Texts}
use ooverlap.Instances.Combos.{Key, key_eq, combo_key, raw_of}
use ooverlap.Instances.Combos.Keys.{key_eq_iff}
use ooverlap.Instances.Dedupe.Rounds.{key_of, HaveOtherKeys}
use ooverlap.Instances.Tables.{map_result, index_from}

some_injective : {A : Type 0} {a b : A} → some a ≡ some b → a ≡ b
some_injective h = cc

module _ {A B : Type 0} (f : A → Result B) where
  map_result-∷ :
      (x : A) (xs : List A) {zs : List B}
      → map_result f (x ∷ xs) ≡ ok zs
      → (y : B) × (ys : List B) × (f x ≡ ok y) × (map_result f xs ≡ ok ys) × (y ∷ ys ≡ zs)
  unfolding map_result
  map_result-∷ x xs h =
      let (y, first, rest) = >>=-eq-ok (f x) (λ y. map_result f xs >>= λ ys. ok (y ∷ ys)) h in
      let (ys, more, e) = >>=-eq-ok (map_result f xs) (λ ys. ok (y ∷ ys)) rest in
      (y, ys, first, more, ok-injective e)

  pub map_result-get_elem? :
      (xs : List A) (ys : List B) (i : ℕ) {x : A}
      → map_result f xs ≡ ok ys
      → get_elem? xs i ≡ some x
      → (y : B) × (f x ≡ ok y) × (get_elem? ys i ≡ some y)
  map_result-get_elem? [] ys i h e = cc
  map_result-get_elem? (a ∷ xs) zs zero h e =
      let (y, ys, first, more, whole) = map_result-∷ a xs h in
      (y, ap f (sym (some_injective e)) ∙ first, rw (← whole) refl)
  map_result-get_elem? (a ∷ xs) zs (suc i) h e =
      let (y, ys, first, more, whole) = map_result-∷ a xs h in
      rw (← whole) (map_result-get_elem? xs ys i more e)

  pub length-map_result :
      (xs : List A) {ys : List B} → map_result f xs ≡ ok ys → length ys ≡ length xs
  unfolding map_result
  length-map_result [] h = ap length (sym (ok-injective h))
  length-map_result (x ∷ xs) h =
      let (y, ys, first, more, whole) = map_result-∷ x xs h in
      ap length (sym whole) ∙ ap suc (length-map_result xs more)

In-get_elem? : {A : Type 0} (xs : List A) (i : ℕ) {x : A} → get_elem? xs i ≡ some x → In x xs
In-get_elem? [] i h = cc
In-get_elem? (a ∷ xs) zero h = rw (some_injective h) here
In-get_elem? (a ∷ xs) (suc i) h = there (In-get_elem? xs i h)

module _ (p : Texts) where
  index_from-other :
      (s : ℕ) (cs : List Combo) (d : List (Key × ℕ)) {out : List (Key × ℕ)} (k : Key)
      → index_from p s cs d ≡ ok out
      → ((c : Combo) → In c cs → key_of p c ≢ ok k)
      → fetch key_eq k out ≡ fetch key_eq k d
  unfolding index_from
  index_from-other s [] d k h apart = ap (fetch key_eq k) (sym (ok-injective h))
  index_from-other s (c ∷ cs) d k h apart =
      let (j, key, rest) =
        >>=-eq-ok (combo_key p (raw_of c)) (λ j. index_from p (suc s) cs (store key_eq j s d)) h in
      let ih = index_from-other (suc s) cs (store key_eq j s d) k rest (λ b m. apart b (there m)) in
      elim (Bool-cases (key_eq j k)) [
        | inl same ↦ absurd (apart c here (key ∙ ap ok ((key_eq_iff j k).0 same)))
        | inr other ↦ ih ∙ rw (fetch-store key_eq key_eq_iff j k s d, other) refl
      ]

  -- Each candidate is found under its place.
  pub index_from-fetch :
      (s : ℕ) (cs : List Combo) (d : List (Key × ℕ)) {out : List (Key × ℕ)} (i : ℕ) {c : Combo}
      {k : Key}
      → Pairwise (HaveOtherKeys p) cs
      → index_from p s cs d ≡ ok out
      → get_elem? cs i ≡ some c
      → key_of p c ≡ ok k
      → fetch key_eq k out ≡ some (s + i)
  unfolding index_from
  index_from-fetch s [] d i u h e key = cc
  index_from-fetch s (b ∷ cs) d zero {c} {k} u h e key =
      let (j, key_b, rest) =
        >>=-eq-ok (combo_key p (raw_of b)) (λ j. index_from p (suc s) cs (store key_eq j s d)) h in
      let same : j ≡ k = ok-injective (sym key_b ∙ ap (key_of p) (some_injective e) ∙ key) in
      let kept =
        index_from-other (suc s) cs (store key_eq j s d) j rest
          (λ y m key_y. u.0 y m (key_b ∙ sym key_y)) in
      let found = kept ∙ fetch-store_self key_eq key_eq_iff j s d in
      let start : s ≡ s + 0 = omega arith in rw (← same) (found ∙ ap some start)
  index_from-fetch s (b ∷ cs) d (suc i) {c} {k} u h e key =
      let (j, key_b, rest) =
        >>=-eq-ok (combo_key p (raw_of b)) (λ j. index_from p (suc s) cs (store key_eq j s d)) h in
      let next : suc s + i ≡ s + suc i = omega arith in
      index_from-fetch (suc s) cs (store key_eq j s d) i u.1 rest e key ∙ ap some next
