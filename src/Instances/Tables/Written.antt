-- ===== src/Instances/Tables/Written.antt =====
-- What a number means in the files that `write_all` makes.
use ooverlap.Prelude.{ℕ, ◌+◌, arith, ◌≡◌, refl, sym, ap, ◌∙◌, some, List, [], ◌∷◌, get_elem?}
use ooverlap.Prelude.Result.{ok, >>=-eq-ok, ok-injective}
use ooverlap.Prelude.Pairwise.{Pairwise, fetch}
use ooverlap.Instances.{Combo, Texts}
use ooverlap.Instances.Combos.{Key, key_eq, combo_key, combo_from_key, raw_of}
use ooverlap.Instances.Dedupe.Rounds.{key_of, HaveOtherKeys}
use ooverlap.Instances.Tables.{
  TemplateArgs, AlgoMeta, AlgoDict, Instances, Output, cpp_template_args, algo_meta, map_result,
  index_from, item, algorithm, write_algo_dicts, write_signal_instances, write_plain_instances,
  write_all,
}
use ooverlap.Instances.Tables.Numbers.{map_result-get_elem?, index_from-fetch}

module _ (p : Texts) where
  -- The rows of one GEMM path for a candidate.
  pub record IsRow (t : Instances) (i : ℕ) (c : Combo) : Type 0 where
    pub instance_args :
        (a : TemplateArgs) × (cpp_template_args p c ≡ ok a)
        × (get_elem? t.inc i ≡ some a)
        × (get_elem? t.func_table i ≡ some a)
    pub meta_row : (m : AlgoMeta) × (algo_meta p c ≡ ok m) × (get_elem? t.meta i ≡ some m)

  -- What the number `i` means where it is used for the candidate `c`.
  pub record IsNumberOf (o : Output) (i : ℕ) (c : Combo) : Type 0 where
    pub entry :
        (k : Key) × (key_of p c ≡ ok k)
        × (fetch key_eq k o.algo_dict.index ≡ some i)
        × (get_elem? o.algo_dict.algorithms i ≡ some (i, combo_from_key k))
    pub signal : IsRow o.signal i c
    pub plain : IsRow o.plain i c

  pub algorithm-of_key :
      (index : List (Key × ℕ)) (c : Combo) (k : Key) {i : ℕ} {a : ℕ × Combo}
      → key_of p c ≡ ok k
      → fetch key_eq k index ≡ some i
      → algorithm p index c ≡ ok a
      → a ≡ (i, combo_from_key k)
  unfolding algorithm item
  algorithm-of_key index c k key found h = ok-injective (sym h ∙ rw (key, found) refl)

  module _ (cs : List Combo) (i : ℕ) {c : Combo} (e : get_elem? cs i ≡ some c) where
    IsRow-signal : {t : Instances} → write_signal_instances p cs ≡ ok t → IsRow t i c
    unfolding write_signal_instances
    IsRow-signal {t} h =
        let (inc, made, rest) = >>=-eq-ok (map_result (cpp_template_args p) cs) _ h in
        let (table, again, more) = >>=-eq-ok (map_result (cpp_template_args p) cs) _ rest in
        let (meta, rows, whole) = >>=-eq-ok (map_result (algo_meta p) cs) _ more in
        let (a, args, in_inc) = map_result-get_elem? (cpp_template_args p) cs inc i made e in
        let (m, made_m, in_meta) = map_result-get_elem? (algo_meta p) cs meta i rows e in
        let same : inc ≡ table = ok-injective (sym made ∙ again) in
        rw (← ok-injective whole) (record {
          instance_args = (a, args, in_inc, rw (← same) in_inc);
          meta_row = (m, made_m, in_meta);
        })

    IsRow-plain : {t : Instances} → write_plain_instances p cs ≡ ok t → IsRow t i c
    unfolding write_signal_instances write_plain_instances
    IsRow-plain h = IsRow-signal h

    entry_of :
        {t : AlgoDict}
        → Pairwise (HaveOtherKeys p) cs
        → write_algo_dicts p cs ≡ ok t
        → (k : Key) × (key_of p c ≡ ok k)
          × (fetch key_eq k t.index ≡ some i)
          × (get_elem? t.algorithms i ≡ some (i, combo_from_key k))
    unfolding write_algo_dicts algorithm
    entry_of distinct h =
        let (index, made, rest) = >>=-eq-ok (index_from p 0 cs []) _ h in
        let (algorithms, numbered, whole) = >>=-eq-ok (map_result (algorithm p index) cs) _ rest in
        let (a, made_a, at_i) =
          map_result-get_elem? (algorithm p index) cs algorithms i numbered e in
        let (k, key, unused) = >>=-eq-ok (combo_key p (raw_of c)) _ made_a in
        let start : 0 + i ≡ i = omega arith in
        let found = index_from-fetch p 0 cs [] i distinct made e key ∙ ap some start in
        rw (← ok-injective whole)
          (k, key, found, at_i ∙ ap some (algorithm-of_key index c k key found made_a))

  -- Where the candidates have distinct keys, the number of each is its place, in all that is written.
  pub write_all-IsNumberOf :
      (cs : List Combo) {o : Output} (i : ℕ) {c : Combo}
      → Pairwise (HaveOtherKeys p) cs
      → write_all p cs ≡ ok o
      → get_elem? o.summary i ≡ some c
      → IsNumberOf o i c
  unfolding write_all
  write_all-IsNumberOf [] i distinct h e = cc
  write_all-IsNumberOf (b ∷ bs) {o} i {c} distinct h e =
      let cs = b ∷ bs in
      let (dict, made_dict, rest) = >>=-eq-ok (write_algo_dicts p cs) _ h in
      let (signal, made_signal, more) = >>=-eq-ok (write_signal_instances p cs) _ rest in
      let (plain, made_plain, whole) = >>=-eq-ok (write_plain_instances p cs) _ more in
      let written = ok-injective whole in
      let e' : get_elem? cs i ≡ some c = ap (λ (x : Output). get_elem? x.summary i) written ∙ e in
      rw (← written) (record {
        entry = entry_of cs i e' distinct made_dict;
        signal = IsRow-signal cs i e' made_signal;
        plain = IsRow-plain cs i e' made_plain;
      })
