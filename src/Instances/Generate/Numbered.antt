-- ===== src/Instances/Generate/Numbered.antt =====
-- What one run of the generator writes.
use ooverlap.Prelude.{ℕ, ◌≡◌, sym, ap, some, List, [], ◌∷◌, ◌++◌, get_elem?}
use ooverlap.Prelude.Membership.{In, In-append_left}
use ooverlap.Prelude.Result.{ok, >>=-eq-ok, ok-injective}
use ooverlap.Prelude.Pairwise.{Pairwise}
use ooverlap.Instances.{RawCombo, Combo, Texts}
use ooverlap.Instances.Combos.{canonical_combo}
use ooverlap.Instances.Builtin.{builtin_combos}
use ooverlap.Instances.Dedupe.{dedupe}
use ooverlap.Instances.Dedupe.Rounds.{key_of, HaveOtherKeys}
use ooverlap.Instances.Dedupe.Distinct.{dedupe-IsSetOf}
use ooverlap.Instances.Tables.{
  Output, write_algo_dicts, write_signal_instances, write_plain_instances, write_all,
}
use ooverlap.Instances.Tables.Written.{IsNumberOf, write_all-IsNumberOf}
use ooverlap.Instances.Generate.{Args, extra_combos, main}

-- The files agree on the numbers, and each algorithm that is always generated has one.
pub record IsNumbered (p : Texts) (o : Output) : Type 0 where
  pub distinct : Pairwise (HaveOtherKeys p) o.summary
  pub numbers : (i : ℕ) (c : Combo) → get_elem? o.summary i ≡ some c → IsNumberOf p o i c
  pub builtin :
      (x : RawCombo) (c : Combo)
      → In x (builtin_combos p)
      → canonical_combo p x ≡ ok c
      → (d : Combo) × In d o.summary × (key_of p d ≡ key_of p c)

summary-write_all :
    (p : Texts) (cs : List Combo) {o : Output} → write_all p cs ≡ ok o → o.summary ≡ cs
unfolding write_all
summary-write_all p [] h = cc
summary-write_all p (c ∷ cs) h =
    let (dict, made_dict, rest) = >>=-eq-ok (write_algo_dicts p (c ∷ cs)) _ h in
    let (signal, made_signal, more) = >>=-eq-ok (write_signal_instances p (c ∷ cs)) _ rest in
    let (plain, made_plain, whole) = >>=-eq-ok (write_plain_instances p (c ∷ cs)) _ more in
    sym (ap (λ (x : Output). x.summary) (ok-injective whole))

-- Where a run of the generator returns, the algorithms that it prints have distinct keys; the number i of one means the
-- i-th of them in the dictionary, in the JSON list, and in the instances, the function table and the meta data of both
-- paths; and each supported algorithm of the built-in list has its key among them.
pub main-IsNumbered : (p : Texts) (args : Args) {o : Output} → main p args ≡ ok o → IsNumbered p o
unfolding main
main-IsNumbered p args h =
    let (missing, e1, r1) =
      >>=-eq-ok (extra_combos p args.from_missing_json args.top_missing "missing") _ h in
    let (failed, e2, r2) =
      >>=-eq-ok (extra_combos p args.from_failed_json args.top_failed "failed") _ r1 in
    let (cs, e3, made) = >>=-eq-ok (dedupe p (builtin_combos p ++ missing ++ failed)) _ r2 in
    let set = dedupe-IsSetOf p (builtin_combos p ++ missing ++ failed) e3 in
    let whole = summary-write_all p cs made in
    record {
      distinct = rw whole set.distinct;
      numbers = λ i c e. write_all-IsNumberOf p cs i set.distinct made e;
      builtin = λ x c m r.
          let early = In-append_left (builtin_combos p) missing m in
          let (d, i, k) =
            set.covers x c (In-append_left (builtin_combos p ++ missing) failed early) r in
          (d, rw whole i, k);
    }
