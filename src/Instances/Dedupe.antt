-- ===== src/Instances/Dedupe.antt =====
-- `dedupe`: the algorithms without repetitions, in the order of their numbers.
pub mod Rounds
pub mod Distinct
pub mod Total
use Prim.Native.String.{String, compare}
use text.Mathlib.Text.{◌==◌ as str_eq, is_lt}
use ooverlap.Prelude.{
  ℕ, Bool, true, false, Option, none, some, List, [], ◌∷◌, map, ltb, if◌then◌else◌,
}
use ooverlap.Prelude.Int.{ℤ, pos, negsuc, int_eq}
use ooverlap.Prelude.Result.{Result, ok, err, value_error, ◌>>=◌}
use ooverlap.Prelude.Sorting.{sort_by}
use ooverlap.Prelude.Pairwise.{store}
use ooverlap.Instances.{Stages, auto, count, RawCombo, Combo, Texts}
use ooverlap.Instances.Combos.{canonical_combo, Key, key_eq, combo_key, raw_of, scheduler_text}

abbrev pub Entries : Type 0
Entries = List (Key × Combo)

-- The body of the loop: a combination that is not supported is skipped, another exception is not caught.
unfoldable pub add_canonical : Texts → Entries → Result Combo → Result Entries
add_canonical p by_key (ok cc) = do k ← combo_key p (raw_of cc); ok (store key_eq k cc by_key)
add_canonical p by_key (err value_error) = ok by_key
add_canonical p by_key (err raised) = err raised

unfoldable pub add_combos : Texts → List RawCombo → Entries → Result Entries
add_combos p [] by_key = ok by_key
add_combos p (c ∷ combos) by_key = do
  next ← add_canonical p by_key (canonical_combo p c)
  add_combos p combos next

unfoldable pub stages_text : Texts → Stages → String
stages_text p auto = "auto"
stages_text p (count n) = p.int_text n

unfoldable pub int_lt : ℤ → ℤ → Bool
int_lt (pos a) (pos b) = ltb a b
int_lt (pos a) (negsuc b) = false
int_lt (negsuc a) (pos b) = true
int_lt (negsuc a) (negsuc b) = ltb b a

-- Tuples are compared at the first place where they differ.
unfoldable pub tuple_le : List (ℤ × ℤ) → Bool → Bool
tuple_le [] rest = rest
tuple_le ((a, b) ∷ more) rest =
    let later = tuple_le more rest in
    if int_lt a b then true else if int_eq a b then later else false

unfoldable pub text_le : String → String → Bool → Bool
text_le a b rest = if is_lt (compare a b) then true else if str_eq a b then rest else false

-- The order of the keys by which `dedupe` sorts.
unfoldable pub combo_le : Texts → Combo → Combo → Bool
combo_le p a b =
    let split = tuple_le ((a.split_k, b.split_k) ∷ []) true in
    let stages = text_le (stages_text p a.stages) (stages_text p b.stages) split in
    let sizes =
      tuple_le
        ((a.tile_m, b.tile_m)
          ∷ (a.tile_n, b.tile_n)
          ∷ (a.tile_k, b.tile_k)
          ∷ (a.cluster_m, b.cluster_m)
          ∷ (a.cluster_n, b.cluster_n)
          ∷ (a.cluster_k, b.cluster_k)
          ∷ [])
        stages in
    text_le a.mainloop b.mainloop
      (text_le (scheduler_text a.scheduler) (scheduler_text b.scheduler) sizes)

unfoldable pub combos_of : Entries → List Combo
combos_of [] = []
combos_of ((k, c) ∷ by_key) = c ∷ combos_of by_key

unfoldable pub dedupe : Texts → List RawCombo → Result (List Combo)
dedupe p combos = do by_key ← add_combos p combos []; ok (sort_by (combo_le p) (combos_of by_key))
