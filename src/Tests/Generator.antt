-- ===== src/Tests/Generator.antt =====
-- Runs of the instance generator at concrete inputs.
use text.Mathlib.Text.{◌==◌ as str_eq}
use ooverlap.Prelude.{
  ◌≡◌, ◌≢◌, refl, Bool, true, false, none, some, List, [], ◌∷◌, length, if◌then◌else◌, inr, arith,
}
use ooverlap.Prelude.Int.{pos, negsuc, int_eq}
use ooverlap.Prelude.Membership.{In, here, there}
use ooverlap.Prelude.Pairwise.{store, fetch}
use ooverlap.Prelude.Sorting.{insert_by, sort_by}
use ooverlap.Prelude.Result.{Result, ok, err, Error, value_error}
use ooverlap.Instances.{count, stream_k, written, RawCombo, Combo, Texts, IsPython}
use ooverlap.Instances.Combos.{
  canonical_combo, normalize_scheduler, normalize_stages, normalize_split_k, is_stream_k,
  is_supported_combo, is_mainloop, is_epilogue, get_text, Key, key_eq, stages_eq, scheduler_eq,
  combo_key, combo_from_key, raw_of, stages_cell, scheduler_text,
}
use ooverlap.Instances.Combos.Keys.{IsCanonical, combo_from_key-combo_key, canonical_combo_idem}
use ooverlap.Instances.Builtin.{
  builtin_combos, base_combos, curated_combos, base_combo, curated_combo, is_base_skip,
}
use ooverlap.Instances.Dedupe.{
  dedupe, add_canonical, add_combos, combos_of, combo_le, text_le, tuple_le, int_lt, stages_text,
}
use ooverlap.Instances.Dedupe.Distinct.{IsSetOf}
use ooverlap.Instances.Dedupe.Total.{dedupe-refines}
use ooverlap.Prelude.Substring.{includes}
use ooverlap.Instances.Rows.{
  Row, JsonRows, row_list, rows_from_json_obj, is_taken, is_some, is_f16_row, infer_scheduler,
  combo_of_row, field, get_cell, with_row, load_rows_json,
}
use ooverlap.Instances.Rows.Limit.{all_taken, load_rows_json-take}
use ooverlap.Instances.Generate.{Args, main, extra_combos}
use ooverlap.Instances.Tables.{
  Output, write_all, write_algo_dicts, write_signal_instances, write_plain_instances, algo_meta,
  meta_stages, algorithm, item, index_from, map_result, cpp_template_args, mainloop_type,
  epilogue_type, scheduler_type,
}
use ooverlap.Instances.Generate.Numbered.{IsNumbered, main-IsNumbered}

-- Texts in which each letter is a small one; the only number among them is `"4"`.
abbrev small_texts : Texts
small_texts = record {
  strip = λ s. s;
  strip_lower = λ s. s;
  strip_lower_underscore = λ s. s;
  int_of_float = λ s. if str_eq s "4" then ok (pos 4) else err value_error;
  int_text = λ n. if int_eq n (pos 4) then "4" else "5";
}

small_texts-IsPython : IsPython small_texts
small_texts-IsPython = record { auto = refl; normal = refl; stream_k = refl; cooperative = refl }

-- With no files there are 81 - 18 combinations of the base tiles in three clusters and 45 curated ones.
length-builtin_combos : length (builtin_combos small_texts) ≡ 108
unfolding builtin_combos base_combos curated_combos is_base_skip is_supported_combo
    normalize_scheduler is_stream_k scheduler_text
length-builtin_combos = refl

abbrev some_raw : RawCombo
some_raw = record {
  tile_m = pos 128;
  tile_n = pos 128;
  tile_k = pos 64;
  cluster_m = pos 1;
  cluster_n = pos 2;
  cluster_k = pos 1;
  stages = some (written "4");
  mainloop = some "cooperative";
  epilogue = none;
  scheduler = some "stream_k";
  split_k = none;
}

abbrev refused_raw : RawCombo
refused_raw = record some_raw { mainloop = some "pingpong" }

abbrev some_combo : Combo
some_combo = record {
  tile_m = pos 128;
  tile_n = pos 128;
  tile_k = pos 64;
  cluster_m = pos 1;
  cluster_n = pos 2;
  cluster_k = pos 1;
  stages = count (pos 4);
  mainloop = "cooperative";
  epilogue = "auto";
  scheduler = stream_k;
  split_k = pos 1;
}

some_raw-canonical : canonical_combo small_texts some_raw ≡ ok some_combo
unfolding canonical_combo normalize_scheduler normalize_stages normalize_split_k is_stream_k
    is_supported_combo is_mainloop is_epilogue get_text scheduler_text
some_raw-canonical = refl

refused_raw-canonical : canonical_combo small_texts refused_raw ≡ err value_error
unfolding canonical_combo normalize_scheduler normalize_stages normalize_split_k is_stream_k
    is_supported_combo is_mainloop is_epilogue get_text scheduler_text
refused_raw-canonical = refl

-- The second of two equal combinations takes the place of the first; one that is not supported is skipped.
dedupe_two : dedupe small_texts (some_raw ∷ refused_raw ∷ some_raw ∷ []) ≡ ok (some_combo ∷ [])
unfolding dedupe add_canonical add_combos combos_of combo_le sort_by insert_by store canonical_combo
    normalize_scheduler normalize_stages normalize_split_k is_stream_k is_supported_combo
    is_mainloop is_epilogue get_text scheduler_text combo_key raw_of stages_cell key_eq stages_eq
    scheduler_eq
dedupe_two = refl

abbrev three_raw : List RawCombo
three_raw = some_raw ∷ refused_raw ∷ some_raw ∷ []

only_value_errors :
    (x : RawCombo)
    → In x three_raw
    → (e : Error) → canonical_combo small_texts x ≡ err e
    → e ≡ value_error
only_value_errors x here e h = let c = some_raw-canonical in cc
only_value_errors x (there here) e h = let c = refused_raw-canonical in cc
only_value_errors x (there (there here)) e h = let c = some_raw-canonical in cc
only_value_errors x (there (there (there none_left))) e h = elim none_left [ ]

dedupe-refines_example :
    (out : List Combo) × (dedupe small_texts three_raw ≡ ok out) × IsSetOf small_texts three_raw out
dedupe-refines_example = dedupe-refines small_texts small_texts-IsPython three_raw only_value_errors

four_apart : some_combo.stages ≢ count (negsuc 0)
four_apart h = cc

combo_from_key-combo_key_example :
    (k : Key) × (combo_key small_texts (raw_of some_combo) ≡ ok k) × (combo_from_key k ≡ some_combo)
combo_from_key-combo_key_example =
    combo_from_key-combo_key small_texts small_texts-IsPython some_combo four_apart

some_combo-IsCanonical : IsCanonical small_texts some_combo
unfolding normalize_scheduler is_stream_k is_supported_combo is_mainloop is_epilogue scheduler_text
some_combo-IsCanonical = record { mainloop = refl; epilogue = refl; supported = refl }

canonical_combo_idem_example : canonical_combo small_texts (raw_of some_combo) ≡ ok some_combo
canonical_combo_idem_example =
    canonical_combo_idem small_texts small_texts-IsPython some_combo some_combo-IsCanonical
      four_apart

abbrev some_row : Row
some_row = record {
  tile_m = some (pos 128);
  tile_n = some (pos 128);
  tile_k = some (pos 64);
  cluster = some (pos 1, pos 2, pos 1);
  stages = some (written "4");
  mainloop = some "cooperative";
  epilogue = none;
  scheduler = none;
  csv_scheduler = none;
  is_stream_k = false;
  split_k = none;
  split_k_slices = none;
  lower_values = "128 128 64 4 cooperative gemm_stream_k";
  haystack = "gemm_stream_k";
}

-- A row of 32-bit numbers, which is passed over.
abbrev f32_row : Row
f32_row = record some_row { lower_values = "128 128 64 4 cooperative gemm_tf32" }

-- A row whose `cluster` is missing raises a `KeyError` where it is taken.
abbrev bad_row : Row
bad_row = record some_row { cluster = none }

abbrev taken_rows : List Row
taken_rows = f32_row ∷ some_row ∷ some_row ∷ []

abbrev some_rows : JsonRows
some_rows = row_list (f32_row ∷ some_row ∷ some_row ∷ bad_row ∷ [])

some_rows_taken : all_taken small_texts taken_rows ≡ ok (some_combo ∷ some_combo ∷ [])
unfolding all_taken rows_from_json_obj is_taken is_some is_f16_row includes infer_scheduler
    combo_of_row field get_cell with_row canonical_combo normalize_scheduler normalize_stages
    normalize_split_k is_stream_k is_supported_combo is_mainloop is_epilogue get_text scheduler_text
some_rows_taken = refl

-- A limit of 0 lets one combination through; the last row, which cannot be read, is not reached.
load_rows_json-take_example :
    load_rows_json small_texts some_rows (pos 0) "missing" ≡ ok (some_combo ∷ [])
unfolding rows_from_json_obj
load_rows_json-take_example =
    load_rows_json-take small_texts some_rows (pos 0) "missing" taken_rows (bad_row ∷ []) refl
      some_rows_taken (inr (omega arith))

abbrev no_files : Args
no_files = record {
  from_missing_json = none;
  top_missing = pos 20;
  from_failed_json = none;
  top_failed = pos 20;
}

abbrev is_ok : {A : Type 0} → Result A → Bool
is_ok (ok a) = true
is_ok (err e) = false

of_ok : {A : Type 0} (r : Result A) → is_ok r ≡ true → (a : A) × (r ≡ ok a)
of_ok (ok a) h = (a, refl)
of_ok (err e) h = cc

main_returns : is_ok (main small_texts no_files) ≡ true
unfolding main extra_combos write_all write_algo_dicts write_signal_instances write_plain_instances
    algo_meta meta_stages algorithm item index_from map_result cpp_template_args mainloop_type
    epilogue_type scheduler_type fetch combo_from_key builtin_combos base_combos curated_combos
    base_combo curated_combo is_base_skip dedupe add_canonical add_combos combos_of combo_le sort_by
    insert_by store canonical_combo normalize_scheduler normalize_stages normalize_split_k
    is_stream_k is_supported_combo is_mainloop is_epilogue get_text scheduler_text combo_key raw_of
    stages_cell key_eq stages_eq scheduler_eq text_le tuple_le int_lt stages_text
main_returns = refl

-- What a run with no files writes.
abbrev written_output : Output
written_output = (of_ok (main small_texts no_files) main_returns).0

main-IsNumbered_example : IsNumbered small_texts written_output
main-IsNumbered_example =
    main-IsNumbered small_texts no_files (of_ok (main small_texts no_files) main_returns).1
