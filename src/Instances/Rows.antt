-- ===== src/Instances/Rows.antt =====
-- `load_rows_json`: combinations from the rows of a report.
pub mod Limit
use Prim.Native.String.{String}
use text.Mathlib.Text.{find?}
use ooverlap.Prelude.Substring.{includes}
use ooverlap.Prelude.{
  ℕ, zero, suc, Bool, true, false, not, ◌&&◌, ◌||◌, Option, none, some, List, [], ◌∷◌, leb,
  if◌then◌else◌,
}
use ooverlap.Prelude.Int.{ℤ, pos, negsuc}
use ooverlap.Prelude.Result.{Result, ok, err, key_error, ◌>>=◌}
use ooverlap.Prelude.Dict.{lookup}
use ooverlap.Instances.{Scheduler, normal, stream_k, Cell, written, number, RawCombo, Combo, Texts}
use ooverlap.Instances.Combos.{
  normalize_scheduler, is_supported_combo, get_text, canonical_combo, scheduler_text,
}

-- A row; `none` is a key that is missing. `lower_values` is the text that `is_f16_row` makes of all values, and
-- `haystack` the one that `infer_scheduler` makes of four of them, both in lower case.
pub record Row : Type 0 where
  pub tile_m : Option ℤ
  pub tile_n : Option ℤ
  pub tile_k : Option ℤ
  pub cluster : Option (ℤ × ℤ × ℤ)
  pub stages : Option Cell
  pub mainloop : Option String
  pub epilogue : Option String
  pub scheduler : Option String
  pub csv_scheduler : Option String
  pub is_stream_k : Bool
  pub split_k : Option Cell
  pub split_k_slices : Option Cell
  pub lower_values : String
  pub haystack : String

unfoldable pub infer_scheduler : Texts → Row → Scheduler
infer_scheduler p row = elim row.scheduler [
  | some s ↦ normalize_scheduler p (some s)
  | none ↦ elim row.csv_scheduler [
    | some s ↦ normalize_scheduler p (some s)
    | none ↦
        if row.is_stream_k || includes row.haystack "streamk" || includes row.haystack "stream_k"
        then stream_k
        else normal
  ]
]

unfoldable pub is_f16_row : Row → Bool
is_f16_row row = not (
    includes row.lower_values "f32"
    || includes row.lower_values "float32"
    || includes row.lower_values "tf32")

-- What `json.loads` gives: the named lists of an object, or a list.
pub data JsonRows : Type 0 where
  row_list : List Row → JsonRows
  object : List (String × List Row) → JsonRows
  other : JsonRows

unfoldable pub first_of : List String → List (String × List Row) → List Row
first_of [] fields = []
first_of (key ∷ keys) fields =
    let rest = first_of keys fields in elim (lookup key fields) [ some found ↦ found | none ↦ rest ]

unfoldable pub rows_from_json_obj : JsonRows → (key : String) → List Row
rows_from_json_obj (row_list xs) key = xs
rows_from_json_obj (object fields) key =
    first_of (key ∷ "failed" ∷ "missing" ∷ "top" ∷ "all_profiled" ∷ []) fields
rows_from_json_obj other key = []

unfoldable pub is_some : {A : Type 0} → Option A → Bool
is_some none = false
is_some (some a) = true

-- The tests that skip a row.
unfoldable pub is_taken : Texts → Row → Bool
is_taken p row =
    is_some row.tile_m
    && is_f16_row row
    && is_supported_combo p (get_text row.mainloop "ws") (scheduler_text (infer_scheduler p row))

-- `row[key]`
unfoldable pub field : {A : Type 0} → Option A → Result A
field none = err key_error
field (some a) = ok a

unfoldable pub get_cell : Option Cell → Cell → Cell
get_cell none default = default
get_cell (some c) default = c

unfoldable pub combo_of_row : Texts → Row → Result Combo
combo_of_row p row = do
  tile_m ← field row.tile_m
  tile_n ← field row.tile_n
  tile_k ← field row.tile_k
  cluster ← field row.cluster
  canonical_combo p (record {
    tile_m = tile_m;
    tile_n = tile_n;
    tile_k = tile_k;
    cluster_m = cluster.0;
    cluster_n = cluster.1;
    cluster_k = cluster.2;
    stages = some (get_cell row.stages (written "auto"));
    mainloop = some (get_text row.mainloop "ws");
    epilogue = some (get_text row.epilogue "auto");
    scheduler = some (scheduler_text (infer_scheduler p row));
    split_k = some (get_cell row.split_k (get_cell row.split_k_slices (number (pos 1))));
  })

-- `n >= top_n`
unfoldable pub is_full : ℕ → (top_n : ℤ) → Bool
is_full n (pos top_n) = leb top_n n
is_full n (negsuc k) = true

-- A row that is taken: `rest` is what the loop makes of the rows after it, where it does not break.
unfoldable pub with_row :
    (is_last : Bool) → Result Combo → (rest : Result (List Combo)) → Result (List Combo)
with_row true made rest = do c ← made; ok (c ∷ [])
with_row false made rest = do c ← made; more ← rest; ok (c ∷ more)

-- The loop, with the number of combinations that `out` holds; it breaks after one that fills it.
unfoldable pub load_from : Texts → List Row → ℕ → (top_n : ℤ) → Result (List Combo)
load_from p [] n top_n = ok []
load_from p (row ∷ rows) n top_n =
    let rest = load_from p rows (if is_taken p row then suc n else n) top_n in
    if is_taken p row then with_row (is_full (suc n) top_n) (combo_of_row p row) rest else rest

unfoldable pub load_rows_json :
    Texts → JsonRows → (top_n : ℤ) → (key : String) → Result (List Combo)
load_rows_json p contents top_n key = load_from p (rows_from_json_obj contents key) 0 top_n
