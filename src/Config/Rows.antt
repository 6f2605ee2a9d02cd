-- ===== src/Config/Rows.antt =====
-- `csv_row_ok` and the loop of `parse_csv_rows` of tool/gen_config_sm90.py. A row is taken after its
-- cells are converted; the sort of the records by runtime, which follows the loop, is not in the
-- model.
pub mod Accepted
pub mod Described
pub mod Counted
pub mod Parsed
use text.Mathlib.Text.{◌==◌ as str_eq}
use Prim.Native.String.{String}
use ooverlap.Prelude.{
  ℕ, suc, ◌+◌, Bool, true, false, not, ◌&&◌, ◌||◌, Option, none, some, List, [], ◌∷◌, ◌++◌, ◌==◌,
  if◌then◌else◌,
}
use ooverlap.Prelude.Int.{ℤ, pos, negsuc}
use ooverlap.Prelude.Floats.{Floats}
use ooverlap.Prelude.Result.{Result, ok, ◌>>=◌}

-- The command line's shape, types and layouts.
pub record Args : Type 0 where
  pub m : ℕ
  pub n : ℕ
  pub k : ℕ
  pub csv_a_dtype : String
  pub csv_b_dtype : String
  pub csv_c_dtype : String
  pub csv_d_dtype : String
  pub csv_accum_dtype : String
  pub csv_a_layout : String
  pub csv_b_layout : String
  pub csv_c_layout : String
  pub csv_d_layout : String

-- The types and the layouts of a row, in the order of the parameters of `csv_row_ok`.
pub record Types : Type 0 where
  pub a_dt : Option String
  pub b_dt : Option String
  pub c_dt : Option String
  pub d_dt : Option String
  pub acc : Option String
  pub a_l : Option String
  pub b_l : Option String
  pub c_l : Option String
  pub d_l : Option String

-- The cell of the stages: `written` holds what `int(float(s))` gives or raises, for a text other than the empty one,
-- `auto` and `-1`.
pub data StagesCell : Type 0 where
  no_column automatic : StagesCell
  written : Result ℤ → StagesCell

-- `stage(row.get(cols["st"])) if cols["st"] else None`
unfoldable pub stage : StagesCell → Result (Option ℤ)
stage no_column = ok none
stage automatic = ok (some (negsuc 0))
stage (written r) = do n ← r; ok (some n)

-- A row of the profile: a number that does not convert is `none`.
pub record Row (f : Floats) : Type 0 where
  pub rt : Option f.F
  pub op : String
  pub mainloop : String
  pub sched : String
  pub split_k : ℤ
  pub tm : Option ℤ
  pub tn : Option ℤ
  pub tk : Option ℤ
  pub st : StagesCell
  pub cluster : List ℤ
  pub types : Types

-- `x is None or x == wanted`
unfoldable pub absent_or : Option String → String → Bool
absent_or none wanted = true
absent_or (some x) wanted = str_eq x wanted

-- `x is not None and x == wanted`
unfoldable pub present_and : Option String → String → Bool
present_and none wanted = false
present_and (some x) wanted = str_eq x wanted

unfoldable pub csv_row_ok : Args → Types → Bool
csv_row_ok args t =
    absent_or t.a_dt args.csv_a_dtype
    && absent_or t.b_dt args.csv_b_dtype
    && absent_or t.acc args.csv_accum_dtype
    && (str_eq args.csv_c_dtype "any" || present_and t.c_dt args.csv_c_dtype)
    && (str_eq args.csv_d_dtype "any" || present_and t.d_dt args.csv_d_dtype)
    && (str_eq args.csv_a_layout "any" || absent_or t.a_l args.csv_a_layout)
    && (str_eq args.csv_b_layout "any" || absent_or t.b_l args.csv_b_layout)
    && (str_eq args.csv_c_layout "any" || absent_or t.c_l args.csv_c_layout)
    && (str_eq args.csv_d_layout "any" || absent_or t.d_l args.csv_d_layout)

-- A record that is kept, with the place of its row; without the epilogue, which is always `auto`, and
-- the key, which repeats other fields.
pub record Kept (f : Floats) : Type 0 where
  pub source_row : ℕ
  pub cutlass_runtime : f.F
  pub tile_m : ℤ
  pub tile_n : ℤ
  pub tile_k : ℤ
  pub cluster : List ℤ
  pub stages : ℤ
  pub mainloop : String
  pub scheduler : String
  pub split_k : ℤ
  pub operation : String

-- `counts` and `records`
pub record State (f : Floats) : Type 0 where
  pub raw_rows : ℕ
  pub bad_runtime : ℕ
  pub shape : ℕ
  pub layout_or_dtype : ℕ
  pub tile_parse : ℕ
  pub stream_k_rows_seen : ℕ
  pub split_k_rows_seen : ℕ
  pub kept : ℕ
  pub records : List (Kept f)

-- `shape0 is not None and shape0 != (args.m, args.n, args.k)`
unfoldable pub is_other_shape : Option (ℕ × ℕ × ℕ) → Args → Bool
is_other_shape none args = false
is_other_shape (some (m, n, k)) args = not ((m == args.m) && (n == args.n) && (k == args.k))

-- `split_k != 1`
unfoldable pub is_split : ℤ → Bool
is_split (pos k) = not (k == 1)
is_split (negsuc k) = true

unfoldable pub add_bool : ℕ → Bool → ℕ
add_bool n true = suc n
add_bool n false = n

module _ (f : Floats) where
  -- The counters of the schedulers, which are no reason to leave a row out.
  unfoldable pub see : Row f → State f → State f
  see row s = record s {
    stream_k_rows_seen = add_bool s.stream_k_rows_seen (str_eq row.sched "stream_k");
    split_k_rows_seen = add_bool s.split_k_rows_seen (is_split row.split_k);
  }

  -- The end of the loop's body, for a row with all four numbers.
  unfoldable pub keep : Args → (i : ℕ) → Row f → f.F → (tm tn tk st : ℤ) → State f → State f
  keep args i row rt tm tn tk st s =
      if csv_row_ok args row.types
      then record s {
        kept = suc s.kept;
        records =
            s.records
            ++ record {
              source_row = i;
              cutlass_runtime = rt;
              tile_m = tm;
              tile_n = tn;
              tile_k = tk;
              cluster = row.cluster;
              stages = st;
              mainloop = row.mainloop;
              scheduler = row.sched;
              split_k = row.split_k;
              operation = row.op;
            }
              ∷ [];
      }
      else record s { layout_or_dtype = suc s.layout_or_dtype }

  unfoldable pub parse_tile :
      Args → (i : ℕ) → Row f → f.F → (tm tn tk st : Option ℤ) → State f → State f
  parse_tile args i row rt (some tm) (some tn) (some tk) (some st) s =
      keep args i row rt tm tn tk st s
  parse_tile args i row rt _ _ _ _ s = record s { tile_parse = suc s.tile_parse }

  -- The loop's body. The stages are read before the sizes of the tile are looked at.
  unfoldable pub read_row : Args → Option (ℕ × ℕ × ℕ) → (i : ℕ) → Row f → State f → Result (State f)
  read_row args shape0 i row s =
      let s₁ = record s { raw_rows = suc s.raw_rows } in
      elim row.rt [
        | none ↦ ok (record s₁ { bad_runtime = suc s₁.bad_runtime })
        | some rt ↦
            if is_other_shape shape0 args then ok (record s₁ { shape = suc s₁.shape }) else (do
              st ← stage row.st
              ok (parse_tile args i row rt row.tm row.tn row.tk st (see row s₁)))
      ]

  unfoldable pub read_rows :
      Args → Option (ℕ × ℕ × ℕ) → (i : ℕ) → List (Row f) → State f → Result (State f)
  read_rows args shape0 i [] s = ok s
  read_rows args shape0 i (row ∷ rows) s = do
    next ← read_row args shape0 i row s
    read_rows args shape0 (suc i) rows next

  unfoldable pub no_rows : State f
  no_rows = record {
    raw_rows = 0;
    bad_runtime = 0;
    shape = 0;
    layout_or_dtype = 0;
    tile_parse = 0;
    stream_k_rows_seen = 0;
    split_k_rows_seen = 0;
    kept = 0;
    records = [];
  }

  unfoldable pub parse_csv_rows : Args → Option (ℕ × ℕ × ℕ) → List (Row f) → Result (State f)
  parse_csv_rows args shape0 rows = read_rows args shape0 0 rows no_rows
