-- ===== src/Tests/Configs.antt =====
-- A profile of three rows and a grid of two rows and three columns.
use Prim.Native.String.{String}
use ooverlap.Prelude.{
  ℕ, ◌+◌, ◌*◌, ◌<◌, ◌≤◌, ◌≡◌, refl, Option, none, some, List, [], ◌∷◌, get_or, sum, All, arith,
}
use ooverlap.Prelude.Int.{ℤ, pos}
use ooverlap.Prelude.Result.{ok, err, value_error, ◌>>=◌}
use ooverlap.Config.Rows.{
  Args, Types, written, stage, Row, State, parse_csv_rows, read_rows, read_row, no_rows, see, keep,
  parse_tile, csv_row_ok, absent_or, present_and, is_other_shape, is_split, add_bool,
}
use ooverlap.Config.Rows.Parsed.{IsParsed, parse_csv_rows-IsParsed}
use ooverlap.Config.Grid.{column_major, make_ra, make_segments, write_column, write_columns}
use ooverlap.Config.Grid.Remap.{make_ra-column_major, make_ra-injective, sum-make_segments}
use ooverlap.Tests.Samples.{whole}

abbrev args : Args
args = record {
  m = 8;
  n = 8;
  k = 4;
  csv_a_dtype = "f16";
  csv_b_dtype = "f16";
  csv_c_dtype = "any";
  csv_d_dtype = "f16";
  csv_accum_dtype = "f32";
  csv_a_layout = "row";
  csv_b_layout = "any";
  csv_c_layout = "any";
  csv_d_layout = "any";
}

abbrev types : Option String → Types
types d = record {
  a_dt = some "f16";
  b_dt = some "f16";
  c_dt = none;
  d_dt = d;
  acc = some "f32";
  a_l = none;
  b_l = none;
  c_l = none;
  d_l = none;
}

abbrev row : Option ℕ → Option ℤ → Option String → Row whole
row rt tm d = record {
  rt = rt;
  op = "gemm";
  mainloop = "ws";
  sched = "stream_k";
  split_k = pos 2;
  tm = tm;
  tn = some (pos 2);
  tk = some (pos 4);
  st = written (ok (pos 3));
  cluster = pos 1 ∷ pos 1 ∷ pos 1 ∷ [];
  types = types d;
}

abbrev rows : List (Row whole)
rows =
    row none (some (pos 2)) (some "f16")
    ∷ row (some 5) none (some "f16")
    ∷ row (some 7) (some (pos 2)) (some "f16")
    ∷ row (some 9) (some (pos 2)) none
    ∷ []

parse_csv_rows_example :
    IsParsed whole args (some (8, 8, 4)) rows (parse_csv_rows whole args (some (8, 8, 4)) rows)
parse_csv_rows_example = parse_csv_rows-IsParsed whole args (some (8, 8, 4)) rows

abbrev Numbers : Type 0
Numbers = ℕ × ℕ × ℕ × ℕ × ℕ × ℕ × ℕ × ℕ

abbrev counts : State whole → Numbers
counts s = (
  s.raw_rows, s.bad_runtime, s.shape, s.layout_or_dtype, s.tile_parse, s.stream_k_rows_seen,
  s.split_k_rows_seen, s.kept,
)

abbrev expected : Numbers
expected = (4, 1, 0, 1, 1, 3, 3, 1)

counts-parse_csv_rows :
    (parse_csv_rows whole args (some (8, 8, 4)) rows >>= λ s. ok (counts s)) ≡ ok expected
unfolding parse_csv_rows read_rows read_row no_rows see keep parse_tile csv_row_ok absent_or
    present_and is_other_shape is_split add_bool stage
counts-parse_csv_rows = refl

-- A text among the stages aborts the loop.
abbrev bad_stages : Row whole
bad_stages = record (row (some 5) none none) { st = written (err value_error) }

parse_csv_rows-raises :
    parse_csv_rows whole args (some (8, 8, 4)) (bad_stages ∷ rows) ≡ err value_error
unfolding parse_csv_rows read_rows read_row no_rows see is_other_shape is_split add_bool stage
parse_csv_rows-raises = refl

make_ra_example : get_or (make_ra 2 3 column_major) (1 * 3 + 2) 0 ≡ 2 * 2 + 1
make_ra_example = make_ra-column_major 2 3 1 2 (omega arith) (omega arith)

column_major-make_ra : make_ra 2 3 column_major ≡ 0 ∷ 2 ∷ 4 ∷ 1 ∷ 3 ∷ 5 ∷ []
unfolding make_ra write_columns write_column
column_major-make_ra = refl

abbrev tile_row : ℕ
tile_row = 1

abbrev tile_col : ℕ
tile_col = 2

make_ra-injective_example : (tile_row ≡ tile_row) × (tile_col ≡ tile_col)
make_ra-injective_example =
    make_ra-injective 2 3 column_major tile_row tile_col tile_row tile_col (omega arith)
      (omega arith) (omega arith) (omega arith) refl

make_segments_example :
    (sum (make_segments 7 (pos 3)) ≡ 7) × All (λ x. (0 < x) × (x ≤ 3)) (make_segments 7 (pos 3))
make_segments_example = sum-make_segments 7 3 (omega arith)
