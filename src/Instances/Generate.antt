-- ===== src/Instances/Generate.antt =====
-- `main` of tool/generate_instances_sm90.py.
pub mod Numbered
use Prim.Native.String.{String}
use ooverlap.Prelude.{ℕ, Option, none, some, List, [], ◌∷◌, ◌++◌, map}
use ooverlap.Prelude.Int.{ℤ}
use ooverlap.Prelude.Result.{Result, ok, err, ◌>>=◌}
use ooverlap.Instances.{RawCombo, Combo, Texts}
use ooverlap.Instances.Combos.{raw_of}
use ooverlap.Instances.Builtin.{builtin_combos}
use ooverlap.Instances.Rows.{JsonRows, load_rows_json}
use ooverlap.Instances.Dedupe.{dedupe}
use ooverlap.Instances.Tables.{Output, write_all}

-- The command's arguments, with the contents of the files that they name.
pub record Args : Type 0 where
  pub from_missing_json : Option JsonRows
  pub top_missing : ℤ
  pub from_failed_json : Option JsonRows
  pub top_failed : ℤ

unfoldable pub extra_combos : Texts → Option JsonRows → ℤ → (key : String) → Result (List RawCombo)
extra_combos p none top_n key = ok []
extra_combos p (some contents) top_n key = do
  combos ← load_rows_json p contents top_n key
  ok (map raw_of combos)

unfoldable pub main : Texts → Args → Result Output
main p args = do
  missing ← extra_combos p args.from_missing_json args.top_missing "missing"
  failed ← extra_combos p args.from_failed_json args.top_failed "failed"
  candidates ← dedupe p (builtin_combos p ++ missing ++ failed)
  write_all p candidates
