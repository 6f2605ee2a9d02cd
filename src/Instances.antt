-- ===== src/Instances.antt =====
-- tool/generate_instances_sm90.py: the list of GEMM algorithms, their numbers, and the tables of
-- instances that share these numbers.
pub mod Combos
pub mod Builtin
pub mod Rows
pub mod Dedupe
pub mod Tables
pub mod Generate
use Prim.Native.String.{String}
use ooverlap.Prelude.{◌≡◌, Option}
use ooverlap.Prelude.Int.{ℤ}
use ooverlap.Prelude.Result.{Result}

pub data Stages : Type 0 where
  auto : Stages
  count : ℤ → Stages

pub data Scheduler : Type 0 where
  normal stream_k : Scheduler

-- A value of a row that may be a text or a number.
pub data Cell : Type 0 where
  written : String → Cell
  number : ℤ → Cell

-- A dictionary of a combination, before it is checked: `none` is a key that is missing.
pub record RawCombo : Type 0 where
  pub tile_m : ℤ
  pub tile_n : ℤ
  pub tile_k : ℤ
  pub cluster_m : ℤ
  pub cluster_n : ℤ
  pub cluster_k : ℤ
  pub stages : Option Cell
  pub mainloop : Option String
  pub epilogue : Option String
  pub scheduler : Option String
  pub split_k : Option Cell

-- A combination as `canonical_combo` gives it.
pub record Combo : Type 0 where
  pub tile_m : ℤ
  pub tile_n : ℤ
  pub tile_k : ℤ
  pub cluster_m : ℤ
  pub cluster_n : ℤ
  pub cluster_k : ℤ
  pub stages : Stages
  pub mainloop : String
  pub epilogue : String
  pub scheduler : Scheduler
  pub split_k : ℤ

-- Python's functions on texts that the script calls: `s.strip()`, `s.strip().lower()`, the same with `-`
-- replaced by `_`, `int(float(s))`, and `str(n)` of a number.
pub record Texts : Type 0 where
  pub strip : String → String
  pub strip_lower : String → String
  pub strip_lower_underscore : String → String
  pub int_of_float : String → Result ℤ
  pub int_text : ℤ → String

-- What is relied on: the names that the script itself writes are stripped and in lower case.
pub record IsPython (p : Texts) : Type 0 where
  pub auto : p.strip_lower "auto" ≡ "auto"
  pub normal : p.strip_lower_underscore "normal" ≡ "normal"
  pub stream_k : p.strip_lower_underscore "stream_k" ≡ "stream_k"
  pub cooperative : p.strip_lower "cooperative" ≡ "cooperative"
