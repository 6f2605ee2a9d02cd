-- ===== src/Prelude/Substring.antt =====
-- `part in s`, on Python's texts.
use Prim.Native.String.{String}
use text.Mathlib.Text.{find?}
use mathlib.Core.Bool.{Bool, true, false}
use mathlib.Core.Option.{none, some}

unfoldable pub includes : (s part : String) → Bool
includes s part = elim (find? s part) [ none ↦ false | some i ↦ true ]
