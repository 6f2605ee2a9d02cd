-- ===== src/Patcher/Text.antt =====
-- The texts that the patch changes. A search runs on as much fuel as the text has bytes: each round takes some.
use Prim.Native.String.{String, ◌++◌, len, slice}
use text.Mathlib.Text.{◌==◌ as str_eq, starts_with, find?}
use ooverlap.Prelude.Substring.{includes}
use ooverlap.Prelude.{
  ℕ, zero, suc, ◌+◌, Bool, ◌||◌, Option, none, some, List, [], ◌∷◌, if◌then◌else◌,
}

-- `s.replace(old, new)`
unfoldable pub replace_from : ℕ → (s old new : String) → String
replace_from zero s old new = s
replace_from (suc fuel) s old new = elim (find? s old) [
  | none ↦ s
  | some i ↦ slice s 0 i ++ (new ++ replace_from fuel (slice s (i + len old) (len s)) old new)
]

unfoldable pub replace : (s old new : String) → String
replace s old new = replace_from (len s) s old new

-- `s.replace(old, new, 1)`
unfoldable pub replace_first : (s old new : String) → String
replace_first s old new = elim (find? s old) [
  | none ↦ s
  | some i ↦ slice s 0 i ++ (new ++ slice s (i + len old) (len s))
]

-- `s.splitlines(keepends=True)`, of a text whose lines end with `\n` only.
unfoldable pub lines_from : ℕ → String → List String
lines_from zero s = []
lines_from (suc fuel) s = if str_eq s "" then [] else elim (find? s "\n") [
  | none ↦ s ∷ []
  | some i ↦ slice s 0 (i + 1) ∷ lines_from fuel (slice s (i + 1) (len s))
]

unfoldable pub splitlines : String → List String
splitlines s = lines_from (len s) s

unfoldable pub join : List String → String
join [] = ""
join (line ∷ lines) = line ++ join lines

-- `line.lstrip().startswith("#include")`, for spaces and tabs.
unfoldable pub is_include_from : ℕ → String → Bool
is_include_from zero s = starts_with s "#include"
is_include_from (suc fuel) s =
    let rest = is_include_from fuel (slice s 1 (len s)) in
    if starts_with s " " || starts_with s "\t" then rest else starts_with s "#include"

unfoldable pub is_include : String → Bool
is_include line = is_include_from (len line) line

-- The lines up to the last `#include` among the first `n` and those after it; `none` where there is no such line.
unfoldable pub after_last_include : ℕ → List String → Option (List String)
after_last_include zero lines = none
after_last_include (suc n) [] = none
after_last_include (suc n) (line ∷ lines) = elim (after_last_include n lines) [
  | some inserted ↦ some (line ∷ inserted)
  | none ↦ if is_include line then some (line ∷ "#include <cstddef>\n" ∷ lines) else none
]

unfoldable pub ensure_cstddef_for_std_ptrdiff_t : String → String
ensure_cstddef_for_std_ptrdiff_t text =
    if includes text "#include <cstddef>"
    then text
    else if includes text "#pragma once"
    then replace_first text "#pragma once" "#pragma once\n\n#include <cstddef>"
    else elim (after_last_include 80 (splitlines text)) [
      | some lines ↦ join lines
      | none ↦ "#include <cstddef>\n" ++ text
    ]
