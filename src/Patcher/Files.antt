-- ===== src/Patcher/Files.antt =====
-- `patch_file` and `revert_file`, on a store of files: their texts by path, as `read_text` gives them.
use Prim.Native.String.{String, ◌++◌}
use ooverlap.Prelude.{Bool, true, false, not, none, some, List, [], ◌∷◌, if◌then◌else◌}
use ooverlap.Prelude.Dict.{lookup, insert}
use ooverlap.Prelude.Substring.{includes}
use ooverlap.Patcher.Text.{replace, ensure_cstddef_for_std_ptrdiff_t}

abbrev pub Store : Type 0
Store = List (String × String)

abbrev pub marker : String
marker = "OOVERLAP_GCC_TYPENAME_WORKAROUND_PATCH"

abbrev pub backup_suffix : String
backup_suffix = ".gcc_typename_workaround.bak"

unfoldable pub backup_path : String → String
backup_path path = path ++ backup_suffix

-- The loop over the replacements: whether one was made, and the text.
unfoldable pub replace_each : List (String × String) → (changed : Bool) → String → Bool × String
replace_each [] changed text = (changed, text)
replace_each ((old, new) ∷ replacements) changed text =
    let found = includes text old in
    replace_each replacements (if found then true else changed)
      (if found then replace text old new else text)

-- A backup that is there is kept.
unfoldable pub save_backup : (path original : String) → Store → Store
save_backup path original s = elim (lookup (backup_path path) s) [
  | none ↦ insert (backup_path path) original s
  | some kept ↦ s
]

unfoldable pub patch_text :
    (path : String)
    → List (String × String)
    → (dry_run : Bool) → (text : String) → Store
    → Bool × Store
patch_text path replacements dry_run text s =
    let patched = replace_each replacements false text in
    if includes text marker
    then (true, s)
    else if not patched.0
    then (false, s)
    else if dry_run
    then (true, s)
    else (true, insert path (ensure_cstddef_for_std_ptrdiff_t patched.1) (save_backup path text s))

unfoldable pub patch_file :
    (path : String) → List (String × String) → (dry_run : Bool) → Store → Bool × Store
patch_file path replacements dry_run s = elim (lookup path s) [
  | none ↦ (false, s)
  | some text ↦ patch_text path replacements dry_run text s
]

unfoldable pub revert_file : (path : String) → Store → Bool × Store
revert_file path s = elim (lookup (backup_path path) s) [
  | none ↦ (false, s)
  | some kept ↦ (true, insert path kept s)
]
