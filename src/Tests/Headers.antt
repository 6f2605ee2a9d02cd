-- ===== src/Tests/Headers.antt =====
-- The patch of two headers and its reversal.
use Prim.Native.String.{String}
use ooverlap.Prelude.{◌≡◌, ◌≢◌, refl, true, false, none, [], ◌∷◌}
use ooverlap.Prelude.Membership.{In, here, there}
use ooverlap.Prelude.Dict.{lookup, insert}
use ooverlap.Prelude.Substring.{includes}
use ooverlap.Patcher.Text.{
  replace, replace_from, replace_first, lines_from, splitlines, join, is_include_from, is_include,
  after_last_include, ensure_cstddef_for_std_ptrdiff_t,
}
use ooverlap.Patcher.Files.{
  Store, backup_path, replace_each, save_backup, patch_text, patch_file, revert_file,
}
use ooverlap.Patcher.Run.{Args, revert_all, patch_all, run}
use ooverlap.Patcher.Restored.{run-run_revert}

abbrev patch_args : Args
patch_args = record { root = "/repo"; torch_list_inl = none; dry_run = false; revert = false }

abbrev revert_args : Args
revert_args = record patch_args { revert = true }

abbrev torch_text : String
torch_text =
    "#pragma once\nreturn static_cast<typename decltype(impl_->list)::difference_type>(pos);\n"

abbrev json_text : String
json_text =
    "#include <array>\n  #include <limits>\nint n = static_cast<typename decltype(number_buffer)::difference_type>(n_chars);\n"

abbrev headers : Store
headers = ("List_inl.h", torch_text) ∷ ("serializer.hpp", json_text) ∷ []

abbrev patched_headers : Store
patched_headers =
    (
      "List_inl.h",
      "#pragma once\n\n#include <cstddef>\nreturn static_cast<std::ptrdiff_t>(pos) /* OOVERLAP_GCC_TYPENAME_WORKAROUND_PATCH */;\n",
    )
    ∷ (
      "serializer.hpp",
      "#include <array>\n  #include <limits>\n#include <cstddef>\nint n = static_cast<std::ptrdiff_t>(n_chars) /* OOVERLAP_GCC_TYPENAME_WORKAROUND_PATCH */;\n",
    )
    ∷ ("serializer.hpp.gcc_typename_workaround.bak", json_text)
    ∷ ("List_inl.h.gcc_typename_workaround.bak", torch_text)
    ∷ []

-- A run patches both headers, and a second one leaves them as they are.
headers_are_patched :
    run patch_args ("serializer.hpp" ∷ []) ("List_inl.h" ∷ []) headers ≡ (0, patched_headers)
unfolding includes replace replace_from replace_first lines_from splitlines join is_include_from
    is_include after_last_include ensure_cstddef_for_std_ptrdiff_t backup_path replace_each
    save_backup patch_text patch_file revert_file revert_all patch_all run lookup insert
headers_are_patched = refl

headers_stay_patched :
    run patch_args ("serializer.hpp" ∷ []) ("List_inl.h" ∷ []) patched_headers
    ≡ (0, patched_headers)
unfolding includes patch_text patch_file revert_file revert_all patch_all run lookup
headers_stay_patched = refl

headers_apart :
    (p q : String)
    → In p ("serializer.hpp" ∷ "List_inl.h" ∷ [])
    → In q ("serializer.hpp" ∷ "List_inl.h" ∷ [])
    → backup_path p ≢ q
unfolding backup_path
headers_apart p q here here h = cc
headers_apart p q here (there here) h = cc
headers_apart p q here (there (there i)) h = elim i [ ]
headers_apart p q (there here) here h = cc
headers_apart p q (there here) (there here) h = cc
headers_apart p q (there here) (there (there i)) h = elim i [ ]
headers_apart p q (there (there i)) m h = elim i [ ]

headers_have_no_backup :
    (p : String)
    → In p ("serializer.hpp" ∷ "List_inl.h" ∷ [])
    → lookup (backup_path p) headers ≡ none
unfolding backup_path lookup
headers_have_no_backup p here = refl
headers_have_no_backup p (there here) = refl
headers_have_no_backup p (there (there i)) = elim i [ ]

run-run_revert_example :
    lookup "List_inl.h"
      (run revert_args
        ("serializer.hpp" ∷ [])
        ("List_inl.h" ∷ [])
        (run patch_args ("serializer.hpp" ∷ []) ("List_inl.h" ∷ []) headers).1).1
    ≡ lookup "List_inl.h" headers
run-run_revert_example =
    run-run_revert patch_args revert_args ("serializer.hpp" ∷ []) ("List_inl.h" ∷ []) headers
      "List_inl.h" refl refl headers_apart headers_have_no_backup (there here)
