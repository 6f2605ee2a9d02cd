-- ===== src/Patcher/Paths.antt =====
-- The headers that are looked for.
use Prim.Native.String.{String, ◌++◌}
use text.Mathlib.Text.{◌==◌ as str_eq}
use ooverlap.Prelude.{
  Bool, true, false, ◌&&◌, ◌||◌, Option, none, some, List, [], ◌∷◌, if◌then◌else◌,
}
use ooverlap.Prelude.Dict.{lookup}
use ooverlap.Prelude.Substring.{includes}
use ooverlap.Patcher.Text.{replace}
use ooverlap.Patcher.Files.{Store}

-- What is found outside the files' texts: the files named `serializer.hpp` below a directory (`none` where it is
-- missing), the header of an installed Torch, the prefixes of the Python installation, and its search path.
pub record Installation : Type 0 where
  pub rglob : String → Option (List String)
  pub torch_header : Option String
  pub prefixes : List String
  pub search_path : List String

unfoldable pub exists : String → Store → Bool
exists path s = elim (lookup path s) [ none ↦ false | some text ↦ true ]

unfoldable pub has_path : String → List String → Bool
has_path path [] = false
has_path path (p ∷ found) = str_eq p path || has_path path found

-- `found.append(path)`, unless it is there.
unfoldable pub append_new : List String → String → List String
append_new [] path = path ∷ []
append_new (p ∷ found) path = if str_eq p path then p ∷ found else p ∷ append_new found path

-- `add` of `candidate_torch_list_inl_paths`
unfoldable pub add_existing : Store → List String → String → List String
add_existing s found path = if exists path s then append_new found path else found

unfoldable pub add_all : Store → List String → List String → List String
add_all s found [] = found
add_all s found (path ∷ paths) = add_all s (add_existing s found path) paths

unfoldable pub is_serializer : String → Bool
is_serializer path =
    let normalized = replace path "\\" "/" in
    includes normalized "nlohmann" && includes normalized "/detail/output/serializer.hpp"

unfoldable pub add_serializers : List String → List String → List String
add_serializers found [] = found
add_serializers found (path ∷ paths) =
    add_serializers (if is_serializer path then append_new found path else found) paths

unfoldable pub search_roots : Installation → List String → List String → List String
search_roots i found [] = found
search_roots i found (root ∷ roots) = elim (i.rglob root) [
  | none ↦ search_roots i found roots
  | some paths ↦ search_roots i (add_serializers found paths) roots
]

unfoldable pub candidate_nlohmann_paths : Installation → (root : String) → Store → List String
candidate_nlohmann_paths i root s =
    let found = add_all s [] (
      (root ++ "/src/third-party/nlohmann_json/include/nlohmann/detail/output/serializer.hpp")
      ∷ (root ++ "/src/third_party/nlohmann_json/include/nlohmann/detail/output/serializer.hpp")
      ∷ (root ++ "/third-party/nlohmann_json/include/nlohmann/detail/output/serializer.hpp")
      ∷ (root ++ "/third_party/nlohmann_json/include/nlohmann/detail/output/serializer.hpp")
      ∷ []) in
    elim found [
      | [] ↦
          search_roots i []
            ((root ++ "/src") ∷ (root ++ "/third-party") ∷ (root ++ "/third_party") ∷ [])
      | path ∷ paths ↦ path ∷ paths
    ]

-- An empty text is passed over.
unfoldable pub prefix_headers : List String → List String
prefix_headers [] = []
prefix_headers (prefix ∷ prefixes) =
    let rest = prefix_headers prefixes in
    if str_eq prefix ""
    then rest
    else (prefix ++ "/lib/python3.13/site-packages/torch/include/ATen/core/List_inl.h")
      ∷ (prefix ++ "/site-packages/torch/include/ATen/core/List_inl.h")
      ∷ rest

unfoldable pub entry_headers : List String → List String
entry_headers [] = []
entry_headers (entry ∷ entries) =
    let rest = entry_headers entries in
    if str_eq entry "" then rest else (entry ++ "/torch/include/ATen/core/List_inl.h") ∷ rest

unfoldable pub add_option : Store → List String → Option String → List String
add_option s found none = found
add_option s found (some path) = add_existing s found path

unfoldable pub candidate_torch_list_inl_paths :
    Installation → (extra_path : Option String) → Store → List String
candidate_torch_list_inl_paths i extra_path s =
    let given = add_option s [] extra_path in
    let imported = add_option s given i.torch_header in
    let prefixed = add_all s imported (prefix_headers i.prefixes) in
    add_all s prefixed (entry_headers i.search_path)
