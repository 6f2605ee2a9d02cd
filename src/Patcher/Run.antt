-- ===== src/Patcher/Run.antt =====
-- `main` of patch_gcc_typename.py.
use Prim.Native.String.{String}
use ooverlap.Prelude.{ℕ, Bool, true, false, ◌&&◌, ◌||◌, Option, List, [], ◌∷◌, ◌++◌, if◌then◌else◌}
use ooverlap.Patcher.Files.{Store, patch_file, revert_file}
use ooverlap.Patcher.Paths.{Installation, candidate_nlohmann_paths, candidate_torch_list_inl_paths}

-- The command's arguments; `root` is the root of the repository that was found.
pub record Args : Type 0 where
  pub root : String
  pub torch_list_inl : Option String
  pub dry_run : Bool
  pub revert : Bool

abbrev pub nlohmann_replacements : List (String × String)
nlohmann_replacements =
    (
      "static_cast<typename decltype(number_buffer)::difference_type>(n_chars)",
      "static_cast<std::ptrdiff_t>(n_chars) /* OOVERLAP_GCC_TYPENAME_WORKAROUND_PATCH */",
    )
    ∷ []

abbrev pub torch_replacements : List (String × String)
torch_replacements =
    (
      "static_cast<typename decltype(impl_->list)::difference_type>(pos)",
      "static_cast<std::ptrdiff_t>(pos) /* OOVERLAP_GCC_TYPENAME_WORKAROUND_PATCH */",
    )
    ∷ []

-- All paths are reverted, also after one that has no backup.
unfoldable pub revert_all : List String → Store → Bool × Store
revert_all [] s = (true, s)
revert_all (path ∷ paths) s =
    let first = revert_file path s in
    let rest = revert_all paths first.1 in (first.0 && rest.0, rest.1)

-- Whether one of the paths is patched.
unfoldable pub patch_all :
    List (String × String) → (dry_run : Bool) → List String → Store → Bool × Store
patch_all replacements dry_run [] s = (false, s)
patch_all replacements dry_run (path ∷ paths) s =
    let first = patch_file path replacements dry_run s in
    let rest = patch_all replacements dry_run paths first.1 in (first.0 || rest.0, rest.1)

-- The rest of `main`, for the paths that were found: the exit code, and the files.
unfoldable pub run : Args → (nlohmann_paths torch_paths : List String) → Store → ℕ × Store
run args nlohmann_paths torch_paths s =
    let reverted = revert_all (nlohmann_paths ++ torch_paths) s in
    let nlohmann = patch_all nlohmann_replacements args.dry_run nlohmann_paths s in
    let torch = patch_all torch_replacements args.dry_run torch_paths nlohmann.1 in
    if args.revert
    then (if reverted.0 then 0 else 1, reverted.1)
    else (if nlohmann.0 && torch.0 then 0 else 1, torch.1)

unfoldable pub main : Installation → Args → Store → ℕ × Store
main i args s =
    run args (candidate_nlohmann_paths i args.root s)
      (candidate_torch_list_inl_paths i args.torch_list_inl s) s
