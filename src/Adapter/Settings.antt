-- ===== src/Adapter/Settings.antt =====
-- The settings that the adapter reads from the environment.
use text.Mathlib.Text.{◌==◌ as str_eq}
use Prim.Native.String.{String}
use ooverlap.Prelude.{ℕ, zero, suc, ◌||◌, Option, none, some, List, [], ◌∷◌, if◌then◌else◌}
use ooverlap.Prelude.Int.{ℤ, pos, negsuc}
use ooverlap.Prelude.Result.{Result, ok, err, value_error, runtime_error, ◌>>=◌}
use ooverlap.Adapter.{Dtype, bf16, fp16, fp32}

-- `parse` stands for Python's `int` on a text.
unfoldable pub positive_env_int : (parse : String → Option ℤ) → Option String → ℕ → Result ℕ
positive_env_int parse none default = ok default
positive_env_int parse (some raw) default = if str_eq raw "" then ok default else elim (parse raw) [
  | none ↦ err value_error
  | some (negsuc n) ↦ err value_error
  | some (pos zero) ↦ err value_error
  | some (pos (suc n)) ↦ ok (suc n)
]

-- The table `aliases`, on a name that is stripped and in lower case.
unfoldable pub find_alias : String → Option Dtype
find_alias name =
    if str_eq name "bf16" || str_eq name "bfloat16" || str_eq name "torch.bfloat16"
    then some bf16
    else if str_eq name "fp16"
        || str_eq name "float16"
        || str_eq name "half"
        || str_eq name "torch.float16"
    then some fp16
    else if str_eq name "fp32"
        || str_eq name "float32"
        || str_eq name "float"
        || str_eq name "torch.float32"
    then some fp32
    else none

-- `normalize` stands for `name.strip().lower()`.
unfoldable pub normalize_rr_dtype : (normalize : String → String) → String → Result Dtype
normalize_rr_dtype normalize name = elim (find_alias (normalize name)) [
  | none ↦ err value_error
  | some d ↦ ok d
]

-- `_gather_visible_devices`, after the collective filled the list.
unfoldable pub gather_visible_devices : List (Option ℕ) → Result (List ℕ)
gather_visible_devices [] = ok []
gather_visible_devices (none ∷ devices) = err runtime_error
gather_visible_devices (some d ∷ devices) = do rest ← gather_visible_devices devices; ok (d ∷ rest)
