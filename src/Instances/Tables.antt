-- ===== src/Instances/Tables.antt =====
-- The numbers of the algorithms: `AlgoDictSm90`, and the tables of instances of the two GEMM paths.
pub mod Numbers
pub mod Written
use Prim.Native.String.{String}
use text.Mathlib.Text.{◌==◌ as str_eq}
use ooverlap.Prelude.{
  ℕ, suc, Bool, true, false, Option, none, some, List, [], ◌∷◌, length, if◌then◌else◌,
}
use ooverlap.Prelude.Int.{ℤ, negsuc, int_eq}
use ooverlap.Prelude.Result.{Result, ok, err, value_error, runtime_error, key_error, ◌>>=◌}
use ooverlap.Prelude.Pairwise.{fetch, store}
use ooverlap.Instances.{Stages, auto, count, number, Scheduler, normal, stream_k, Combo, Texts}
use ooverlap.Instances.Combos.{
  Key, key_eq, combo_key, combo_from_key, raw_of, normalize_stages, normalize_scheduler,
  normalize_split_k, stages_cell, scheduler_text,
}

-- `MAINLOOP_TYPES[...]`
unfoldable pub mainloop_type : String → Result String
mainloop_type s =
    if str_eq s "ws"
    then ok "cutlass::gemm::KernelTmaWarpSpecialized"
    else if str_eq s "pingpong"
    then ok "cutlass::gemm::KernelTmaWarpSpecializedPingpong"
    else if str_eq s "cooperative"
    then ok "cutlass::gemm::KernelTmaWarpSpecializedCooperative"
    else err key_error

-- `EPILOGUE_TYPES[...]`
unfoldable pub epilogue_type : String → Result String
epilogue_type s =
    if str_eq s "auto"
    then ok "cutlass::epilogue::collective::EpilogueScheduleAuto"
    else err key_error

-- `SCHEDULER_TYPES[...]`
unfoldable pub scheduler_type : Scheduler → String
scheduler_type normal = "void"
scheduler_type stream_k = "cutlass::gemm::StreamKScheduler"

-- The arguments of a template, before they are written as text; `stages` and the three sizes of the cluster stand for the
-- C++ types that `stage_cpp` and `cluster_cpp` write.
pub record TemplateArgs : Type 0 where
  pub tile_m : ℤ
  pub tile_n : ℤ
  pub tile_k : ℤ
  pub stages : Stages
  pub cluster_m : ℤ
  pub cluster_n : ℤ
  pub cluster_k : ℤ
  pub mainloop : String
  pub epilogue : String
  pub scheduler : String

unfoldable pub cpp_template_args : Texts → Combo → Result TemplateArgs
cpp_template_args p c = do
  stages ← normalize_stages p (some (stages_cell c.stages))
  mainloop ← mainloop_type c.mainloop
  epilogue ← epilogue_type c.epilogue
  ok (record {
    tile_m = c.tile_m;
    tile_n = c.tile_n;
    tile_k = c.tile_k;
    stages = stages;
    cluster_m = c.cluster_m;
    cluster_n = c.cluster_n;
    cluster_k = c.cluster_k;
    mainloop = mainloop;
    epilogue = epilogue;
    scheduler = scheduler_type (normalize_scheduler p (some (scheduler_text c.scheduler)));
  })

-- A row of `signal_sm90_algo_meta` or `plain_sm90_algo_meta`.
pub record AlgoMeta : Type 0 where
  pub tile_m : ℤ
  pub tile_n : ℤ
  pub tile_k : ℤ
  pub cluster_m : ℤ
  pub cluster_n : ℤ
  pub cluster_k : ℤ
  pub stages : ℤ
  pub mainloop : String
  pub epilogue : String
  pub scheduler : Scheduler
  pub split_k : ℤ

-- `-1 if str(stages).lower() == "auto" else int(stages)`
unfoldable pub meta_stages : Stages → ℤ
meta_stages auto = negsuc 0
meta_stages (count n) = n

unfoldable pub algo_meta : Texts → Combo → Result AlgoMeta
algo_meta p c = do
  split_k ← normalize_split_k p (some (number c.split_k))
  ok (record {
    tile_m = c.tile_m;
    tile_n = c.tile_n;
    tile_k = c.tile_k;
    cluster_m = c.cluster_m;
    cluster_n = c.cluster_n;
    cluster_k = c.cluster_k;
    stages = meta_stages c.stages;
    mainloop = c.mainloop;
    epilogue = c.epilogue;
    scheduler = normalize_scheduler p (some (scheduler_text c.scheduler));
    split_k = split_k;
  })

unfoldable pub map_result : {A B : Type 0} → (A → Result B) → List A → Result (List B)
map_result f [] = ok []
map_result f (x ∷ xs) = do y ← f x; ys ← map_result f xs; ok (y ∷ ys)

-- `{combo_key(c): i for i, c in enumerate(candidates)}`, from the number `i` on
unfoldable pub index_from : Texts → ℕ → List Combo → List (Key × ℕ) → Result (List (Key × ℕ))
index_from p i [] index = ok index
index_from p i (c ∷ candidates) index = do
  k ← combo_key p (raw_of c)
  index_from p (suc i) candidates (store key_eq k i index)

unfoldable pub item : Option ℕ → Result ℕ
item none = err key_error
item (some i) = ok i

unfoldable pub algorithm : Texts → List (Key × ℕ) → Combo → Result (ℕ × Combo)
algorithm p index c = do
  k ← combo_key p (raw_of c)
  algo ← item (fetch key_eq k index)
  ok (algo, combo_from_key k)

-- `write_algo_dicts`: the dictionary that is saved, and the list `algorithms` of the JSON file.
pub record AlgoDict : Type 0 where
  pub index : List (Key × ℕ)
  pub algorithms : List (ℕ × Combo)

unfoldable pub write_algo_dicts : Texts → List Combo → Result AlgoDict
write_algo_dicts p candidates = do
  index ← index_from p 0 candidates []
  algorithms ← map_result (algorithm p index) candidates
  ok (record { index = index; algorithms = algorithms })

-- The files of one GEMM path: the explicit instances, the table of functions with its length, and its meta data.
pub record Instances : Type 0 where
  pub inc : List TemplateArgs
  pub func_table : List TemplateArgs
  pub func_count : ℕ
  pub meta : List AlgoMeta

unfoldable pub write_signal_instances : Texts → List Combo → Result Instances
write_signal_instances p candidates = do
  inc ← map_result (cpp_template_args p) candidates
  func_table ← map_result (cpp_template_args p) candidates
  meta ← map_result (algo_meta p) candidates
  ok (record { inc = inc; func_table = func_table; func_count = length candidates; meta = meta })

unfoldable pub write_plain_instances : Texts → List Combo → Result Instances
write_plain_instances p candidates = do
  inc ← map_result (cpp_template_args p) candidates
  func_table ← map_result (cpp_template_args p) candidates
  meta ← map_result (algo_meta p) candidates
  ok (record { inc = inc; func_table = func_table; func_count = length candidates; meta = meta })

pub record Output : Type 0 where
  pub algo_dict : AlgoDict
  pub signal : Instances
  pub plain : Instances
  pub summary : List Combo

-- What `main` does with the candidates; `summary` is what `print_summary` prints.
unfoldable pub write_all : Texts → List Combo → Result Output
write_all p [] = err runtime_error
write_all p (c ∷ candidates) = do
  algo_dict ← write_algo_dicts p (c ∷ candidates)
  signal ← write_signal_instances p (c ∷ candidates)
  plain ← write_plain_instances p (c ∷ candidates)
  ok (record { algo_dict = algo_dict; signal = signal; plain = plain; summary = c ∷ candidates })
