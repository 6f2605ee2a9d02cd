-- ===== src/Instances/Combos.antt =====
-- The normal form of a combination, and its key.
pub mod Keys
use Prim.Native.String.{String}
use text.Mathlib.Text.{◌==◌ as str_eq}
use ooverlap.Prelude.{
  ℕ, zero, suc, Bool, true, false, not, ◌&&◌, ◌||◌, Option, none, some, ◌==◌, if◌then◌else◌,
}
use ooverlap.Prelude.Int.{ℤ, pos, negsuc, int_eq}
use ooverlap.Prelude.Result.{Result, ok, err, value_error, ◌>>=◌}
use ooverlap.Instances.{
  Stages, auto, count, Scheduler, normal, stream_k, Cell, written, number, RawCombo, Combo, Texts,
}

-- `str(x)` of a text is the text; a missing scheduler is `"normal"`.
unfoldable pub normalize_scheduler : Texts → Option String → Scheduler
normalize_scheduler p none = normal
normalize_scheduler p (some x) =
    let s = p.strip_lower_underscore x in
    if str_eq s "streamk" || str_eq s "stream_k" || str_eq s "stream" then stream_k else normal

-- The text of the number -1 is `"-1"`, which stands for `"auto"`.
unfoldable pub normalize_stages : Texts → Option Cell → Result Stages
normalize_stages p none = ok auto
normalize_stages p (some (number n)) = ok (if int_eq n (negsuc 0) then auto else count n)
normalize_stages p (some (written x)) =
    let s = p.strip_lower x in
    if str_eq s "auto" || str_eq s "-1" then ok auto else (do n ← p.int_of_float s; ok (count n))

unfoldable pub normalize_split_k : Texts → Option Cell → Result ℤ
normalize_split_k p none = ok (pos 1)
normalize_split_k p (some (number n)) = ok n
normalize_split_k p (some (written x)) =
    let s = p.strip x in if str_eq s "" then ok (pos 1) else p.int_of_float s

unfoldable pub is_stream_k : Scheduler → Bool
is_stream_k normal = false
is_stream_k stream_k = true

unfoldable pub scheduler_text : Scheduler → String
scheduler_text normal = "normal"
scheduler_text stream_k = "stream_k"

unfoldable pub is_supported_combo : Texts → (mainloop scheduler : String) → Bool
is_supported_combo p mainloop scheduler = not (
    is_stream_k (normalize_scheduler p (some scheduler))
    && not (str_eq (p.strip_lower mainloop) "cooperative"))

-- The keys of `MAINLOOP_TYPES` and `EPILOGUE_TYPES`; each scheduler is one of `SCHEDULER_TYPES`.
unfoldable pub is_mainloop : String → Bool
is_mainloop s = str_eq s "ws" || str_eq s "pingpong" || str_eq s "cooperative"

unfoldable pub is_epilogue : String → Bool
is_epilogue s = str_eq s "auto"

-- `x.get(key, default)` of a text
unfoldable pub get_text : Option String → String → String
get_text none default = default
get_text (some s) default = s

unfoldable pub canonical_combo : Texts → RawCombo → Result Combo
canonical_combo p x =
    let mainloop = get_text x.mainloop "ws" in
    let epilogue = get_text x.epilogue "auto" in
    let scheduler = normalize_scheduler p x.scheduler in
    if not (is_mainloop mainloop)
    then err value_error
    else if not (is_epilogue epilogue)
    then err value_error
    else if not (is_supported_combo p mainloop (scheduler_text scheduler))
    then err value_error
    else (do
      stages ← normalize_stages p x.stages
      split_k ← normalize_split_k p x.split_k
      ok (record {
        tile_m = x.tile_m;
        tile_n = x.tile_n;
        tile_k = x.tile_k;
        cluster_m = x.cluster_m;
        cluster_n = x.cluster_n;
        cluster_k = x.cluster_k;
        stages = stages;
        mainloop = mainloop;
        epilogue = epilogue;
        scheduler = scheduler;
        split_k = split_k;
      }))

-- The tuple of `combo_key`.
pub record Key : Type 0 where
  pub tile_m : ℤ
  pub tile_n : ℤ
  pub tile_k : ℤ
  pub cluster_m : ℤ
  pub cluster_n : ℤ
  pub cluster_k : ℤ
  pub stages : Stages
  pub mainloop : String
  pub epilogue : String
  pub scheduler : Scheduler
  pub split_k : ℤ

unfoldable pub stages_eq : Stages → Stages → Bool
stages_eq auto auto = true
stages_eq auto (count n) = false
stages_eq (count m) auto = false
stages_eq (count m) (count n) = int_eq m n

unfoldable pub scheduler_eq : Scheduler → Scheduler → Bool
scheduler_eq normal normal = true
scheduler_eq normal stream_k = false
scheduler_eq stream_k normal = false
scheduler_eq stream_k stream_k = true

-- Two tuples are equal as keys of a `dict`.
unfoldable pub key_eq : Key → Key → Bool
key_eq a b =
    int_eq a.tile_m b.tile_m
    && int_eq a.tile_n b.tile_n
    && int_eq a.tile_k b.tile_k
    && int_eq a.cluster_m b.cluster_m
    && int_eq a.cluster_n b.cluster_n
    && int_eq a.cluster_k b.cluster_k
    && stages_eq a.stages b.stages
    && str_eq a.mainloop b.mainloop
    && str_eq a.epilogue b.epilogue
    && scheduler_eq a.scheduler b.scheduler
    && int_eq a.split_k b.split_k

unfoldable pub combo_key : Texts → RawCombo → Result Key
combo_key p c = do
  stages ← normalize_stages p c.stages
  split_k ← normalize_split_k p c.split_k
  ok (record {
    tile_m = c.tile_m;
    tile_n = c.tile_n;
    tile_k = c.tile_k;
    cluster_m = c.cluster_m;
    cluster_n = c.cluster_n;
    cluster_k = c.cluster_k;
    stages = stages;
    mainloop = get_text c.mainloop "ws";
    epilogue = get_text c.epilogue "auto";
    scheduler = normalize_scheduler p c.scheduler;
    split_k = split_k;
  })

unfoldable pub combo_from_key : Key → Combo
combo_from_key k = record {
  tile_m = k.tile_m;
  tile_n = k.tile_n;
  tile_k = k.tile_k;
  cluster_m = k.cluster_m;
  cluster_n = k.cluster_n;
  cluster_k = k.cluster_k;
  stages = k.stages;
  mainloop = k.mainloop;
  epilogue = k.epilogue;
  scheduler = k.scheduler;
  split_k = k.split_k;
}

unfoldable pub stages_cell : Stages → Cell
stages_cell auto = written "auto"
stages_cell (count n) = number n

-- The same dictionary, where it is passed to a function again.
unfoldable pub raw_of : Combo → RawCombo
raw_of c = record {
  tile_m = c.tile_m;
  tile_n = c.tile_n;
  tile_k = c.tile_k;
  cluster_m = c.cluster_m;
  cluster_n = c.cluster_n;
  cluster_k = c.cluster_k;
  stages = some (stages_cell c.stages);
  mainloop = some c.mainloop;
  epilogue = some c.epilogue;
  scheduler = some (scheduler_text c.scheduler);
  split_k = some (number c.split_k);
}
