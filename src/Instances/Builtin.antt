-- ===== src/Instances/Builtin.antt =====
-- `builtin_combos`: the algorithms that are always generated.
use Prim.Native.String.{String}
use ooverlap.Prelude.{ℕ, Bool, not, ◌&&◌, ◌||◌, ◌==◌, some, List, [], ◌∷◌, ◌++◌, if◌then◌else◌}
use ooverlap.Prelude.Int.{pos}
use ooverlap.Prelude.Membership.{concat_map}
use ooverlap.Instances.{Scheduler, normal, stream_k, written, number, RawCombo, Texts}
use ooverlap.Instances.Combos.{is_supported_combo, scheduler_text}

pub record Cluster : Type 0 where
  pub m : ℕ
  pub n : ℕ
  pub k : ℕ

-- A row of `CURATED_SHAPES`
pub record CuratedShape : Type 0 where
  pub mainloop : String
  pub tile_m : ℕ
  pub tile_n : ℕ
  pub tile_k : ℕ
  pub stages : ℕ

abbrev cluster : ℕ → ℕ → ℕ → Cluster
cluster m n k = record { m = m; n = n; k = k }

abbrev shape : String → ℕ → ℕ → ℕ → ℕ → CuratedShape
shape mainloop m n k stages = record {
  mainloop = mainloop;
  tile_m = m;
  tile_n = n;
  tile_k = k;
  stages = stages;
}

abbrev pub clusters : List Cluster
clusters = cluster 1 1 1 ∷ cluster 1 2 1 ∷ cluster 2 1 1 ∷ []

abbrev pub base_tile_m : List ℕ
base_tile_m = 64 ∷ 128 ∷ 256 ∷ []

abbrev pub base_tile_n : List ℕ
base_tile_n = 64 ∷ 128 ∷ 256 ∷ []

abbrev pub base_tile_k : List ℕ
base_tile_k = 32 ∷ 64 ∷ 128 ∷ []

-- `(tm, tn) in BASE_SKIP_MN`
unfoldable pub is_base_skip : ℕ → ℕ → Bool
is_base_skip tm tn = (tm == 64 && tn == 64) || (tm == 256 && tn == 256)

abbrev pub curated_shapes : List CuratedShape
curated_shapes =
    shape "ws" 64 256 64 5
    ∷ shape "ws" 128 128 64 7
    ∷ shape "ws" 128 256 64 4
    ∷ shape "ws" 256 128 64 4
    ∷ shape "pingpong" 64 256 64 5
    ∷ shape "pingpong" 128 128 64 6
    ∷ shape "pingpong" 128 128 64 7
    ∷ shape "cooperative" 128 128 64 6
    ∷ shape "cooperative" 128 256 64 4
    ∷ shape "cooperative" 256 128 64 4
    ∷ shape "cooperative" 256 256 64 3
    ∷ []

abbrev pub schedulers : List Scheduler
schedulers = normal ∷ stream_k ∷ []

unfoldable pub base_combo : ℕ → ℕ → ℕ → Cluster → RawCombo
base_combo tm tn tk c = record {
  tile_m = pos tm;
  tile_n = pos tn;
  tile_k = pos tk;
  cluster_m = pos c.m;
  cluster_n = pos c.n;
  cluster_k = pos c.k;
  stages = some (written "auto");
  mainloop = some "ws";
  epilogue = some "auto";
  scheduler = some "normal";
  split_k = some (number (pos 1));
}

unfoldable pub curated_combo : CuratedShape → Cluster → Scheduler → RawCombo
curated_combo s c scheduler = record {
  tile_m = pos s.tile_m;
  tile_n = pos s.tile_n;
  tile_k = pos s.tile_k;
  cluster_m = pos c.m;
  cluster_n = pos c.n;
  cluster_k = pos c.k;
  stages = some (number (pos s.stages));
  mainloop = some s.mainloop;
  epilogue = some "auto";
  scheduler = some (scheduler_text scheduler);
  split_k = some (number (pos 1));
}

unfoldable pub base_combos : List RawCombo
base_combos =
    concat_map
      (λ tm.
        concat_map
          (λ tn.
            if is_base_skip tm tn
            then []
            else concat_map (λ tk. concat_map (λ c. base_combo tm tn tk c ∷ []) clusters)
                base_tile_k)
          base_tile_n)
      base_tile_m

unfoldable pub curated_combos : Texts → List RawCombo
curated_combos p =
    concat_map
      (λ s.
        concat_map
          (λ c.
            concat_map
              (λ scheduler.
                if not (is_supported_combo p s.mainloop (scheduler_text scheduler))
                then []
                else curated_combo s c scheduler ∷ [])
              schedulers)
          clusters)
      curated_shapes

unfoldable pub builtin_combos : Texts → List RawCombo
builtin_combos p = base_combos ++ curated_combos p
