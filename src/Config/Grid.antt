-- ===== src/Config/Grid.antt =====
-- `make_ra` and `make_segments` of tool/gen_config_sm90.py.
pub mod Remap
use ooverlap.Prelude.{ℕ, zero, suc, ◌+◌, ◌-◌, ◌*◌, min, List, [], ◌∷◌, set, replicate, range}
use ooverlap.Prelude.Int.{ℤ, pos, negsuc}

-- The two values of `--reorder`, after which the other ones are refused.
pub data Reorder : Type 0 where
  identity column_major : Reorder

-- The loop over `tr`, in one column.
unfoldable pub write_column : (tile_cols tc : ℕ) → (left tr p : ℕ) → List ℕ → List ℕ
write_column tile_cols tc zero tr p h = h
write_column tile_cols tc (suc left) tr p h =
    write_column tile_cols tc left (suc tr) (suc p) (set h (tr * tile_cols + tc) p)

-- The loop over `tc`; `p` grows by one in each step of the inner loop.
unfoldable pub write_columns : (tile_rows tile_cols : ℕ) → (left tc p : ℕ) → List ℕ → List ℕ
write_columns tile_rows tile_cols zero tc p h = h
write_columns tile_rows tile_cols (suc left) tc p h =
    write_columns tile_rows tile_cols left (suc tc) (p + tile_rows)
      (write_column tile_cols tc tile_rows 0 p h)

unfoldable pub make_ra : (tile_rows tile_cols : ℕ) → Reorder → List ℕ
make_ra tile_rows tile_cols identity = range (tile_rows * tile_cols)
make_ra tile_rows tile_cols column_major =
    write_columns tile_rows tile_cols tile_cols 0 0 (replicate (tile_rows * tile_cols) 0)

-- The `while` loop, on fuel; each step takes at least one tile, so that the number of tiles is enough.
unfoldable pub cut : (fuel group_tiles left : ℕ) → List ℕ
cut fuel group_tiles zero = []
cut zero group_tiles (suc left) = []
cut (suc fuel) group_tiles (suc left) =
    min group_tiles (suc left) ∷ cut fuel group_tiles (suc left - min group_tiles (suc left))

unfoldable pub make_segments : (num_tiles : ℕ) (group_tiles : ℤ) → List ℕ
make_segments num_tiles (negsuc k) = num_tiles ∷ []
make_segments num_tiles (pos zero) = num_tiles ∷ []
make_segments num_tiles (pos (suc g)) = cut num_tiles (suc g) num_tiles
