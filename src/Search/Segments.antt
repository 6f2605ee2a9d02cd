-- ===== src/Search/Segments.antt =====
-- tool/search.py: the segments of tiles that are communicated together.
pub mod Cover
use ooverlap.Prelude.{
  ℕ, zero, suc, ◌+◌, ◌*◌, Bool, true, false, List, [], ◌∷◌, map, range, leb, if◌then◌else◌,
}
use ooverlap.Prelude.Int.{ℤ, pos, negsuc, sub_ℕ}
use ooverlap.Prelude.Result.{Result, ok, ◌>>=◌}
use ooverlap.Search.Geometry.{div_up}

-- Python's `min` where the first argument is not negative.
unfoldable pub min_with : ℕ → ℤ → ℤ
min_with a (pos b) = if leb a b then pos a else pos b
min_with a (negsuc b) = negsuc b

-- The loop of `expand_partition_to_cseg`: the last entry is cut to what is left.
unfoldable pub expand_from : (compute_sms search_group_size tile_num acc : ℕ) → List ℕ → List ℤ
expand_from c g tile_num acc [] = []
expand_from c g tile_num acc (x ∷ []) = min_with (x * c * g) (sub_ℕ tile_num acc) ∷ []
expand_from c g tile_num acc (x ∷ y ∷ gp) =
    pos (x * c * g) ∷ expand_from c g tile_num (acc + x * c * g) (y ∷ gp)

unfoldable pub expand_partition_to_cseg :
    List ℕ → (compute_sms search_group_size tile_num : ℕ) → List ℤ
expand_partition_to_cseg gp_units c g tile_num = expand_from c g tile_num 0 gp_units

-- `[min(wSize, tile_num - i * wSize) for i in range(wave_num)]` of `compute_hint_process`.
unfoldable pub window_segments : (tile_num window_size : ℕ) → Result (List ℤ)
window_segments tile_num w = do
  wave_num ← div_up tile_num w
  ok (map (λ i. min_with w (sub_ℕ tile_num (i * w))) (range wave_num))
