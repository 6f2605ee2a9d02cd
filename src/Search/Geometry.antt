-- ===== src/Search/Geometry.antt =====
-- tool/search.py: the sizes of the tile grid and of the monitor matrix.
pub mod Monitor
use ooverlap.Prelude.{
  ℕ, zero, suc, ◌+◌, ◌-◌, ◌*◌, ◌/◌, ◌≡◌, Bool, true, false, List, [], ◌∷◌, take, drop, ◌==◌,
  if◌then◌else◌,
}
use ooverlap.Prelude.Int.{ℤ, pos, negsuc, sub_ℕ}
use ooverlap.Prelude.Result.{Result, ok, err, zero_division, ◌>>=◌}

-- `div_up`. Python's `//` raises on a zero divisor.
unfoldable pub div_up : ℕ → ℕ → Result ℕ
div_up x zero = err zero_division
div_up x (suc y) = ok ((x + suc y - 1) / suc y)

-- The slack may be larger than the number of SMs: the difference is an `int`.
unfoldable pub compute_sms_from_slack : ℕ → ℕ → ℤ
compute_sms_from_slack sm_count comm_sm_slack = sub_ℕ sm_count comm_sm_slack

-- `div_up(M, BM) * div_up(N, BN)`, as the callers compute `tile_num`.
unfoldable pub tile_count : (m n bm bn : ℕ) → Result ℕ
tile_count m n bm bn = do rows ← div_up m bm; cols ← div_up n bn; ok (rows * cols)

unfoldable pub packed_shape : (m n bm bn rldn : ℕ) → Result (ℕ × ℕ)
packed_shape m n bm bn rldn = do
  tile_num ← tile_count m n bm bn
  packed_tile_rows ← div_up tile_num rldn
  ok (packed_tile_rows * bm, rldn * bn)

unfoldable pub monitor_size : (tile_num seg_size : ℕ) → Bool → ℕ
monitor_size tile_num seg_size true = seg_size + tile_num + 1 + tile_num
monitor_size tile_num seg_size false = seg_size + tile_num

-- The tensor assignment `xs[start : start + count] = v`, which stays inside the tensor.
unfoldable pub fill_slice : (start count : ℕ) → ℤ → List ℤ → List ℤ
fill_slice zero zero v xs = xs
fill_slice zero (suc count) v [] = []
fill_slice zero (suc count) v (x ∷ xs) = v ∷ fill_slice zero count v xs
fill_slice (suc start) count v [] = []
fill_slice (suc start) count v (x ∷ xs) = x ∷ fill_slice start count v xs

unfoldable pub reset_monitor_matrix : List ℤ → (tile_num seg_size : ℕ) → Bool → List ℤ
reset_monitor_matrix mm tile_num seg_size true =
    fill_slice (seg_size + tile_num + 1) tile_num (negsuc 0)
      (fill_slice 0 (seg_size + tile_num + 1) (pos 0) mm)
reset_monitor_matrix mm tile_num seg_size false = fill_slice 0 (seg_size + tile_num) (pos 0) mm

unfoldable pub monitor_order_view : List ℤ → (tile_num seg_size : ℕ) → List ℤ
monitor_order_view mm tile_num seg_size = take tile_num (drop (seg_size + tile_num + 1) mm)
