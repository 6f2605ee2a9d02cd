-- ===== src/Search/Reorder.antt =====
-- tool/search.py: the order of the tiles, `reorder_indices` and `build_full_order_and_reorder_map`.
pub mod Scan
pub mod Positions
pub mod Inverse
pub mod Agreement
use ooverlap.Prelude.{
  ℕ, zero, suc, ◌+◌, ◌-◌, ◌≡◌, Bool, true, false, not, List, [], ◌∷◌, ◌++◌, length, get_or, set,
  replicate, filter, range, leb, ltb, if◌then◌else◌,
}
use ooverlap.Prelude.Int.{ℤ, pos, negsuc, is_negative}
use ooverlap.Prelude.Result.{Result, ok, err, value_error, index_error, ◌>>=◌}

-- `used` and `stable_prefix`.
pub record HintScan : Type 0 where
  pub used : List Bool
  pub stable_prefix : List ℕ

-- The body of the first loop, after its check: a tile that was seen before is skipped.
unfoldable pub scan_tile : HintScan → ℕ → HintScan
scan_tile s x =
    if get_or s.used x false
    then s
    else record { used = set s.used x true; stable_prefix = s.stable_prefix ++ x ∷ [] }

-- The first loop of `build_full_order_and_reorder_map`.
unfoldable pub scan_hint : ℕ → HintScan → List ℤ → Result HintScan
scan_hint tile_num s [] = ok s
scan_hint tile_num s (negsuc x ∷ hint) = err value_error
scan_hint tile_num s (pos x ∷ hint) =
    let rest = scan_hint tile_num (scan_tile s x) hint in
    if leb tile_num x then err value_error else rest

-- `for new_pos, tile_id in enumerate(order, start=p): m[tile_id] = new_pos`
unfoldable pub write_positions : List ℤ → ℕ → List ℕ → List ℤ
write_positions m p [] = m
write_positions m p (x ∷ xs) = write_positions (set m x (pos p)) (suc p) xs

pub record FullOrder : Type 0 where
  pub full_tile_order : List ℕ
  pub reorder_map : List ℤ
  pub unstable_tail : List ℕ

-- What follows the first loop.
unfoldable pub finish_order : ℕ → HintScan → FullOrder
finish_order tile_num s =
    let tail = filter (λ x. not (get_or s.used x false)) (range tile_num) in
    let order = s.stable_prefix ++ tail in
    record {
      full_tile_order = order;
      reorder_map = write_positions (replicate tile_num (negsuc 0)) 0 order;
      unstable_tail = tail;
    }

abbrev pub scan_start : ℕ → HintScan
scan_start tile_num = record { used = replicate tile_num false; stable_prefix = [] }

unfoldable pub build_full_order_and_reorder_map : ℕ → List ℤ → Result FullOrder
build_full_order_and_reorder_map tile_num hint = do
  s ← scan_hint tile_num (scan_start tile_num) hint
  ok (finish_order tile_num s)

-- A Python list index: a negative one counts from the end.
unfoldable pub list_index : ℕ → ℤ → Result ℕ
list_index n (pos x) = if ltb x n then ok x else err index_error
list_index n (negsuc k) = if ltb k n then ok (n - k - 1) else err index_error

-- `for i, tile in enumerate(hint, start=i): new_order[int(tile)] = i`
unfoldable pub place_hint : List ℤ → ℕ → List ℤ → Result (List ℤ)
place_hint new_order i [] = ok new_order
place_hint new_order i (tile ∷ hint) = do
  x ← list_index (length new_order) tile
  place_hint (set new_order x (pos i)) (suc i) hint

-- The second loop of `reorder_indices`, over the entries of `new_order` in the order of the tiles:
-- one that is negative gets the next position.
unfoldable pub place_rest : ℕ → List ℤ → List ℤ
place_rest p [] = []
place_rest p (v ∷ vs) =
    (if is_negative v then pos p else v) ∷ place_rest (if is_negative v then suc p else p) vs

-- `reorder_indices`, without the move to the device.
unfoldable pub reorder_indices : ℕ → List ℤ → Result (List ℤ)
reorder_indices tile_num hint = do
  new_order ← place_hint (replicate tile_num (negsuc 0)) 0 hint
  ok (place_rest (length hint) new_order)
