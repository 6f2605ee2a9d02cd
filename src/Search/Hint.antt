-- ===== src/Search/Hint.antt =====
-- tool/search.py: which tiles finish in the same window on every run, and the order hint made of
-- them. A run's sample holds the place in the completion order of each tile.
pub mod Stable
pub mod Contents
pub mod Groups
use ooverlap.Prelude.{
  ℕ, zero, suc, ◌+◌, ◌-◌, ◌*◌, ◌/◌, ◌≡◌, Bool, true, false, not, ◌&&◌, Option, none, some, List, [],
  ◌∷◌, ◌++◌, length, get_or, set, replicate, filter, range, ltb, ◌==◌, if◌then◌else◌, min,
}
use ooverlap.Prelude.Int.{ℤ, pos, negsuc, in_window}
use ooverlap.Prelude.Result.{Result, ok, err, runtime_error, zero_division, ◌>>=◌}
use ooverlap.Search.Geometry.{div_up}

abbrev pub Sample : Type 0
Sample = List ℤ

-- `((samples >= lo) & (samples < hi)).sum(dim=0)` at one tile.
unfoldable pub count_in_window : (lo hi : ℕ) → List Sample → ℕ → ℕ
count_in_window lo hi [] tile = 0
count_in_window lo hi (row ∷ samples) tile =
    let rest = count_in_window lo hi samples tile in
    if in_window lo hi (get_or row tile (negsuc 0)) then suc rest else rest

-- `stable_mask` at one tile, after the loop over the rounds.
unfoldable pub is_stable : (lo hi : ℕ) → List (List Sample) → ℕ → Bool
is_stable lo hi [] tile = true
is_stable lo hi (samples ∷ rounds) tile =
    (count_in_window lo hi samples tile == length samples) && is_stable lo hi rounds tile

unfoldable pub stable_tiles : (tile_num lo hi : ℕ) → List (List Sample) → List ℕ
stable_tiles tile_num lo hi rounds = filter (is_stable lo hi rounds) (range tile_num)

-- `lo` and `hi` of window `w`.
abbrev pub window_low : (window_size w : ℕ) → ℕ
window_low size w = w * size

abbrev pub window_high : (tile_num window_size w : ℕ) → ℕ
window_high tile_num size w = min ((w + 1) * size) tile_num

-- What the loop over the windows keeps.
pub record WindowScan : Type 0 where
  pub stable_per_window : List (List ℕ)
  pub effective_group : ℕ
  pub full_window_seen : Bool

module _ (rounds : List (List Sample)) (tile_num size compute_sms nominal : ℕ) where
  abbrev pub window_tiles : ℕ → List ℕ
  window_tiles w = stable_tiles tile_num (window_low size w) (window_high tile_num size w) rounds

  -- `min(stable_count // compute_sms, nominal_min_group_size)`
  unfoldable pub window_group : ℕ → ℕ
  window_group w = min (length (window_tiles w) / compute_sms) nominal

  -- `expected == wSize`
  unfoldable pub is_full_window : ℕ → Bool
  is_full_window w = (window_high tile_num size w - window_low size w) == size

  -- The body of the loop over the windows.
  unfoldable pub scan_window : WindowScan → ℕ → WindowScan
  scan_window s w =
      let tiles = window_tiles w in
      if is_full_window w
      then record {
        stable_per_window = s.stable_per_window ++ tiles ∷ [];
        effective_group = min s.effective_group (window_group w);
        full_window_seen = true;
      }
      else record s { stable_per_window = s.stable_per_window ++ tiles ∷ [] }

  unfoldable pub scan_windows : WindowScan → List ℕ → WindowScan
  scan_windows s [] = s
  scan_windows s (w ∷ ws) = scan_windows (scan_window s w) ws

-- `hint` and `used`, for one more stable tile.
pub record HintState : Type 0 where
  pub hint : List ℕ
  pub used : List Bool

unfoldable pub add_tile : HintState → ℕ → HintState
add_tile s tile =
    if get_or s.used tile false
    then s
    else record { hint = s.hint ++ tile ∷ []; used = set s.used tile true }

unfoldable pub add_tiles : HintState → List ℕ → HintState
add_tiles s [] = s
add_tiles s (tile ∷ tiles) = add_tiles (add_tile s tile) tiles

-- The nested loops over `stable_per_window`.
unfoldable pub collect_hint : HintState → List (List ℕ) → HintState
collect_hint s [] = s
collect_hint s (tiles ∷ windows) = collect_hint (add_tiles s tiles) windows

pub record HintResult : Type 0 where
  pub accepted : Bool
  pub hint : List ℕ
  pub effective_group : ℕ

-- The group that is chosen after the loop over the windows.
unfoldable pub chosen_group : (tile_num compute_sms nominal : ℕ) → WindowScan → Result ℕ
chosen_group tile_num compute_sms nominal s = elim s.full_window_seen [
  | true ↦ ok s.effective_group
  | false ↦ do waves ← div_up tile_num compute_sms; ok (min nominal waves)
]

-- What follows: too small a group is refused, otherwise the stable tiles are collected.
unfoldable pub finish_hint : (tile_num min_effective : ℕ) → List (List ℕ) → ℕ → HintResult
finish_hint tile_num min_effective windows group =
    if ltb group min_effective
    then record { accepted = false; hint = []; effective_group = group }
    else record {
      accepted = true;
      hint = (collect_hint (record { hint = []; used = replicate tile_num false }) windows).hint;
      effective_group = group;
    }

-- A zero `compute_sms` raises: in the first window, or, where there is none, in `div_up`.
unfoldable pub compute_stable_hint_from_rounds :
    List (List Sample)
    → (tile_num window_size compute_sms nominal min_effective : ℕ) → Result HintResult
compute_stable_hint_from_rounds [] tile_num size compute_sms nominal min_effective =
    err runtime_error
compute_stable_hint_from_rounds (r ∷ rs) tile_num size zero nominal min_effective =
    err zero_division
compute_stable_hint_from_rounds (r ∷ rs) tile_num size (suc c) nominal min_effective = do
  wave_num ← div_up tile_num size
  let s =
      scan_windows (r ∷ rs) tile_num size (suc c) nominal
        (record { stable_per_window = []; effective_group = nominal; full_window_seen = false })
        (range wave_num)
  group ← chosen_group tile_num (suc c) nominal s
  ok (finish_hint tile_num min_effective s.stable_per_window group)
