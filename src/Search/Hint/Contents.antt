-- ===== src/Search/Hint/Contents.antt =====
-- The result of `compute_stable_hint_from_rounds`: which tiles an accepted hint holds.
use ooverlap.Prelude.{
  ℕ, zero, suc, ◌<◌, ◌≡◌, ◌∙◌, sym, ◌↔◌, true, false, List, [], ◌∷◌, map, replicate, range,
  contains, Nodup, All, arith,
}
use ooverlap.Prelude.Distinct.{All-of_contains}
use ooverlap.Prelude.Result.{ok, >>=-eq-ok}
use ooverlap.Search.Geometry.{div_up}
use ooverlap.Search.Reorder.Scan.{scan_start-IsScan}
use ooverlap.Search.Hint.{
  Sample, WindowScan, window_tiles, scan_windows, collect_hint, HintResult, chosen_group,
  finish_hint, compute_stable_hint_from_rounds,
}
use ooverlap.Search.Hint.Stable.{
  IsStableIn, stable_per_window-scan_windows, collect_hint-IsHint, windows_in_grid,
  contains_any_iff,
}

abbrev pub first_scan : ℕ → WindowScan
first_scan nominal = record {
  stable_per_window = [];
  effective_group = nominal;
  full_window_seen = false;
}

-- A result that is returned came through the loop over the windows.
pub record CameFrom (rounds : List (List Sample)) (tile_num size c nominal minimum : ℕ)
    (r : HintResult) : Type 0 where
  pub waves : ℕ
  pub rounded : div_up tile_num size ≡ ok waves
  pub positive_size : 0 < size
  pub positive_sms : 0 < c
  pub group : ℕ
  pub chosen :
      chosen_group tile_num c nominal
        (scan_windows rounds tile_num size c nominal (first_scan nominal) (range waves))
      ≡ ok group
  pub finished :
      r
      ≡ finish_hint tile_num minimum
          (scan_windows rounds tile_num size c nominal
            (first_scan nominal)
            (range waves)).stable_per_window
          group

pub div_up_divisor : (x y : ℕ) {q : ℕ} → div_up x y ≡ ok q → 0 < y
unfolding div_up
div_up_divisor x zero h = cc
div_up_divisor x (suc y) h = omega arith

pub came_from :
    (rounds : List (List Sample)) (tile_num size c nominal minimum : ℕ) {r : HintResult}
    → compute_stable_hint_from_rounds rounds tile_num size c nominal minimum ≡ ok r
    → CameFrom rounds tile_num size c nominal minimum r
unfolding compute_stable_hint_from_rounds
came_from [] tile_num size c nominal minimum h = cc
came_from (x ∷ rs) tile_num size zero nominal minimum h = cc
came_from (x ∷ rs) tile_num size (suc c) nominal minimum h =
    let (waves, rounded, h') = >>=-eq-ok (div_up tile_num size) _ h in
    let scanned =
      scan_windows (x ∷ rs) tile_num size (suc c) nominal (first_scan nominal) (range waves) in
    let (group, chosen, h'') = >>=-eq-ok (chosen_group tile_num (suc c) nominal scanned) _ h' in
    record {
      waves = waves;
      rounded = rounded;
      positive_size = div_up_divisor tile_num size rounded;
      positive_sms = omega arith;
      group = group;
      chosen = chosen;
      finished =
          let same : ok (finish_hint tile_num minimum scanned.stable_per_window group) ≡ ok _ =
            h'' in
          cc;
    }

-- An accepted hint holds, each once and inside the grid, exactly the tiles that finished in one and
-- the same window of the grid in every sample of every round.
pub compute_stable_hint_from_rounds-holds :
    (rounds : List (List Sample)) (tile_num size c nominal minimum : ℕ) {r : HintResult}
    → compute_stable_hint_from_rounds rounds tile_num size c nominal minimum ≡ ok r
    → r.accepted ≡ true
    → Nodup r.hint
      × All (λ x. x < tile_num) r.hint
      × ((x : ℕ) → (contains x r.hint ≡ true) ↔ ((w : ℕ) × IsStableIn rounds tile_num size x w))
unfolding finish_hint
compute_stable_hint_from_rounds-holds rounds tile_num size c nominal minimum {r} h accepted =
    let v = came_from rounds tile_num size c nominal minimum h in
    let tiles = window_tiles rounds tile_num size c nominal in
    let windows = map tiles (range v.waves) in
    let listed =
      stable_per_window-scan_windows rounds tile_num size c nominal (range v.waves)
        (first_scan nominal) in
    let found =
      collect_hint-IsHint tile_num windows (record { hint = []; used = replicate tile_num false })
        (windows_in_grid rounds tile_num size c nominal (range v.waves))
        (scan_start-IsScan tile_num) in
    let hint : r.hint
        ≡ (collect_hint (record { hint = []; used = replicate tile_num false }) windows).hint =
      ground (arith, v.finished, accepted, listed) in
    let inside = contains_any_iff rounds tile_num size c nominal v.waves in
    (
      rw hint found.scan.distinct,
      rw hint (
          All-of_contains _ λ x m.
            let (w, s) = (inside x v.positive_size v.rounded).0 (sym (found.holds x) ∙ m) in
            s.in_grid),
      λ x. rw (hint, found.holds x) (inside x v.positive_size v.rounded),
    )
