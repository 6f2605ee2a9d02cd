-- ===== src/Search/Hint/Stable.antt =====
-- The hint holds the stable tiles, each once.
use ooverlap.Prelude.{
  ℕ, zero, suc, ◌+◌, ◌*◌, ◌<◌, ◌≤◌, ◌≡◌, refl, ◌∙◌, ap, sym, ◌↔◌, inl, inr, Bool, true, false, ◌&&◌,
  ◌||◌, List, [], ◌∷◌, ◌++◌, map, length, get_or, range, range_from, contains, All, ltb, ◌==◌,
  Bool-cases, arith, append_assoc, append-nil, contains-append, dec_lt,
}
use ooverlap.Prelude.Int.{negsuc, in_window}
use ooverlap.Prelude.Result.{ok}
use ooverlap.Prelude.Distinct.{contains-filter, contains-range_from, All-of_contains}
use ooverlap.Search.Geometry.{div_up}
use ooverlap.Search.Segments.Cover.{div_up_bounds}
use ooverlap.Search.Reorder.{HintScan, scan_tile}
use ooverlap.Search.Reorder.Scan.{IsScan, scan_tile-IsScan}
use ooverlap.Search.Hint.{
  Sample, count_in_window, is_stable, stable_tiles, window_low, window_high, WindowScan,
  window_tiles, scan_window, scan_windows, HintState, add_tile, add_tiles, collect_hint,
}

-- In every sample of every round the tile finishes in the window.
abbrev pub AlwaysIn : (lo hi tile : ℕ) → List (List Sample) → Type 0
AlwaysIn lo hi tile rounds =
    All (λ samples. All (λ row. in_window lo hi (get_or row tile (negsuc 0)) ≡ true) samples) rounds

count_in_window-le :
    (lo hi : ℕ) (samples : List Sample) (tile : ℕ)
    → count_in_window lo hi samples tile ≤ length samples
unfolding count_in_window
count_in_window-le lo hi [] tile = omega arith
count_in_window-le lo hi (row ∷ samples) tile =
    ground (arith, count_in_window-le lo hi samples tile)

count_in_window_full :
    (lo hi : ℕ) (samples : List Sample) (tile : ℕ)
    → count_in_window lo hi samples tile ≡ length samples
    → All (λ row. in_window lo hi (get_or row tile (negsuc 0)) ≡ true) samples
unfolding count_in_window
count_in_window_full lo hi [] tile h = tt
count_in_window_full lo hi (row ∷ samples) tile h =
    elim (Bool-cases (in_window lo hi (get_or row tile (negsuc 0)))) [
      | inl e ↦
          let count : suc (count_in_window lo hi samples tile) ≡ suc (length samples) = rw e at h in
          (e, count_in_window_full lo hi samples tile (omega arith))
      | inr e ↦
          let count : count_in_window lo hi samples tile ≡ suc (length samples) = rw e at h in
          absurd (omega (arith, count_in_window-le lo hi samples tile))
    ]

count_in_window-All :
    (lo hi : ℕ) (samples : List Sample) (tile : ℕ)
    → All (λ row. in_window lo hi (get_or row tile (negsuc 0)) ≡ true) samples
    → count_in_window lo hi samples tile ≡ length samples
unfolding count_in_window
count_in_window-All lo hi [] tile h = refl
count_in_window-All lo hi (row ∷ samples) tile h =
    rw h.0 (ap suc (count_in_window-All lo hi samples tile h.1))

pub is_stable_iff :
    (lo hi : ℕ) (rounds : List (List Sample)) (tile : ℕ)
    → (is_stable lo hi rounds tile ≡ true) ↔ AlwaysIn lo hi tile rounds
unfolding is_stable
is_stable_iff lo hi [] tile = (λ h. tt, λ h. refl)
is_stable_iff lo hi (samples ∷ rounds) tile = (
  λ h. (
    count_in_window_full lo hi samples tile (ground arith),
    (is_stable_iff lo hi rounds tile).0 (ground arith),
  ),
  λ h.
      ground (
        arith,
        count_in_window-All lo hi samples tile h.0,
        (is_stable_iff lo hi rounds tile).1 h.1,
      ),
)

module _ (rounds : List (List Sample)) (tile_num size compute_sms nominal : ℕ) where
  stable_per_window-scan_window :
      (s : WindowScan) (w : ℕ)
      → (scan_window rounds tile_num size compute_sms nominal s w).stable_per_window
        ≡ s.stable_per_window ++ window_tiles rounds tile_num size compute_sms nominal w ∷ []
  unfolding scan_window
  stable_per_window-scan_window s w = ground arith

  pub stable_per_window-scan_windows :
      (ws : List ℕ) (s : WindowScan)
      → (scan_windows rounds tile_num size compute_sms nominal s ws).stable_per_window
        ≡ s.stable_per_window ++ map (window_tiles rounds tile_num size compute_sms nominal) ws
  unfolding scan_windows
  stable_per_window-scan_windows [] s = sym (append-nil s.stable_per_window)
  stable_per_window-scan_windows (w ∷ ws) s =
      stable_per_window-scan_windows ws (scan_window rounds tile_num size compute_sms nominal s w)
      ∙ ap (λ l. l ++ map (window_tiles rounds tile_num size compute_sms nominal) ws)
          (stable_per_window-scan_window s w)
      ∙ append_assoc s.stable_per_window
          (window_tiles rounds tile_num size compute_sms nominal w ∷ [])
          (map (window_tiles rounds tile_num size compute_sms nominal) ws)

abbrev pub as_scan : HintState → HintScan
as_scan s = record { used = s.used; stable_prefix = s.hint }

abbrev pub contains_any : ℕ → List (List ℕ) → Bool
contains_any x [] = false
contains_any x (xs ∷ xss) = contains x xs || contains_any x xss

module _ (n : ℕ) where
  -- What holds of the hint so far, with the tiles that it holds beside the `given` ones.
  pub record IsHint (given : HintState) (added : ℕ → Bool) (s : HintState) : Type 0 where
    pub scan : IsScan n (as_scan s)
    pub holds : (x : ℕ) → contains x s.hint ≡ contains x given.hint || added x

  add_tile-scan : (s : HintState) (x : ℕ) → as_scan (add_tile s x) ≡ scan_tile (as_scan s) x
  unfolding add_tile scan_tile
  add_tile-scan s x = ground arith

  add_tile-IsHint :
      (s : HintState) (x : ℕ) → x < n → IsScan n (as_scan s) → IsHint s (λ y. y == x) (add_tile s x)
  add_tile-IsHint s x h v = record {
    scan = rw (add_tile-scan s x) (scan_tile-IsScan (as_scan s) x h v);
    holds = λ y. held y;
  }
    where
      held : (y : ℕ) → contains y (add_tile s x).hint ≡ contains y s.hint || y == x
      held y = unfold add_tile in ground (arith, contains-append y s.hint (x ∷ []), v.marked x)

  add_tiles-IsHint :
      (tiles : List ℕ) (s : HintState)
      → All (λ x. x < n) tiles
      → IsScan n (as_scan s)
      → IsHint s (λ y. contains y tiles) (add_tiles s tiles)
  unfolding add_tiles
  add_tiles-IsHint [] s h v = record { scan = v; holds = λ x. ground arith }
  add_tiles-IsHint (t ∷ tiles) s h v =
      let one = add_tile-IsHint s t h.0 v in
      let rest = add_tiles-IsHint tiles (add_tile s t) h.1 one.scan in
      record { scan = rest.scan; holds = λ x. ground (arith, rest.holds x, one.holds x) }

  pub collect_hint-IsHint :
      (windows : List (List ℕ)) (s : HintState)
      → All (λ tiles. All (λ x. x < n) tiles) windows
      → IsScan n (as_scan s)
      → IsHint s (λ y. contains_any y windows) (collect_hint s windows)
  unfolding collect_hint
  collect_hint-IsHint [] s h v = record { scan = v; holds = λ x. ground arith }
  collect_hint-IsHint (tiles ∷ windows) s h v =
      let one = add_tiles-IsHint tiles s h.0 v in
      let rest = collect_hint-IsHint windows (add_tiles s tiles) h.1 one.scan in
      record { scan = rest.scan; holds = λ x. ground (arith, rest.holds x, one.holds x) }

-- The tile finishes in window `w` of the grid in every sample of every round.
pub record IsStableIn (rounds : List (List Sample)) (tile_num size tile w : ℕ) : Type 0 where
  pub in_grid : tile < tile_num
  pub window_exists : w * size < tile_num
  pub always : AlwaysIn (window_low size w) (window_high tile_num size w) tile rounds

module _ (rounds : List (List Sample)) (tile_num size compute_sms nominal : ℕ) where
  abbrev pub tiles_of : ℕ → List ℕ
  tiles_of = window_tiles rounds tile_num size compute_sms nominal

  contains-window_tiles :
      (w x : ℕ)
      → contains x (tiles_of w)
        ≡ ltb x tile_num && is_stable (window_low size w) (window_high tile_num size w) rounds x
  unfolding stable_tiles
  contains-window_tiles w x =
      contains-filter x (is_stable (window_low size w) (window_high tile_num size w) rounds)
        (range tile_num)
      ∙ ground (arith, contains-range_from x 0 tile_num)

  pub windows_in_grid :
      (ws : List ℕ) → All (λ tiles. All (λ x. x < tile_num) tiles) (map tiles_of ws)
  windows_in_grid [] = tt
  windows_in_grid (w ∷ ws) = (
    All-of_contains (tiles_of w) (λ x m. ground (arith, contains-window_tiles w x, m)),
    windows_in_grid ws,
  )

  contains_any_sound :
      (start count x : ℕ)
      → contains_any x (map tiles_of (range_from start count)) ≡ true
      → (w : ℕ) × (w < start + count) × (contains x (tiles_of w) ≡ true)
  contains_any_sound start zero x h = cc
  contains_any_sound start (suc count) x h = elim (Bool-cases (contains x (tiles_of start))) [
    | inl e ↦ (start, omega arith, e)
    | inr e ↦
        let (w, b, m) = contains_any_sound (suc start) count x (ground arith) in (w, omega arith, m)
  ]

  contains_any_complete :
      (start count x w : ℕ)
      → start ≤ w
      → w < start + count
      → contains x (tiles_of w) ≡ true
      → contains_any x (map tiles_of (range_from start count)) ≡ true
  contains_any_complete start zero x w a b m = absurd (omega arith)
  contains_any_complete start (suc count) x w a b m = elim (dec_lt start w) [
    | yes later ↦ ground (arith, contains_any_complete (suc start) count x w later (omega arith) m)
    | no first ↦
        let same : w ≡ start = omega arith in
        let found : contains x (tiles_of start) ≡ true = rw same at m in ground (arith, found)
  ]

  -- Being in some window's list of stable tiles is being stable in a window of the grid.
  pub contains_any_iff :
      (waves x : ℕ)
      → 0 < size
      → div_up tile_num size ≡ ok waves
      → (contains_any x (map tiles_of (range waves)) ≡ true)
        ↔ ((w : ℕ) × IsStableIn rounds tile_num size x w)
  contains_any_iff waves x h e =
      let (low, high) = div_up_bounds tile_num size h e in
      (
        λ m.
            let (w, b, found) = contains_any_sound 0 waves x m in
            let grown : (w + 1) * size ≤ waves * size = grind arith in
            (
              w,
              record {
                in_grid = ground (arith, contains-window_tiles w x, found);
                window_exists = omega arith;
                always =
                    (is_stable_iff (window_low size w) (window_high tile_num size w) rounds x).0
                      (ground (arith, contains-window_tiles w x, found));
              },
            ),
        λ (w, v).
            let below : w < waves = grind (arith, v.window_exists, low) in
            contains_any_complete 0 waves x w (omega arith) (omega arith) (
              ground (
                arith,
                contains-window_tiles w x,
                v.in_grid,
                (is_stable_iff (window_low size w) (window_high tile_num size w) rounds x).1
                    v.always,
              )),
      )
