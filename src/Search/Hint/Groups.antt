-- ===== src/Search/Hint/Groups.antt =====
-- The result of `compute_stable_hint_from_rounds`: the group size, and when a hint is refused.
use ooverlap.Prelude.{
  ℕ, ◌+◌, ◌-◌, ◌*◌, ◌/◌, ◌<◌, ◌≤◌, ◌≡◌, inl, inr, true, false, List, [], ◌∷◌, length, range, min,
  Bool-cases, ==_iff, arith,
}
use native.Mathlib.Nat.{le_trans}
use ooverlap.Prelude.Membership.{In, here, there, In-range_from}
use ooverlap.Prelude.Result.{ok, >>=-eq-ok}
use ooverlap.Search.Geometry.{div_up}
use ooverlap.Search.Segments.Cover.{div_up_bounds, mul_mono}
use ooverlap.Search.Hint.{
  Sample, WindowScan, stable_tiles, window_low, window_high, window_group, is_full_window,
  scan_window, scan_windows, HintResult, chosen_group, finish_hint, compute_stable_hint_from_rounds,
}
use ooverlap.Search.Hint.Contents.{came_from, first_scan}

quotient_le : (l c k : ℕ) → 0 < c → min (l / c) k * c ≤ l
quotient_le l c k h =
    let whole : l / c * c ≤ l = grind arith in
    le_trans (mul_mono (min (l / c) k) (l / c) c (omega arith)) whole

module _ (rounds : List (List Sample)) (tile_num size c nominal : ℕ) where
  abbrev scanned : WindowScan → List ℕ → WindowScan
  scanned = scan_windows rounds tile_num size c nominal

  abbrev step : WindowScan → ℕ → WindowScan
  step = scan_window rounds tile_num size c nominal

  abbrev group_of : ℕ → ℕ
  group_of = window_group rounds tile_num size c nominal

  step_keeps :
      (s : WindowScan) (w : ℕ)
      → ((step s w).effective_group ≤ s.effective_group)
        × (s.full_window_seen ≡ true → (step s w).full_window_seen ≡ true)
  unfolding scan_window
  step_keeps s w = (ground arith, λ h. ground arith)

  step_full :
      (s : WindowScan) (w : ℕ)
      → is_full_window rounds tile_num size c nominal w ≡ true
      → ((step s w).effective_group ≤ group_of w) × ((step s w).full_window_seen ≡ true)
  unfolding scan_window
  step_full s w h = (ground arith, ground arith)

  scan_keeps :
      (ws : List ℕ) (s : WindowScan)
      → ((scanned s ws).effective_group ≤ s.effective_group)
        × (s.full_window_seen ≡ true → (scanned s ws).full_window_seen ≡ true)
  unfolding scan_windows
  scan_keeps [] s = (omega arith, λ h. h)
  scan_keeps (w ∷ ws) s =
      let one = step_keeps s w in
      let rest = scan_keeps ws (step s w) in (omega (arith, one.0, rest.0), λ h. rest.1 (one.1 h))

  scan_full :
      (ws : List ℕ) (s : WindowScan) (w : ℕ)
      → In w ws
      → is_full_window rounds tile_num size c nominal w ≡ true
      → ((scanned s ws).effective_group ≤ group_of w) × ((scanned s ws).full_window_seen ≡ true)
  unfolding scan_windows
  scan_full [] s w m h = elim m [ ]
  scan_full (v ∷ ws) s w here h =
      let one = step_full s w h in
      let rest = scan_keeps ws (step s w) in (omega (arith, one.0, rest.0), rest.1 one.1)
  scan_full (v ∷ ws) s w (there m) h = scan_full ws (step s v) w m h

  chosen_group-le :
      (s : WindowScan) {group : ℕ}
      → s.effective_group ≤ nominal
      → chosen_group tile_num c nominal s ≡ ok group
      → (group ≤ nominal) × (s.full_window_seen ≡ true → group ≡ s.effective_group)
  unfolding chosen_group
  chosen_group-le s h e = elim (Bool-cases s.full_window_seen) [
    | inl seen ↦ let same = rw seen at e in (ground (arith, same, h), λ _. ground (arith, same))
    | inr unseen ↦
        let (waves, found, rest) = >>=-eq-ok (div_up tile_num c) _ (rw unseen at e) in
        (ground (arith, rest), λ seen. absurd (ground arith))
  ]

  full_window :
      (w : ℕ) → (w + 1) * size ≤ tile_num → is_full_window rounds tile_num size c nominal w ≡ true
  unfolding is_full_window
  full_window w h =
      let whole : min ((w + 1) * size) tile_num - w * size ≡ size = omega arith in
      (==_iff _ size).1 whole

  group_of-le :
      (w : ℕ)
      → 0 < c
      → group_of w * c
        ≤ length (stable_tiles tile_num (window_low size w) (window_high tile_num size w) rounds)
  unfolding window_group
  group_of-le w h =
      quotient_le
        (length (stable_tiles tile_num (window_low size w) (window_high tile_num size w) rounds)) c
        nominal h

-- The group of an accepted hint lies between the least that was asked for and the nominal one, and
-- every full window has that many whole waves of stable tiles. A refused hint is empty, and its group
-- was too small.
pub compute_stable_hint_from_rounds-group :
    (rounds : List (List Sample)) (tile_num size c nominal minimum : ℕ) {r : HintResult}
    → compute_stable_hint_from_rounds rounds tile_num size c nominal minimum ≡ ok r
    → (r.effective_group ≤ nominal)
      × (r.accepted ≡ true → minimum ≤ r.effective_group)
      × (r.accepted ≡ false → (r.hint ≡ []) × (r.effective_group < minimum))
      × ((w : ℕ)
          → (w + 1) * size ≤ tile_num
          → r.effective_group * c
            ≤ length (stable_tiles tile_num (w * size) ((w + 1) * size) rounds))
unfolding finish_hint
compute_stable_hint_from_rounds-group rounds tile_num size c nominal minimum {r} h =
    let v = came_from rounds tile_num size c nominal minimum h in
    let s = scan_windows rounds tile_num size c nominal (first_scan nominal) (range v.waves) in
    let start =
      (scan_keeps rounds tile_num size c nominal (range v.waves) (first_scan nominal)).0 in
    let (le, seen) = chosen_group-le rounds tile_num size c nominal s start v.chosen in
    let same : r.effective_group ≡ v.group = ground (arith, v.finished) in
    (
      omega (arith, same, le),
      λ a. ground (arith, v.finished, a),
      λ a. (ground (arith, v.finished, a), ground (arith, v.finished, a)),
      λ w full.
          let (low, high) = div_up_bounds tile_num size v.positive_size v.rounded in
          let below : w < v.waves = grind (arith, v.positive_size) in
          let place = In-range_from w 0 v.waves (omega arith) (omega arith) in
          let (le_group, found) =
            scan_full rounds tile_num size c nominal (range v.waves) (first_scan nominal) w place
              (full_window rounds tile_num size c nominal w full) in
          let bound = group_of-le rounds tile_num size c nominal w v.positive_sms in
          let top : min ((w + 1) * size) tile_num ≡ (w + 1) * size = omega arith in
          let group_le : r.effective_group ≤ window_group rounds tile_num size c nominal w =
            omega (arith, same, seen found, le_group) in
          let scaled =
            mul_mono r.effective_group (window_group rounds tile_num size c nominal w) c group_le in
          le_trans scaled (rw top at bound),
    )
