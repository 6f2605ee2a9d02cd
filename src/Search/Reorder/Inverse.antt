-- ===== src/Search/Reorder/Inverse.antt =====
-- The order that a solution saves is an order of all tiles, and its map is the inverse.
use ooverlap.Prelude.{
  ℕ, zero, suc, ◌<◌, ◌≡◌, refl, ◌∙◌, ap, inl, inr, Bool, true, false, not, ◌&&◌, List, [], ◌∷◌,
  ◌++◌, length, get_or, replicate, filter, range, contains, Nodup, leb, ltb, Bool-cases, arith,
  length-append, length-replicate, contains-append,
}
use ooverlap.Prelude.Int.{ℤ, pos, negsuc, in_window}
use ooverlap.Prelude.Result.{ok, err, value_error, >>=-eq-ok}
use ooverlap.Prelude.Distinct.{
  Nodup-append, Nodup-filter, Nodup-range_from, contains-filter, contains-range_from,
  All-of_contains, length-filter_unmarked,
}
use ooverlap.Search.Reorder.{
  HintScan, scan_tile, scan_hint, scan_start, FullOrder, finish_order,
  build_full_order_and_reorder_map,
}
use ooverlap.Search.Reorder.Scan.{IsScan, scan_start-IsScan, scan_hint-IsScan}
use ooverlap.Search.Reorder.Positions.{length-write_positions, write_positions_lem}

-- Every tile of the grid, once, and the map is as long as the grid.
pub record IsOrder (n : ℕ) (o : FullOrder) : Type 0 where
  pub size : length o.full_tile_order ≡ n
  pub distinct : Nodup o.full_tile_order
  pub complete : (x : ℕ) → contains x o.full_tile_order ≡ ltb x n
  pub map_size : length o.reorder_map ≡ n
  pub positions :
      (k : ℕ) → k < n → get_or o.reorder_map (get_or o.full_tile_order k 0) (negsuc 0) ≡ pos k

module _ (n : ℕ) (s : HintScan) (v : IsScan n s) where
  abbrev tail : List ℕ
  tail = filter (λ x. not (get_or s.used x false)) (range n)

  size_of_order : length (s.stable_prefix ++ tail) ≡ n
  size_of_order = omega (
    arith,
    length-append {0} s.stable_prefix tail,
    v.total,
    length-filter_unmarked s.used (λ x. get_or s.used x false) 0 n v.marks
        (λ i. ap (λ j. get_or s.used j false) (omega arith)),
  )

  distinct_order : Nodup (s.stable_prefix ++ tail)
  distinct_order =
      Nodup-append s.stable_prefix tail v.distinct (Nodup-filter _ (range n) (Nodup-range_from 0 n))
        λ x m.
          contains-filter x (λ y. not (get_or s.used y false)) (range n)
          ∙ ground (arith, v.marked x, m)

  marked_in_grid : (us : List Bool) (x : ℕ) → get_or us x false ≡ true → x < length us
  marked_in_grid [] x h = cc
  marked_in_grid (u ∷ us) zero h = omega arith
  marked_in_grid (u ∷ us) (suc x) h = omega (arith, marked_in_grid us x h)

  complete_order : (x : ℕ) → contains x (s.stable_prefix ++ tail) ≡ ltb x n
  complete_order x =
      contains-append x s.stable_prefix tail
      ∙ ground (
        arith,
        contains-filter x (λ y. not (get_or s.used y false)) (range n),
        contains-range_from x 0 n,
        v.marked x,
        marked_in_grid s.used x,
        v.marks,
      )

  pub finish_order-IsOrder : IsOrder n (finish_order n s)
  unfolding finish_order
  finish_order-IsOrder =
      let order = s.stable_prefix ++ tail in
      let blank = replicate n (negsuc 0) in
      let blank_size = length-replicate n (negsuc 0) in
      record {
        size = size_of_order;
        distinct = distinct_order;
        complete = complete_order;
        map_size = length-write_positions blank 0 order ∙ blank_size;
        positions = λ k h.
            write_positions_lem blank 0 k order (negsuc 0) distinct_order
              (rw blank_size (All-of_contains order λ x m. ground (arith, complete_order x, m)))
              (rw size_of_order h)
            ∙ ap pos (omega arith);
      }

-- What `build_full_order_and_reorder_map` returns orders every tile of the grid exactly once, and
-- its map gives each tile its place in that order.
pub build_full_order_and_reorder_map-IsOrder :
    (n : ℕ) (hint : List ℤ) {o : FullOrder}
    → build_full_order_and_reorder_map n hint ≡ ok o
    → IsOrder n o
unfolding build_full_order_and_reorder_map
build_full_order_and_reorder_map-IsOrder n hint e =
    let (s, scanned, done) = >>=-eq-ok (scan_hint n (scan_start n) hint) _ e in
    let v = scan_hint-IsScan n hint (scan_start n) (scan_start-IsScan n) scanned in
    let same : ok (finish_order n s) ≡ ok _ = done in
    ground (arith, finish_order-IsOrder n s v, same)

-- `0 <= x < tile_num` for every item.
abbrev pub hint_in_grid : ℕ → List ℤ → Bool
hint_in_grid n [] = true
hint_in_grid n (x ∷ hint) = in_window 0 n x && hint_in_grid n hint

scan_hint_total :
    (n : ℕ) (hint : List ℤ) (s : HintScan)
    → hint_in_grid n hint ≡ true
    → (t : HintScan) × (scan_hint n s hint ≡ ok t)
unfolding scan_hint
scan_hint_total n [] s h = (s, refl)
scan_hint_total n (negsuc x ∷ hint) s h = cc
scan_hint_total n (pos x ∷ hint) s h = elim (Bool-cases (leb n x)) [
  | inl big ↦ absurd (ground arith)
  | inr small ↦ rw small (scan_hint_total n hint (scan_tile s x) (ground arith))
]

scan_hint_refused :
    (n : ℕ) (hint : List ℤ) (s : HintScan)
    → hint_in_grid n hint ≡ false
    → scan_hint n s hint ≡ err value_error
unfolding scan_hint
scan_hint_refused n [] s h = cc
scan_hint_refused n (negsuc x ∷ hint) s h = refl
scan_hint_refused n (pos x ∷ hint) s h = elim (Bool-cases (leb n x)) [
  | inl big ↦ rw big
  | inr small ↦ rw small (scan_hint_refused n hint (scan_tile s x) (ground arith))
]

-- A hint is accepted exactly when all its tiles lie in the grid; otherwise it is a `ValueError`.
pub build_full_order_and_reorder_map_total :
    (n : ℕ) (hint : List ℤ)
    → (hint_in_grid n hint ≡ true
        → (o : FullOrder) × (build_full_order_and_reorder_map n hint ≡ ok o))
      × (hint_in_grid n hint ≡ false → build_full_order_and_reorder_map n hint ≡ err value_error)
unfolding build_full_order_and_reorder_map
build_full_order_and_reorder_map_total n hint = (
  λ h. let (t, e) = scan_hint_total n hint (scan_start n) h in (finish_order n t, rw e),
  λ h. rw (scan_hint_refused n hint (scan_start n) h),
)
