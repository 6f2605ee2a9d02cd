-- ===== src/Search/Reorder/Agreement.antt =====
-- `reorder_indices`, which the measured runs use, against the map that a solution saves.
use ooverlap.Prelude.{
  ℕ, zero, suc, ◌+◌, ◌<◌, ◌≡◌, refl, ◌∙◌, ap, inl, inr, Bool, true, false, not, List, [], sym, ◌∷◌,
  ◌++◌, length, get_or, set, replicate, filter, range, range_from, contains, Nodup, All, leb, ltb,
  map, Bool-cases, arith, length-set, length-map, length-replicate, contains-append, append_assoc,
  append-nil, get_or-replicate, ==_refl,
}
use ooverlap.Prelude.Int.{ℤ, pos, negsuc, is_negative}
use ooverlap.Prelude.Result.{ok}
use ooverlap.Search.Reorder.{
  HintScan, scan_tile, scan_hint, scan_start, write_positions, FullOrder, finish_order, list_index,
  build_full_order_and_reorder_map, place_hint, place_rest, reorder_indices,
}
use ooverlap.Search.Reorder.Scan.{IsScan, scan_start-IsScan, scan_tile-IsScan}
use ooverlap.Search.Reorder.Positions.{
  length-write_positions, write_positions-of_absent, write_positions_lem, index, index_lem,
}

append-write_positions :
    (m : List ℤ) (p : ℕ) (xs ys : List ℕ)
    → write_positions m p (xs ++ ys) ≡ write_positions (write_positions m p xs) (p + length xs) ys
unfolding write_positions
append-write_positions m p [] ys = ap (λ q. write_positions m q ys) (omega arith)
append-write_positions m p (x ∷ xs) ys =
    append-write_positions (set m x (pos p)) (suc p) xs ys
    ∙ ap (λ q. write_positions (write_positions (set m x (pos p)) (suc p) xs) q ys) (omega arith)

write_positions-map-suc :
    (v : ℤ) (m : List ℤ) (p : ℕ) (xs : List ℕ)
    → write_positions (v ∷ m) p (map suc xs) ≡ v ∷ write_positions m p xs
unfolding write_positions
write_positions-map-suc v m p [] = refl
write_positions-map-suc v m p (x ∷ xs) = write_positions-map-suc v (set m x (pos p)) (suc p) xs

filter-range_suc :
    (test : ℕ → Bool) (s n : ℕ)
    → filter test (range_from (suc s) n) ≡ map suc (filter (λ x. test (suc x)) (range_from s n))
filter-range_suc test s zero = refl
filter-range_suc test s (suc n) = elim (Bool-cases (test (suc s))) [
  | inl h ↦ rw h (ap (λ r. suc s ∷ r) (filter-range_suc test (suc s) n))
  | inr h ↦ rw h (filter-range_suc test (suc s) n)
]

-- Filling the gaps in place is writing the positions of the tiles that are left.
place_rest-eq-write_positions :
    (m : List ℤ) (p : ℕ) (test : ℕ → Bool)
    → ((i : ℕ) → i < length m → test i ≡ is_negative (get_or m i (negsuc 0)))
    → place_rest p m ≡ write_positions m p (filter test (range (length m)))
unfolding place_rest write_positions
place_rest-eq-write_positions [] p test h = refl
place_rest-eq-write_positions (v ∷ m) p test h =
    let shifted = filter-range_suc test 0 (length m) in
    let later = λ (q : ℕ).
      place_rest-eq-write_positions m q (λ x. test (suc x)) (λ i j. h (suc i) (omega arith)) in
    let rest = filter (λ x. test (suc x)) (range (length m)) in
    elim (Bool-cases (test 0)) [
      | inl gap ↦
          let negative : is_negative v ≡ true = ground (arith, h 0, gap) in
          rw (negative, gap, shifted, write_positions-map-suc (pos p) m (suc p) rest, later (suc p))
      | inr kept ↦
          let given : is_negative v ≡ false = ground (arith, h 0, kept) in
          rw (given, kept, shifted, write_positions-map-suc v m p rest, later p)
    ]

place_hint-eq-write_positions :
    (m : List ℤ) (p : ℕ) (xs : List ℕ)
    → All (λ x. x < length m) xs
    → place_hint m p (map pos xs) ≡ ok (write_positions m p xs)
unfolding place_hint write_positions list_index
place_hint-eq-write_positions m p [] h = refl
place_hint-eq-write_positions m p (x ∷ xs) h =
    let inside : ltb x (length m) ≡ true = ground (arith, h.0) in
    rw inside
      (place_hint-eq-write_positions (set m x (pos p)) (suc p) xs (rw (length-set m x (pos p)) h.1))

abbrev mark_tile : HintScan → ℕ → HintScan
mark_tile s x = record { used = set s.used x true; stable_prefix = s.stable_prefix ++ x ∷ [] }

scan_tile-of_fresh :
    (s : HintScan) (x : ℕ) → get_or s.used x false ≡ false → scan_tile s x ≡ mark_tile s x
unfolding scan_tile
scan_tile-of_fresh s x h = rw h

-- On a hint with no repetition the scan appends the hint as it is.
scan_hint-of_distinct :
    (n : ℕ) (xs : List ℕ) (s : HintScan)
    → IsScan n s
    → Nodup xs
    → All (λ x. x < n) xs
    → ((x : ℕ) → contains x xs ≡ true → contains x s.stable_prefix ≡ false)
    → (t : HintScan) × (scan_hint n s (map pos xs) ≡ ok t)
      × (t.stable_prefix ≡ s.stable_prefix ++ xs)
      × IsScan n t
unfolding scan_hint
scan_hint-of_distinct n [] s v d b apart = (s, refl, sym (append-nil s.stable_prefix), v)
scan_hint-of_distinct n (x ∷ xs) s v d b apart =
    let small : leb n x ≡ false = ground (arith, b.0) in
    let here : contains x (x ∷ xs) ≡ true = rw (==_refl x) in
    let fresh : get_or s.used x false ≡ false = v.marked x ∙ apart x here in
    let step = scan_tile-of_fresh s x fresh in
    let kept : IsScan n (mark_tile s x) = rw step at (scan_tile-IsScan s x b.0 v) in
    let (t, scanned, prefix, w) =
      scan_hint-of_distinct n xs (mark_tile s x) kept d.1 b.1
        λ y m. contains-append y s.stable_prefix (x ∷ []) ∙ ground (arith, apart y, m, d.0) in
    (t, rw (small, step) scanned, prefix ∙ append_assoc s.stable_prefix (x ∷ []) xs, w)

-- The entries of a written map that are still negative are those of the tiles outside the order.
is_negative-write_positions :
    (n : ℕ) (xs : List ℕ) (x : ℕ)
    → Nodup xs
    → All (λ y. y < n) xs
    → is_negative (get_or (write_positions (replicate n (negsuc 0)) 0 xs) x (negsuc 0))
      ≡ not (contains x xs)
is_negative-write_positions n xs x d b =
    let blank = replicate n (negsuc 0) in
    elim (Bool-cases (contains x xs)) [
      | inl found ↦
          let place = index_lem x xs found in
          let b' : All (λ y. y < length blank) xs = rw (length-replicate n (negsuc 0)) b in
          let entry = write_positions_lem blank 0 (index x xs) xs (negsuc 0) d b' place.0 in
          rw (← place.1) (rw (entry, place.1, found))
      | inr absent ↦ rw (
        write_positions-of_absent blank 0 x xs (negsuc 0) absent,
        get_or-replicate n x (negsuc 0),
        absent,
      )
    ]

-- On a hint of distinct tiles of the grid, such as `compute_hint` returns, both functions succeed
-- and give the same map: what is measured is what is saved.
pub reorder_indices-eq-reorder_map :
    (n : ℕ) (hint : List ℕ)
    → Nodup hint
    → All (λ x. x < n) hint
    → (o : FullOrder) × (build_full_order_and_reorder_map n (map pos hint) ≡ ok o)
      × (reorder_indices n (map pos hint) ≡ ok o.reorder_map)
unfolding build_full_order_and_reorder_map reorder_indices finish_order
reorder_indices-eq-reorder_map n hint d b =
    let blank = replicate n (negsuc 0) in
    let size : length blank ≡ n = length-replicate n (negsuc 0) in
    let (t, scanned, prefix, w) =
      scan_hint-of_distinct n hint (scan_start n) (scan_start-IsScan n) d b (λ x m. refl) in
    let placed = place_hint-eq-write_positions blank 0 hint (rw size b) in
    let written = write_positions blank 0 hint in
    let written_size : length written ≡ n = length-write_positions blank 0 hint ∙ size in
    let unmarked : ℕ → Bool = λ x. not (get_or t.used x false) in
    let filled = place_rest-eq-write_positions written (length hint) unmarked λ i h.
      ap not (w.marked i ∙ ap (contains i) prefix)
      ∙ sym (is_negative-write_positions n hint i d b) in
    let split = append-write_positions blank 0 hint (filter unmarked (range n)) in
    let start : 0 + length hint ≡ length hint = omega arith in
    (
      finish_order n t,
      rw scanned,
      rw (placed, length-map pos hint)
          (ap ok (filled ∙ rw (written_size, prefix) (sym (rw start at split)))),
    )
