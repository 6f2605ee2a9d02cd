-- ===== src/Config/Grid/Remap.antt =====
-- Where `make_ra` sends a tile, and the segments of `make_segments`.
use ooverlap.Prelude.{
  ℕ, zero, suc, ◌+◌, ◌-◌, ◌*◌, ◌<◌, ◌≤◌, ◌≡◌, ◌≢◌, refl, sym, ap, ◌∙◌, ◌⊎◌, inl, inr, min, List,
  set, replicate, range_from, length, get_or, sum, All, arith, length-set, length-replicate,
  get_or-set_self, get_or-set_ne,
}
use native.Mathlib.Decide.{dec_lt}
use ooverlap.Prelude.Int.{pos}
use ooverlap.Config.Grid.{
  Reorder, identity, column_major, write_column, write_columns, make_ra, cut, make_segments,
}

-- Two tiles of a grid with the same index are in the same column, and in the same row.
index-injective :
    (cols r c r' c' : ℕ)
    → c < cols
    → c' < cols
    → r * cols + c ≡ r' * cols + c'
    → (r ≡ r') × (c ≡ c')
index-injective cols zero c zero c' p q h = (refl, omega (arith, h))
index-injective cols zero c (suc r') c' p q h = absurd (grind (arith, h, p))
index-injective cols (suc r) c zero c' p q h = absurd (grind (arith, h, q))
index-injective cols (suc r) c (suc r') c' p q h =
    let (same, same') = index-injective cols r c r' c' p q (omega (arith, h)) in
    (ap suc same, same')

index_bound : (rows cols r c : ℕ) → r < rows → c < cols → r * cols + c < rows * cols
index_bound zero cols r c p q = absurd (omega arith)
index_bound (suc rows) cols zero c p q = omega arith
index_bound (suc rows) cols (suc r) c p q = omega (arith, index_bound rows cols r c (omega arith) q)

length-write_column :
    (cols tc left tr p : ℕ) (h : List ℕ) → length (write_column cols tc left tr p h) ≡ length h
unfolding write_column
length-write_column cols tc zero tr p h = refl
length-write_column cols tc (suc left) tr p h =
    length-write_column cols tc left (suc tr) (suc p) (set h (tr * cols + tc) p)
    ∙ length-set h (tr * cols + tc) p

-- One column: its places hold consecutive values, and all other places what they held.
write_column-other :
    (cols tc left tr p : ℕ) (h : List ℕ) (r c : ℕ)
    → c < cols
    → tc < cols
    → (c ≢ tc) ⊎ (r < tr)
    → get_or (write_column cols tc left tr p h) (r * cols + c) 0 ≡ get_or h (r * cols + c) 0
unfolding write_column
write_column-other cols tc zero tr p h r c q q' away = refl
write_column-other cols tc (suc left) tr p h r c q q' away =
    let apart : tr * cols + tc ≢ r * cols + c = λ e.
      let (same, same') = index-injective cols tr tc r c q' q e in
      elim away [ inl ne ↦ ne (sym same') | inr above ↦ absurd (omega (arith, same, above)) ] in
    let away' : (c ≢ tc) ⊎ (r < suc tr) = elim away [
      | inl ne ↦ inl ne
      | inr above ↦ inr (omega (arith, above))
    ] in
    write_column-other cols tc left (suc tr) (suc p) (set h (tr * cols + tc) p) r c q q' away'
    ∙ get_or-set_ne h (tr * cols + tc) (r * cols + c) p 0 apart

write_column-own :
    (rows cols tc left tr p : ℕ) (h : List ℕ) (r : ℕ)
    → tc < cols
    → tr + left ≡ rows
    → length h ≡ rows * cols
    → tr ≤ r
    → r < rows
    → get_or (write_column cols tc left tr p h) (r * cols + tc) 0 ≡ p + (r - tr)
unfolding write_column
write_column-own rows cols tc zero tr p h r q total size low high =
    absurd (omega (arith, total, low, high))
write_column-own rows cols tc (suc left) tr p h r q total size low high = elim (dec_lt tr r) [
  | yes later ↦
      write_column-own rows cols tc left (suc tr) (suc p) (set h (tr * cols + tc) p) r q
        (omega (arith, total)) (length-set h (tr * cols + tc) p ∙ size) later high
      ∙ omega (arith, later)
  | no earlier ↦
      let here : r ≡ tr = omega (arith, earlier, low) in
      let inside : tr * cols + tc < length h =
        rw size (index_bound rows cols tr tc (omega (arith, total)) q) in
      rw here (
        write_column-other cols tc left (suc tr) (suc p) (set h (tr * cols + tc) p) tr tc q q
          (inr (omega arith))
        ∙ get_or-set_self h (tr * cols + tc) p 0 inside
        ∙ omega arith)
]

write_columns-done :
    (rows cols left tc p : ℕ) (h : List ℕ) (r c : ℕ)
    → c < tc
    → tc + left ≡ cols
    → get_or (write_columns rows cols left tc p h) (r * cols + c) 0 ≡ get_or h (r * cols + c) 0
unfolding write_columns
write_columns-done rows cols zero tc p h r c before total = refl
write_columns-done rows cols (suc left) tc p h r c before total =
    write_columns-done rows cols left (suc tc) (p + rows) (write_column cols tc rows 0 p h) r c
      (omega (arith, before)) (omega (arith, total))
    ∙ write_column-other cols tc rows 0 p h r c (omega (arith, before, total))
        (omega (arith, total)) (inl (λ e. omega (arith, e, before)))

write_columns-own :
    (rows cols left tc p : ℕ) (h : List ℕ) (r c : ℕ)
    → tc + left ≡ cols
    → p ≡ tc * rows
    → length h ≡ rows * cols
    → tc ≤ c
    → c < cols
    → r < rows
    → get_or (write_columns rows cols left tc p h) (r * cols + c) 0 ≡ c * rows + r
unfolding write_columns
write_columns-own rows cols zero tc p h r c total from size low high v =
    absurd (omega (arith, total, low, high))
write_columns-own rows cols (suc left) tc p h r c total from size low high v = elim (dec_lt tc c) [
  | yes later ↦
      write_columns-own rows cols left (suc tc) (p + rows) (write_column cols tc rows 0 p h) r c
        (omega (arith, total)) (omega (arith, from)) (length-write_column cols tc rows 0 p h ∙ size)
        later high v
  | no earlier ↦
      let here : c ≡ tc = omega (arith, earlier, low) in
      rw here (
        write_columns-done rows cols left (suc tc) (p + rows) (write_column cols tc rows 0 p h) r tc
          (omega arith) (omega (arith, total))
        ∙ write_column-own rows cols tc rows 0 p h r (omega (arith, total)) (omega arith) size
            (omega arith) v
        ∙ omega (arith, from))
]

-- In the order by columns, the tile in row `r` and column `c` of the grid is stored at its place when
-- the grid is read column by column.
pub make_ra-column_major :
    (rows cols r c : ℕ)
    → r < rows
    → c < cols
    → get_or (make_ra rows cols column_major) (r * cols + c) 0 ≡ c * rows + r
unfolding make_ra
make_ra-column_major rows cols r c v w =
    write_columns-own rows cols cols 0 0 (replicate (rows * cols) 0) r c (omega arith) (omega arith)
      (length-replicate (rows * cols) 0) (omega arith) w v

get_or-range_from : (s n i : ℕ) → i < n → get_or (range_from s n) i 0 ≡ s + i
get_or-range_from s zero i h = absurd (omega arith)
get_or-range_from s (suc n) zero h = omega arith
get_or-range_from s (suc n) (suc i) h = get_or-range_from (suc s) n i (omega arith) ∙ omega arith

-- In either order, two tiles of the grid that are stored at the same place are the same tile.
pub make_ra-injective :
    (rows cols : ℕ) (order : Reorder) (r c r' c' : ℕ)
    → r < rows
    → c < cols
    → r' < rows
    → c' < cols
    → get_or (make_ra rows cols order) (r * cols + c) 0
      ≡ get_or (make_ra rows cols order) (r' * cols + c') 0
    → (r ≡ r') × (c ≡ c')
unfolding make_ra
make_ra-injective rows cols identity r c r' c' v w v' w' h =
    let here = get_or-range_from 0 (rows * cols) (r * cols + c) (index_bound rows cols r c v w) in
    let there =
      get_or-range_from 0 (rows * cols) (r' * cols + c') (index_bound rows cols r' c' v' w') in
    index-injective cols r c r' c' w w' (omega (arith, here, h, there))
make_ra-injective rows cols column_major r c r' c' v w v' w' h =
    let here = make_ra-column_major rows cols r c v w in
    let there = make_ra-column_major rows cols r' c' v' w' in
    let (same, same') = index-injective rows c r c' r' v v' (sym here ∙ h ∙ there) in (same', same)

cut_lem :
    (fuel group_tiles left : ℕ)
    → left ≤ fuel
    → (sum (cut fuel (suc group_tiles) left) ≡ left)
      × All (λ x. (0 < x) × (x ≤ suc group_tiles)) (cut fuel (suc group_tiles) left)
unfolding cut
cut_lem fuel g zero h = (refl, tt)
cut_lem zero g (suc left) h = absurd (omega arith)
cut_lem (suc fuel) g (suc left) h =
    let x = min (suc g) (suc left) in
    let (total, sized) = cut_lem fuel g (suc left - x) (omega arith) in
    (omega (arith, total), ((omega arith, omega arith), sized))

-- With a positive group size, the segments are not empty, none is larger than the group size, and
-- together they have all tiles.
pub sum-make_segments :
    (num_tiles group_tiles : ℕ)
    → 0 < group_tiles
    → (sum (make_segments num_tiles (pos group_tiles)) ≡ num_tiles)
      × All (λ x. (0 < x) × (x ≤ group_tiles)) (make_segments num_tiles (pos group_tiles))
unfolding make_segments
sum-make_segments n zero h = absurd (omega arith)
sum-make_segments n (suc g) h = cut_lem n g n (omega arith)
