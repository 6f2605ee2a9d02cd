-- ===== src/Search/Segments/Cover.antt =====
-- Both ways to cut the grid into segments cover every tile once.
use ooverlap.Prelude.{
  ℕ, zero, suc, ◌+◌, ◌-◌, ◌*◌, ◌<◌, ◌≤◌, ◌≡◌, refl, ◌∙◌, ap, List, [], ◌∷◌, map, sum, All, sym, min,
  range, range_from, arith, ◌≢◌,
}
use ooverlap.Prelude.Int.{ℤ, pos, sub_ℕ}
use ooverlap.Prelude.Result.{ok}
use ooverlap.Search.Geometry.{div_up}
use ooverlap.Search.Geometry.Monitor.{div_up_lem}
use ooverlap.Search.Segments.{min_with, expand_from, expand_partition_to_cseg, window_segments}

-- The segments `cseg` are positive and have `tile_num` tiles together.
pub record IsCover (tile_num : ℕ) (cseg : List ℤ) : Type 0 where
  pub sizes : List ℕ
  pub read : cseg ≡ map pos sizes
  pub positive : All (λ x. 0 < x) sizes
  pub total : sum sizes ≡ tile_num

min_with-sub : (a n b : ℕ) → b ≤ n → n ≤ a + b → min_with a (sub_ℕ n b) ≡ pos (n - b)
unfolding min_with
min_with-sub a n b h k = ground arith

le-mul : (x u : ℕ) → 0 < x → u ≤ x * u
le-mul x u h = grind arith

expand_from-IsCover :
    (c g n acc : ℕ) (gp : List ℕ)
    → gp ≢ []
    → 0 < c * g
    → All (λ x. 0 < x) gp
    → acc + sum gp * (c * g) < n + c * g
    → n ≤ acc + sum gp * (c * g)
    → IsCover (n - acc) (expand_from c g n acc gp) × (acc < n)
unfolding expand_from
expand_from-IsCover c g n acc [] ne u p low high = absurd (ne refl)
expand_from-IsCover c g n acc (x ∷ []) ne u p low high =
    let inside : acc < n = omega (arith, le-mul x (c * g) p.0) in
    let last = min_with-sub (x * c * g) n acc (omega arith) (omega arith) in
    (
      record {
        sizes = (n - acc) ∷ [];
        read = ap (λ s. s ∷ []) last;
        positive = (omega arith, tt);
        total = omega arith;
      },
      inside,
    )
expand_from-IsCover c g n acc (x ∷ y ∷ gp) ne u p low high =
    let step = x * c * g in
    let (v, inside) =
      expand_from-IsCover c g n (acc + step) (y ∷ gp) (λ e. cc) u p.1 (omega arith) (omega arith) in
    let grown = le-mul x (c * g) p.0 in
    (
      record {
        sizes = step ∷ v.sizes;
        read = ap (λ s. pos step ∷ s) v.read;
        positive = (omega (arith, grown), v.positive);
        total = omega (arith, v.total);
      },
      omega arith,
    )

pub mul_mono : (a b c : ℕ) → a ≤ b → a * c ≤ b * c
mul_mono a b c h = grind arith

-- `div_up` read from the value that it returned.
pub div_up_bounds : (x y : ℕ) {q : ℕ} → 0 < y → div_up x y ≡ ok q → (x ≤ q * y) × (q * y < x + y)
div_up_bounds x y {q} h e =
    let (r, found, low, high) = div_up_lem x y h in
    let same : ok r ≡ ok q = sym found ∙ e in ground (arith, same, low, high)

-- Two roundings up in a row: the groups hold all tiles, and one group fewer would not.
groups_bounds :
    (n c g wave_num groups : ℕ)
    → 0 < c
    → 0 < g
    → div_up n c ≡ ok wave_num
    → div_up wave_num g ≡ ok groups
    → (n ≤ groups * (c * g)) × (groups * (c * g) < n + c * g)
groups_bounds n c g wave_num groups hc hg waves grouped =
    let (a, b) = div_up_bounds n c hc waves in
    let (d, e) = div_up_bounds wave_num g hg grouped in
    let up = mul_mono wave_num (groups * g) c d in
    let down = mul_mono (groups * g + 1) (wave_num + g) c (omega arith) in
    (omega arith, omega arith)

-- Expanding any partition of the waves, grouped by `search_group_size`, cuts the grid of tiles into
-- positive segments that cover it exactly.
pub expand_partition_to_cseg-IsCover :
    (gp : List ℕ) (c g tile_num wave_num groups : ℕ)
    → 0 < c
    → 0 < g
    → 0 < tile_num
    → div_up tile_num c ≡ ok wave_num
    → div_up wave_num g ≡ ok groups
    → All (λ x. 0 < x) gp
    → sum gp ≡ groups
    → IsCover tile_num (expand_partition_to_cseg gp c g tile_num)
unfolding expand_partition_to_cseg
expand_partition_to_cseg-IsCover gp c g n wave_num groups hc hg hn waves grouped p total =
    let (a, b) = groups_bounds n c g wave_num groups hc hg waves grouped in
    let low : 0 + sum gp * (c * g) < n + c * g = rw total (omega arith) in
    let high : n ≤ 0 + sum gp * (c * g) = rw total (omega arith) in
    let none_left : gp ≢ [] = λ e.
      let zero_groups : sum gp ≡ 0 = ap sum e in
      let nothing : sum gp * (c * g) ≡ 0 = rw zero_groups (omega arith) in absurd (omega arith) in
    let whole : n - 0 ≡ n = omega arith in
    rw whole at
      (expand_from-IsCover c g n 0 gp none_left (omega (arith, mul_mono 1 c g hc)) p low high).0

min_with-window : (w n b : ℕ) → b < n → min_with w (sub_ℕ n b) ≡ pos (min w (n - b))
unfolding min_with
min_with-window w n b h = ground arith

-- Windows from `start` on, when `start * w` tiles are already covered.
windows-IsCover :
    (w n start count : ℕ)
    → 0 < w
    → (start + count) * w < n + w
    → n ≤ (start + count) * w
    → IsCover (n - start * w) (map (λ i. min_with w (sub_ℕ n (i * w))) (range_from start count))
windows-IsCover w n start zero hw low high = record {
  sizes = [];
  read = refl;
  positive = tt;
  total = omega arith;
}
windows-IsCover w n start (suc count) hw low high =
    let v = windows-IsCover w n (suc start) count hw (omega arith) (omega arith) in
    let inside : start * w < n = omega arith in
    let first = min_with-window w n (start * w) inside in
    record {
      sizes = min w (n - start * w) ∷ v.sizes;
      read = rw (first, v.read);
      positive = (omega arith, v.positive);
      total = omega (arith, v.total);
    }

-- The windows in which a hint is measured cover the grid exactly, with no empty window.
pub window_segments-IsCover :
    (tile_num w : ℕ)
    → 0 < w
    → (cseg : List ℤ) × (window_segments tile_num w ≡ ok cseg) × IsCover tile_num cseg
unfolding window_segments
window_segments-IsCover n w h =
    let (q, found, low, high) = div_up_lem n w h in
    let v = windows-IsCover w n 0 q h (omega arith) (omega arith) in
    let whole : n - 0 * w ≡ n = omega arith in
    (
      map (λ i. min_with w (sub_ℕ n (i * w))) (range q),
      rw found,
      record { sizes = v.sizes; read = v.read; positive = v.positive; total = v.total ∙ whole },
    )
