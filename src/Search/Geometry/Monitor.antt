-- ===== src/Search/Geometry/Monitor.antt =====
-- What `reset_monitor_matrix` leaves for a run to write, and `div_up` as a rounded quotient.
use ooverlap.Prelude.{
  ℕ, zero, suc, ◌+◌, ◌-◌, ◌*◌, ◌/◌, ◌<◌, ◌≤◌, ◌≡◌, refl, ◌∙◌, ap, true, false, List, [], ◌∷◌, ◌++◌,
  take, drop, length, replicate, arith, length-replicate, length-drop, append-nil,
}
use ooverlap.Prelude.Int.{ℤ, pos, negsuc}
use ooverlap.Prelude.Result.{ok}
use ooverlap.Search.Geometry.{
  div_up, monitor_size, fill_slice, reset_monitor_matrix, monitor_order_view,
}

-- `div_up` is the least number of groups of `y` that hold `x` items.
pub div_up_lem : (x y : ℕ) → 0 < y → (q : ℕ) × (div_up x y ≡ ok q) × (x ≤ q * y) × (q * y < x + y)
unfolding div_up
div_up_lem x zero h = absurd (omega arith)
div_up_lem x (suc y) h = ((x + suc y - 1) / suc y, refl, grind arith, grind arith)

fill_slice_zero :
    (count : ℕ) (v : ℤ) (xs : List ℤ)
    → count ≤ length xs
    → fill_slice 0 count v xs ≡ replicate count v ++ drop count xs
unfolding fill_slice
fill_slice_zero zero v xs h = refl
fill_slice_zero (suc count) v [] h = absurd (omega arith)
fill_slice_zero (suc count) v (x ∷ xs) h =
    ap (λ r. v ∷ r) (fill_slice_zero count v xs (omega arith))

fill_slice-append :
    (front xs : List ℤ) (count : ℕ) (v : ℤ)
    → count ≡ length xs
    → fill_slice (length front) count v (front ++ xs) ≡ front ++ replicate count v
unfolding fill_slice
fill_slice-append [] [] zero v h = refl
fill_slice-append [] [] (suc count) v h = absurd (omega arith)
fill_slice-append [] (x ∷ xs) zero v h = absurd (omega arith)
fill_slice-append [] (x ∷ xs) (suc count) v h =
    ap (λ r. v ∷ r) (fill_slice-append [] xs count v (omega arith))
fill_slice-append (a ∷ front) xs count v h = ap (λ r. a ∷ r) (fill_slice-append front xs count v h)

drop-length : (xs : List ℤ) → drop (length xs) xs ≡ []
drop-length [] = refl
drop-length (x ∷ xs) = drop-length xs

drop-append : (front xs : List ℤ) → drop (length front) (front ++ xs) ≡ xs
drop-append [] xs = refl
drop-append (a ∷ front) xs = drop-append front xs

take-replicate : (n : ℕ) (v : ℤ) → take n (replicate n v) ≡ replicate n v
take-replicate zero v = refl
take-replicate (suc n) v = ap (λ r. v ∷ r) (take-replicate n v)

-- On a matrix of the size that `monitor_size` gives, a reset forgets what was there: with the
-- monitor all counters are 0 and the order of every tile reads -1; without it all entries are 0.
pub reset_monitor_matrix_lem :
    (mm plain : List ℤ) (t s : ℕ)
    → length mm ≡ monitor_size t s true
    → length plain ≡ monitor_size t s false
    → (reset_monitor_matrix mm t s true ≡ replicate (s + t + 1) (pos 0) ++ replicate t (negsuc 0))
      × (monitor_order_view (reset_monitor_matrix mm t s true) t s ≡ replicate t (negsuc 0))
      × (reset_monitor_matrix plain t s false ≡ replicate (s + t) (pos 0))
unfolding reset_monitor_matrix monitor_size monitor_order_view
reset_monitor_matrix_lem mm plain t s h k =
    let c = s + t + 1 in
    let zeros = replicate c (pos 0) in
    let zeros_size : length zeros ≡ c = length-replicate c (pos 0) in
    let first = fill_slice_zero c (pos 0) mm (omega arith) in
    let rest : t ≡ length (drop c mm) = omega (arith, length-drop {0} c mm) in
    let second = fill_slice-append zeros (drop c mm) t (negsuc 0) rest in
    let whole : fill_slice c t (negsuc 0) (fill_slice 0 c (pos 0) mm)
        ≡ zeros ++ replicate t (negsuc 0) =
      rw (first, ← zeros_size) (rw zeros_size (rw zeros_size at second)) in
    let view : drop c (zeros ++ replicate t (negsuc 0)) ≡ replicate t (negsuc 0) =
      rw zeros_size at (drop-append zeros (replicate t (negsuc 0))) in
    (
      whole,
      rw (whole, view) (take-replicate t (negsuc 0)),
      fill_slice_zero (s + t) (pos 0) plain (omega arith) ∙ rw (← k, drop-length plain, append-nil),
    )
