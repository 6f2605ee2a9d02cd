-- ===== src/Prelude/Distinct.antt =====
-- Lists of numbers without repetitions, and the membership test on ranges and filtered lists.
use Prim.Native.Nat.{ℕ, zero, suc, ◌+◌}
use mathlib.Core.Path.{◌≡◌, refl, ◌∙◌, ap}
use mathlib.Core.Logic.{inl, inr}
use mathlib.Core.Bool.{Bool, true, false, not, ◌&&◌}
use mathlib.Core.List.{List, [], ◌∷◌, ◌++◌}
use native.Mathlib.Omega.{arith}
use ooverlap.Prelude.Tests.{leb, ltb, Bool-cases}
use ooverlap.Prelude.Lists.{
  length, get_or, filter, range_from, contains, Nodup, All, contains-append,
}

pub contains-filter :
    (x : ℕ) (test : ℕ → Bool) (xs : List ℕ) → contains x (filter test xs) ≡ contains x xs && test x
contains-filter x test [] = refl
contains-filter x test (y ∷ xs) = elim (Bool-cases (test y)) [
  | inl h ↦ rw h (ground (arith, contains-filter x test xs))
  | inr h ↦ rw h (ground (arith, contains-filter x test xs))
]

pub contains-range_from : (x s n : ℕ) → contains x (range_from s n) ≡ leb s x && ltb x (s + n)
contains-range_from x s zero = ground arith
contains-range_from x s (suc n) = ground (arith, contains-range_from x (suc s) n)

pub Nodup-filter : (test : ℕ → Bool) (xs : List ℕ) → Nodup xs → Nodup (filter test xs)
Nodup-filter test [] d = tt
Nodup-filter test (x ∷ xs) d = elim (Bool-cases (test x)) [
  | inl h ↦ rw h (ground (arith, contains-filter x test xs, d.0), Nodup-filter test xs d.1)
  | inr h ↦ rw h (Nodup-filter test xs d.1)
]

pub Nodup-range_from : (s n : ℕ) → Nodup (range_from s n)
Nodup-range_from s zero = tt
Nodup-range_from s (suc n) =
    (ground (arith, contains-range_from s (suc s) n), Nodup-range_from (suc s) n)

pub Nodup-append :
    (xs ys : List ℕ)
    → Nodup xs
    → Nodup ys
    → ((x : ℕ) → contains x xs ≡ true → contains x ys ≡ false)
    → Nodup (xs ++ ys)
Nodup-append [] ys d e apart = e
Nodup-append (x ∷ xs) ys d e apart = (
  contains-append x xs ys ∙ ground (arith, d.0, apart x),
  Nodup-append xs ys d.1 e (λ z h. apart z (ground arith)),
)

pub All-of_contains {κ} :
    {P : ℕ → Type κ} (xs : List ℕ) → ((x : ℕ) → contains x xs ≡ true → P x) → All P xs
All-of_contains [] h = tt
All-of_contains (x ∷ xs) h = (h x (ground arith), All-of_contains xs (λ y m. h y (ground arith)))

-- How many entries are not set.
abbrev pub unused : List Bool → ℕ
unused [] = 0
unused (true ∷ us) = unused us
unused (false ∷ us) = suc (unused us)

-- The numbers of a range that are not marked, counted by the marks.
pub length-filter_unmarked :
    (us : List Bool) (marked : ℕ → Bool) (s n : ℕ)
    → length us ≡ n
    → ((i : ℕ) → get_or us i false ≡ marked (s + i))
    → length (filter (λ x. not (marked x)) (range_from s n)) ≡ unused us
length-filter_unmarked [] marked s zero len h = refl
length-filter_unmarked [] marked s (suc n) len h = absurd (omega arith)
length-filter_unmarked (u ∷ us) marked s zero len h = absurd (omega arith)
length-filter_unmarked (u ∷ us) marked s (suc n) len h =
    let shift =
      λ (i : ℕ). h (suc i) ∙ ap marked (let e : s + suc i ≡ suc s + i = omega arith in e) in
    let rest = length-filter_unmarked us marked (suc s) n (omega arith) shift in
    let start : u ≡ marked s = h 0 ∙ ap marked (let e : s + 0 ≡ s = omega arith in e) in
    ground (arith, rest, start)
