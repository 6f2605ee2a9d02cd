-- ===== src/Search/Reorder/Scan.antt =====
-- What the first loop of `build_full_order_and_reorder_map` keeps.
use ooverlap.Prelude.{
  ℕ, zero, suc, ◌+◌, ◌<◌, ◌≡◌, refl, ◌∙◌, ap, inl, inr, Bool, true, false, List, [], ◌∷◌, ◌++◌,
  length, get_or, set, replicate, contains, Nodup, leb, ◌==◌, Bool-cases, arith, length-append,
  length-set, length-replicate, get_or-set_self, get_or-set_ne, get_or-replicate, contains-append,
}
use ooverlap.Prelude.Int.{ℤ, pos, negsuc}
use ooverlap.Prelude.Result.{ok}
use ooverlap.Prelude.Distinct.{unused, Nodup-append}
use ooverlap.Search.Reorder.{HintScan, scan_tile, scan_hint, scan_start}

pub record IsScan (n : ℕ) (s : HintScan) : Type 0 where
  pub marks : length s.used ≡ n
  pub total : length s.stable_prefix + unused s.used ≡ n
  pub marked : (x : ℕ) → get_or s.used x false ≡ contains x s.stable_prefix
  pub distinct : Nodup s.stable_prefix

unused-replicate : (n : ℕ) → unused (replicate n false) ≡ n
unused-replicate zero = refl
unused-replicate (suc n) = ap suc (unused-replicate n)

unused-set :
    (us : List Bool) (x : ℕ)
    → x < length us
    → get_or us x false ≡ false
    → suc (unused (set us x true)) ≡ unused us
unused-set [] x h e = absurd (omega arith)
unused-set (u ∷ us) zero h e = ground arith
unused-set (true ∷ us) (suc x) h e = unused-set us x (omega arith) e
unused-set (false ∷ us) (suc x) h e = ap suc (unused-set us x (omega arith) e)

pub scan_start-IsScan : (n : ℕ) → IsScan n (scan_start n)
scan_start-IsScan n = record {
  marks = length-replicate n false;
  total = omega (arith, unused-replicate n);
  marked = λ x. get_or-replicate n x false;
  distinct = tt;
}

marked-snoc :
    (us : List Bool) (xs : List ℕ) (x y : ℕ)
    → x < length us
    → get_or us y false ≡ contains y xs
    → get_or (set us x true) y false ≡ contains y (xs ++ x ∷ [])
marked-snoc us xs x y h e = elim (Bool-cases (x == y)) [
  | inl same ↦ ground (arith, contains-append y xs (x ∷ []), get_or-set_self us x true false h)
  | inr differ ↦ ground (arith, contains-append y xs (x ∷ []), get_or-set_ne us x y true false, e)
]

-- A tile of the grid is marked and appended once.
pub scan_tile-IsScan :
    {n : ℕ} (s : HintScan) (x : ℕ) → x < n → IsScan n s → IsScan n (scan_tile s x)
unfolding scan_tile
scan_tile-IsScan {n} s x h v = elim (Bool-cases (get_or s.used x false)) [
  | inl seen ↦ rw seen v
  | inr new ↦ rw new (record {
    marks = length-set s.used x true ∙ v.marks;
    total = omega (
      arith,
      v.total,
      length-append {0} s.stable_prefix (x ∷ []),
      unused-set s.used x (omega (arith, v.marks)) new,
    );
    marked = λ y. marked-snoc s.used s.stable_prefix x y (omega (arith, v.marks)) (v.marked y);
    distinct =
        Nodup-append s.stable_prefix (x ∷ []) v.distinct (refl, tt)
          λ y m. ground (arith, v.marked y, new, v.marked x, m);
  })
]

-- The scan of a hint that it accepts keeps the invariant.
pub scan_hint-IsScan :
    (n : ℕ) (hint : List ℤ) (s : HintScan) {t : HintScan}
    → IsScan n s
    → scan_hint n s hint ≡ ok t
    → IsScan n t
unfolding scan_hint
scan_hint-IsScan n [] s v e = ground (arith, e, v)
scan_hint-IsScan n (negsuc x ∷ hint) s v e = cc
scan_hint-IsScan n (pos x ∷ hint) s v e = elim (Bool-cases (leb n x)) [
  | inl big ↦ absurd (let bad = rw big at e in cc)
  | inr small ↦
      scan_hint-IsScan n hint (scan_tile s x) (scan_tile-IsScan s x (ground arith) v)
        (rw small at e)
]
