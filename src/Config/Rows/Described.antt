-- ===== src/Config/Rows/Described.antt =====
-- The records that a profile asks for.
use ooverlap.Prelude.{
  ℕ, suc, ◌<◌, ◌==◌, ==_iff, ◌⊎◌, ◌∙◌, ◌≡◌, refl, sym, ap, inl, inr, false, Option, none, some,
  List, [], ◌∷◌, ◌++◌, get_elem?, Bool-cases, arith,
}
use ooverlap.Prelude.Int.{ℤ, negsuc}
use ooverlap.Prelude.Floats.{Floats}
use ooverlap.Prelude.Result.{ok, err, Error}
use ooverlap.Prelude.Membership.{In, here, In-append_left, In-append_right}
use ooverlap.Config.Rows.Accepted.{IsAccepted, IsSameShape}
use ooverlap.Config.Rows.{Args, StagesCell, no_column, automatic, written, stage, Row, Kept}

-- The number of stages that a cell gives; -1 stands for `auto`.
abbrev pub IsStages : StagesCell → ℤ → Type 0
IsStages cell n = ((cell ≡ automatic) × (n ≡ negsuc 0)) ⊎ (cell ≡ written (ok n))

pub stage-IsStages : (cell : StagesCell) {n : ℤ} → stage cell ≡ ok (some n) → IsStages cell n
unfolding stage
stage-IsStages no_column h = cc
stage-IsStages automatic h = inl (refl, cc)
stage-IsStages (written (ok m)) {n} h = let e : m ≡ n = cc in inr (ap (λ k. written (ok k)) e)
stage-IsStages (written (err e)) h = cc

pub stage-none : (cell : StagesCell) → stage cell ≡ ok none → {n : ℤ} → IsStages cell n → ⊥
unfolding stage
stage-none no_column h (inl e) = let t = e.0 in cc
stage-none no_column h (inr e) = cc
stage-none automatic h v = cc
stage-none (written (ok m)) h v = cc
stage-none (written (err e)) h v = cc

pub stage-raises : (cell : StagesCell) {e : Error} → stage cell ≡ err e → cell ≡ written (err e)
unfolding stage
stage-raises no_column h = cc
stage-raises automatic h = cc
stage-raises (written (ok m)) h = cc
stage-raises (written (err x)) {e} h = let same : x ≡ e = cc in ap (λ k. written (err k)) same

earlier : (i j : ℕ) → j < suc i → (j == i) ≡ false → j < i
earlier i j below apart = ground arith

some_injective : {A : Type 0} {a b : A} → some a ≡ some b → a ≡ b
some_injective h = cc

module _ (f : Floats) (args : Args) (shape0 : Option (ℕ × ℕ × ℕ)) where
  -- A record holds all values of one row that passes all tests.
  pub record IsFrom (rows : List (Row f)) (r : Kept f) : Type 0 where
    pub row : Row f
    pub place : get_elem? rows r.source_row ≡ some row
    pub runtime : row.rt ≡ some r.cutlass_runtime
    pub same_shape : IsSameShape shape0 args
    pub tile_m : row.tm ≡ some r.tile_m
    pub tile_n : row.tn ≡ some r.tile_n
    pub tile_k : row.tk ≡ some r.tile_k
    pub stages : IsStages row.st r.stages
    pub cluster : row.cluster ≡ r.cluster
    pub mainloop : row.mainloop ≡ r.mainloop
    pub scheduler : row.sched ≡ r.scheduler
    pub split_k : row.split_k ≡ r.split_k
    pub operation : row.op ≡ r.operation
    pub accepted : IsAccepted args row.types

  -- A row that passes all tests.
  pub record IsEligible (row : Row f) : Type 0 where
    pub runtime : (x : f.F) × (row.rt ≡ some x)
    pub same_shape : IsSameShape shape0 args
    pub tile_m : (x : ℤ) × (row.tm ≡ some x)
    pub tile_n : (x : ℤ) × (row.tn ≡ some x)
    pub tile_k : (x : ℤ) × (row.tk ≡ some x)
    pub stages : (x : ℤ) × IsStages row.st x
    pub accepted : IsAccepted args row.types

  -- Each of the first `raw` rows that passes all tests has its record.
  abbrev pub AreKept : List (Row f) → (raw : ℕ) → List (Kept f) → Type 0
  AreKept rows raw kept =
      (j : ℕ) (row : Row f)
      → j < raw
      → get_elem? rows j ≡ some row
      → IsEligible row
      → (r : Kept f) × In r kept × (r.source_row ≡ j)

  -- A row is not eligible, and no record is added.
  pub AreKept-passed :
      (rows : List (Row f)) (i : ℕ) (row : Row f) (kept : List (Kept f))
      → AreKept rows i kept
      → get_elem? rows i ≡ some row
      → (IsEligible row → ⊥)
      → AreKept rows (suc i) kept
  AreKept-passed rows i row kept v place refused j other below there_is eligible =
      elim (Bool-cases (j == i)) [
        | inr apart ↦ v j other (earlier i j below apart) there_is eligible
        | inl same ↦
            let at_i : get_elem? rows i ≡ some other = rw (← (==_iff j i).0 same) there_is in
            let one : row ≡ other = some_injective (sym place ∙ at_i) in
            absurd (refused (rw one eligible))
      ]

  -- A record is added for the row.
  pub AreKept-added :
      (rows : List (Row f)) (i : ℕ) (kept : List (Kept f)) (r : Kept f)
      → AreKept rows i kept
      → r.source_row ≡ i
      → AreKept rows (suc i) (kept ++ r ∷ [])
  AreKept-added rows i kept r v own j other below there_is eligible = elim (Bool-cases (j == i)) [
    | inr apart ↦
        let (x, x_in, at_j) = v j other (earlier i j below apart) there_is eligible in
        (x, In-append_left kept (r ∷ []) x_in, at_j)
    | inl same ↦ (r, In-append_right kept (r ∷ []) here, own ∙ sym ((==_iff j i).0 same))
  ]
