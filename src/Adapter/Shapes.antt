-- ===== src/Adapter/Shapes.antt =====
-- The shape that `all_gather` returns, and the dimensions it accepts.
use ooverlap.Prelude.{
  ℕ, zero, suc, ◌+◌, ◌*◌, ◌<◌, ◌≡◌, refl, sym, inl, inr, true, not, some, List, [], ◌∷◌, ◌++◌,
  length, take, drop, ltb, arith,
}
use ooverlap.Prelude.Int.{ℤ, pos, negsuc}
use ooverlap.Prelude.Result.{ok, >>=-eq-ok, ok-injective, Option-cases}
use ooverlap.Adapter.{element_size, product, Tensor, numel, nbytes, Adapter}
use ooverlap.Adapter.Startup.{require}
use ooverlap.Adapter.Guards.{Fits, fits_pool-Fits}
use ooverlap.Adapter.Collectives.{
  fits_pool, Call, all_gather_round_robin, dim_at, normalize_dim, output_size, check_gather,
  all_gather,
}

-- A dimension of Python, counted from the end where it is negative.
unfoldable pub NamesDim : ℤ → (rank d : ℕ) → Type 0
NamesDim (pos i) rank d = d ≡ i
NamesDim (negsuc k) rank d = d + suc k ≡ rank

normalize_dim-bounds :
    (dim : ℤ) (rank : ℕ) {d : ℕ} → normalize_dim dim rank ≡ ok d → (d < rank) × NamesDim dim rank d
unfolding normalize_dim NamesDim
normalize_dim-bounds (pos i) rank h = (ground (arith, h), ground (arith, h))
normalize_dim-bounds (negsuc k) rank h = (ground (arith, h), ground (arith, h))

-- The gathered dimension grows by the factor, the others stay.
output_size-product :
    (world : ℕ) (shape : List ℕ) (d : ℕ) {size : List ℕ}
    → output_size world shape d ≡ ok size
    → (product size ≡ world * product shape) × (length size ≡ length shape)
unfolding output_size dim_at product
output_size-product world [] d h = cc
output_size-product world (n ∷ ns) zero h = rw (← ok-injective h) (grind arith, refl)
output_size-product world (n ∷ ns) (suc d) h =
    let (m, found, h') = >>=-eq-ok (dim_at ns d) _ h in
    let (total, rank) =
      output_size-product world ns d {size = take d ns ++ (world * m) ∷ drop (suc d) ns}
        (rw (output_size, found) refl) in
    rw (← ok-injective h') (rw total (grind arith), rw rank refl)

-- What a successful gather checked, and what it returns.
pub record IsGathered (a : Adapter) (t : Tensor) (dim : ℤ) (c : Call) : Type 0 where
  pub handle : ℕ
  pub comm : a.comm ≡ some handle
  pub place : ℕ
  pub in_range : place < length t.shape
  pub named : NamesDim dim (length t.shape) place
  pub size : List ℕ
  pub call : c ≡ all_gather_round_robin handle t size
  pub sized : output_size a.world_size t.shape place ≡ ok size
  pub rank : length size ≡ length t.shape
  pub total : product size ≡ a.world_size * numel t
  pub nonempty : 0 < numel t
  pub fits : Fits a.ag_pool t.dtype (product size * element_size t.dtype)

gather_checked :
    (a : Adapter) (t : Tensor) {u : Unit {0}}
    → check_gather a t ≡ ok u
    → (0 < numel t) × Fits a.ag_pool t.dtype (nbytes t * a.world_size)
unfolding check_gather require
gather_checked a t h =
    let fits : fits_pool a.ag_pool t.dtype (nbytes t * a.world_size) ≡ true = ground (arith, h) in
    (ground (arith, h), fits_pool-Fits a.ag_pool t.dtype (nbytes t * a.world_size) fits)

-- A gather that succeeds resolved its dimension to one of the tensor's, counted from the end where it
-- is negative; the result has as many dimensions as the tensor and `world_size` times its elements,
-- of which there are some, and the result's bytes fit a slot of the all-gather pool.
pub all_gather-IsGathered :
    (a : Adapter) (t : Tensor) (dim : ℤ) {c : Call}
    → all_gather a t dim ≡ ok c
    → IsGathered a t dim c
unfolding all_gather nbytes numel
all_gather-IsGathered a t dim h = elim (Option-cases a.comm) [
  | inl lost ↦ absurd (ground (arith, lost, h))
  | inr (comm, held) ↦
      let (u, enabled, h₁) = >>=-eq-ok (require (not a.disabled)) _ (rw (all_gather, held) at h) in
      let (u', ranked, h₂) = >>=-eq-ok (require (ltb 0 (length t.shape))) _ h₁ in
      let (d, normal, h₃) = >>=-eq-ok (normalize_dim dim (length t.shape)) _ h₂ in
      let (u'', checked, h₄) = >>=-eq-ok (check_gather a t) _ h₃ in
      let (size, sized, h₅) = >>=-eq-ok (output_size a.world_size t.shape d) _ h₄ in
      let (below, named) = normalize_dim-bounds dim (length t.shape) normal in
      let (total, rank) = output_size-product a.world_size t.shape d sized in
      let (nonempty, fits) = gather_checked a t checked in
      let bytes : numel t * element_size t.dtype * a.world_size
          ≡ product size * element_size t.dtype =
        rw total (grind arith) in
      record {
        handle = comm;
        comm = held;
        place = d;
        in_range = below;
        named = named;
        size = size;
        call = sym (ok-injective h₅);
        sized = sized;
        rank = rank;
        total = total;
        nonempty = nonempty;
        fits = rw (← bytes) fits;
      }
]
