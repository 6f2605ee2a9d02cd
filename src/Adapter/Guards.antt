-- ===== src/Adapter/Guards.antt =====
-- When a collective of the adapter reaches the extension, and with what.
use mathlib.Core.Path.{subst}
use ooverlap.Prelude.{
  ℕ, ◌*◌, ◌<◌, ◌≤◌, ◌≡◌, refl, sym, ap, ◌∙◌, ◌↔◌, ◌⊎◌, inl, inr, Bool, true, false, ◌&&◌, not,
  Option, none, some, List, [], ◌∷◌, ◌==◌, Bool-cases, arith,
}
use ooverlap.Prelude.Int.{ℤ}
use ooverlap.Prelude.Result.{Result, ok, err, runtime_error, >>=-eq-ok, ok-injective, Option-cases}
use ooverlap.Adapter.{
  Dtype, bf16, fp16, fp32, other_dtype, element_size, product, Tensor, numel, nbytes, Pool, Adapter,
}
use ooverlap.Adapter.Startup.{Event, require}
use ooverlap.Adapter.Lifecycle.{destroy-IsOff}
use ooverlap.Adapter.Collectives.{
  same_dtype, same_shape, fits_pool, is_some, is_available, should_ooverlap_ar, Call,
  all_reduce_round_robin, all_reduce_preloaded_slot, all_reduce, all_gather, check_qwen, preload,
  qwen_checked, qwen_row_parallel, destroy,
}

-- The bytes fit a slot of the pool, which has the type.
pub record Fits (held : Option Pool) (d : Dtype) (size : ℕ) : Type 0 where
  pub slots : Pool
  pub pool : held ≡ some slots
  pub dtype : slots.dtype ≡ d
  pub bytes : size ≤ slots.capacity_bytes

-- What `should_ooverlap_ar` asks for.
pub record IsAccepted (a : Adapter) (t : Tensor) : Type 0 where
  pub enabled : a.disabled ≡ false
  pub handle : ℕ
  pub comm : a.comm ≡ some handle
  pub cuda : t.is_cuda ≡ true
  pub device : t.device_index ≡ a.device_index
  pub contiguous : t.is_contiguous ≡ true
  pub nonempty : 0 < numel t
  pub fits : Fits a.rr_pool t.dtype (nbytes t)

same_dtype-eq : (d e : Dtype) → same_dtype d e ≡ true → e ≡ d
unfolding same_dtype
same_dtype-eq bf16 bf16 h = refl
same_dtype-eq bf16 fp16 h = cc
same_dtype-eq bf16 fp32 h = cc
same_dtype-eq bf16 (other_dtype n) h = cc
same_dtype-eq fp16 bf16 h = cc
same_dtype-eq fp16 fp16 h = refl
same_dtype-eq fp16 fp32 h = cc
same_dtype-eq fp16 (other_dtype n) h = cc
same_dtype-eq fp32 bf16 h = cc
same_dtype-eq fp32 fp16 h = cc
same_dtype-eq fp32 fp32 h = refl
same_dtype-eq fp32 (other_dtype n) h = cc
same_dtype-eq (other_dtype m) bf16 h = cc
same_dtype-eq (other_dtype m) fp16 h = cc
same_dtype-eq (other_dtype m) fp32 h = cc
same_dtype-eq (other_dtype m) (other_dtype n) h =
    let same : n ≡ m = ground (arith, h) in rw same refl

same_dtype_refl : (d : Dtype) → same_dtype d d ≡ true
unfolding same_dtype
same_dtype_refl bf16 = refl
same_dtype_refl fp16 = refl
same_dtype_refl fp32 = refl
same_dtype_refl (other_dtype n) = ground arith

pub fits_pool-Fits :
    (pool : Option Pool) (d : Dtype) (bytes : ℕ) → fits_pool pool d bytes ≡ true → Fits pool d bytes
unfolding fits_pool
fits_pool-Fits none d bytes h = cc
fits_pool-Fits (some p) d bytes h = record {
  slots = p;
  pool = refl;
  dtype = same_dtype-eq d p.dtype (ground (arith, h));
  bytes = ground (arith, h);
}

Fits-fits_pool :
    (pool : Option Pool) (d : Dtype) (bytes : ℕ) → Fits pool d bytes → fits_pool pool d bytes ≡ true
unfolding fits_pool
Fits-fits_pool pool d bytes v =
    let same = same_dtype_refl d in
    let size = v.bytes in rw (fits_pool, v.pool) (rw v.dtype (ground (arith, same, size)))

is_available-some :
    (a : Adapter) → is_available a ≡ true → (a.disabled ≡ false) × (c : ℕ) × (a.comm ≡ some c)
unfolding is_available is_some
is_available-some a h = elim (Option-cases a.comm) [
  | inl lost ↦ absurd (ground (arith, lost, h))
  | inr (c, held) ↦ (ground (arith, held, h), c, held)
]

-- A tensor is taken exactly when the adapter is enabled and holds a communicator, and the tensor is
-- on its CUDA device, contiguous, not empty, of the type of the all-reduce pool and no larger than one
-- of its slots.
pub should_ooverlap_ar-IsAccepted :
    (a : Adapter) (t : Tensor) → (should_ooverlap_ar a t ≡ true) ↔ IsAccepted a t
unfolding should_ooverlap_ar is_available is_some
should_ooverlap_ar-IsAccepted a t = (
  λ h.
      let available : is_available a ≡ true = ground (arith, h) in
      let (on, c, held) = is_available-some a available in
      record {
        enabled = on;
        handle = c;
        comm = held;
        cuda = ground (arith, h);
        device = ground (arith, h);
        contiguous = ground (arith, h);
        nonempty = ground (arith, h);
        fits = fits_pool-Fits a.rr_pool t.dtype (nbytes t) (ground (arith, h));
      },
  λ v.
      let fits = Fits-fits_pool a.rr_pool t.dtype (nbytes t) v.fits in
      ground (arith, fits, v.enabled, v.comm, v.cuda, v.device, v.contiguous, v.nonempty),
)

-- `all_reduce` calls the extension, with the held communicator and the tensor as it is, exactly for
-- the tensors that `should_ooverlap_ar` takes; for every other one the caller falls back.
pub all_reduce-IsAccepted :
    (a : Adapter) (t : Tensor)
    → ((v : IsAccepted a t) × (all_reduce a t ≡ some (all_reduce_round_robin v.handle t)))
      ⊎ ((¬ IsAccepted a t) × (all_reduce a t ≡ none))
unfolding all_reduce
all_reduce-IsAccepted a t = elim (Bool-cases (should_ooverlap_ar a t)) [
  | inl taken ↦
      let v = (should_ooverlap_ar-IsAccepted a t).0 taken in
      inl (v, rw (all_reduce, v.comm) (rw taken refl))
  | inr refused ↦ inr (
    λ v. let taken = (should_ooverlap_ar-IsAccepted a t).1 v in cc,
    elim (Option-cases a.comm) [
      | inl lost ↦ rw (all_reduce, lost) refl
      | inr (c, held) ↦ rw (all_reduce, held) (rw refused refl)
    ],
  )
]

-- A destroyed adapter is never used: `all_reduce` falls back, and the two collectives that have no
-- other backend raise, whatever the tensors and the dimension are.
pub destroy-all_reduce :
    (has_destroy : Bool) (release : ℕ → Result (Unit {0})) (a : Adapter) {b : Adapter}
    {events : List Event} (acquire : List ℕ → Result Tensor) (t weight : Tensor) (dim : ℤ)
    → destroy has_destroy release a ≡ ok (b, events)
    → (all_reduce b t ≡ none)
      × (all_gather b t dim ≡ err runtime_error)
      × (qwen_row_parallel b acquire t weight ≡ err runtime_error)
unfolding all_reduce all_gather qwen_row_parallel
destroy-all_reduce has_destroy release a {b} {events} acquire t weight dim h =
    let off = (destroy-IsOff has_destroy release release a h).0 in
    (
      rw (all_reduce, off.comm) refl,
      rw (all_gather, off.comm) refl,
      rw (qwen_row_parallel, off.comm) refl,
    )

same_shape-eq : (xs ys : List ℕ) → same_shape xs ys ≡ true → xs ≡ ys
unfolding same_shape
same_shape-eq [] [] h = refl
same_shape-eq [] (y ∷ ys) h = cc
same_shape-eq (x ∷ xs) [] h = cc
same_shape-eq (x ∷ xs) (y ∷ ys) h =
    let head : x ≡ y = ground (arith, h) in let tail = same_shape-eq xs ys (ground (arith, h)) in cc

pub require-ok : (b : Bool) {u : Unit {0}} → require b ≡ ok u → b ≡ true
unfolding require
require-ok true h = refl
require-ok false h = cc

-- A slot that the direct path may write the product into, and the call that reduces it.
pub record IsProduct (a : Adapter) (acquire : List ℕ → Result Tensor) (inp weight : Tensor)
    (c : Call) : Type 0 where
  pub rows : ℕ
  pub inner : ℕ
  pub cols : ℕ
  pub inp_shape : inp.shape ≡ rows ∷ inner ∷ []
  pub weight_shape : weight.shape ≡ cols ∷ inner ∷ []
  pub weight_dtype : weight.dtype ≡ inp.dtype
  pub slot : Tensor
  pub acquired : acquire (rows ∷ cols ∷ []) ≡ ok slot
  pub slot_shape : slot.shape ≡ rows ∷ cols ∷ []
  pub slot_dtype : slot.dtype ≡ inp.dtype
  pub slot_device : slot.device_index ≡ a.device_index
  pub fits : Fits a.rr_pool slot.dtype (nbytes slot)
  pub handle : ℕ
  pub comm : a.comm ≡ some handle
  pub call : c ≡ all_reduce_preloaded_slot handle slot

checked_qwen :
    (a : Adapter) (inp weight : Tensor) (rows k cols k' : ℕ) {u : Unit {0}}
    → check_qwen a inp weight rows k cols k' ≡ ok u
    → (inp.device_index ≡ a.device_index)
      × (weight.dtype ≡ inp.dtype)
      × (k ≡ k')
      × Fits a.rr_pool inp.dtype (rows * cols * element_size inp.dtype)
unfolding check_qwen require
checked_qwen a inp weight rows k cols k' h =
    let bytes = rows * cols * element_size inp.dtype in
    let types : same_dtype weight.dtype inp.dtype ≡ true = ground (arith, h) in
    let fits : fits_pool a.rr_pool inp.dtype bytes ≡ true = ground (arith, h) in
    (
      ground (arith, h),
      sym (same_dtype-eq weight.dtype inp.dtype types),
      ground (arith, h),
      fits_pool-Fits a.rr_pool inp.dtype bytes fits,
    )

preloaded :
    (acquire : List ℕ → Result Tensor) (comm : ℕ) (inp : Tensor) (rows cols : ℕ) {c : Call}
    → preload acquire comm inp rows cols ≡ ok c
    → (slot : Tensor) × (acquire (rows ∷ cols ∷ []) ≡ ok slot)
      × (slot.shape ≡ rows ∷ cols ∷ [])
      × (slot.dtype ≡ inp.dtype)
      × (slot.device_index ≡ inp.device_index)
      × (c ≡ all_reduce_preloaded_slot comm slot)
unfolding preload
preloaded acquire comm inp rows cols h =
    let (slot, acquired, h₁) = >>=-eq-ok (acquire (rows ∷ cols ∷ [])) _ h in
    let (u, shaped, h₂) = >>=-eq-ok (require (same_shape slot.shape (rows ∷ cols ∷ []))) _ h₁ in
    let (u', placed, h₃) =
      >>=-eq-ok
        (require (
          same_dtype slot.dtype inp.dtype && slot.device_index == inp.device_index && slot.is_cuda))
        _ h₂ in
    let place = require-ok _ placed in
    (
      slot,
      acquired,
      same_shape-eq slot.shape (rows ∷ cols ∷ []) (require-ok _ shaped),
      sym (same_dtype-eq slot.dtype inp.dtype (ground (arith, place))),
      ground (arith, place),
      sym (ok-injective h₃),
    )

checked-IsProduct :
    (a : Adapter) (acquire : List ℕ → Result Tensor) (comm : ℕ) (inp weight : Tensor)
    (inp_shape weight_shape : List ℕ) {c : Call}
    → a.comm ≡ some comm
    → inp.shape ≡ inp_shape
    → weight.shape ≡ weight_shape
    → qwen_checked a acquire comm inp weight inp_shape weight_shape ≡ ok c
    → IsProduct a acquire inp weight c
unfolding qwen_checked nbytes numel product
checked-IsProduct a acquire comm inp weight [] w held s s' h = cc
checked-IsProduct a acquire comm inp weight (r ∷ []) w held s s' h = cc
checked-IsProduct a acquire comm inp weight (r ∷ k ∷ x ∷ xs) w held s s' h = cc
checked-IsProduct a acquire comm inp weight (r ∷ k ∷ []) [] held s s' h = cc
checked-IsProduct a acquire comm inp weight (r ∷ k ∷ []) (l ∷ []) held s s' h = cc
checked-IsProduct a acquire comm inp weight (r ∷ k ∷ []) (l ∷ k' ∷ x ∷ xs) held s s' h = cc
checked-IsProduct a acquire comm inp weight (r ∷ k ∷ []) (l ∷ k' ∷ []) held s s' h =
    let (u, checked, h') = >>=-eq-ok (check_qwen a inp weight r k l k') _ h in
    let (device, types, same_k, fits) = checked_qwen a inp weight r k l k' checked in
    let (slot, acquired, shape, dtype, place, call) = preloaded acquire comm inp r l h' in
    let size : r * l * element_size inp.dtype ≡ nbytes slot =
      rw (nbytes, numel, shape, dtype) (grind arith) in
    record {
      rows = r;
      inner = k;
      cols = l;
      inp_shape = s;
      weight_shape = s' ∙ ap (λ j. l ∷ j ∷ []) (sym same_k);
      weight_dtype = types;
      slot = slot;
      acquired = acquired;
      slot_shape = shape;
      slot_dtype = dtype;
      slot_device = place ∙ device;
      fits =
          subst (λ e. Fits a.rr_pool e (nbytes slot)) (sym dtype)
            (subst (Fits a.rr_pool inp.dtype) size fits);
      handle = comm;
      comm = held;
      call = call;
    }

-- A call of the direct path that succeeds had two matrices with the same inner dimension and element
-- type; the slot that it was given has the shape of their product, its type and its device, and fits
-- the all-reduce pool; that slot is what is reduced.
pub qwen_row_parallel-IsProduct :
    (a : Adapter) (acquire : List ℕ → Result Tensor) (inp weight : Tensor) {c : Call}
    → qwen_row_parallel a acquire inp weight ≡ ok c
    → IsProduct a acquire inp weight c
unfolding qwen_row_parallel
qwen_row_parallel-IsProduct a acquire inp weight h = elim (Option-cases a.comm) [
  | inl lost ↦ absurd (ground (arith, lost, h))
  | inr (comm, held) ↦
      let (u, enabled, h') =
        >>=-eq-ok (require (a.qwen_direct_slot_enabled && not a.disabled)) _
          (rw (qwen_row_parallel, held) at h) in
      checked-IsProduct a acquire comm inp weight inp.shape weight.shape held refl refl h'
]
