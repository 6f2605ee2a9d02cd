-- ===== src/Adapter/Collectives.antt =====
-- The collectives of `OoverlapAllReduce`. A call that reaches the extension is a value, `Call`; what
-- the extension computes on the device is not in the model.
use ooverlap.Prelude.{
  ℕ, zero, suc, ◌-◌, ◌*◌, Bool, true, false, ◌&&◌, not, Option, none, some, List, [], ◌∷◌, ◌++◌,
  length, take, drop, leb, ltb, ◌==◌, if◌then◌else◌,
}
use ooverlap.Prelude.Int.{ℤ, pos, negsuc}
use ooverlap.Prelude.Result.{Result, ok, err, runtime_error, index_error, ◌>>=◌}
use ooverlap.Adapter.{
  Dtype, bf16, fp16, fp32, other_dtype, element_size, Tensor, numel, nbytes, Pool, Adapter,
}
use ooverlap.Adapter.Startup.{Event, destroyed, require}

unfoldable pub same_dtype : Dtype → Dtype → Bool
same_dtype bf16 bf16 = true
same_dtype fp16 fp16 = true
same_dtype fp32 fp32 = true
same_dtype (other_dtype a) (other_dtype b) = a == b
same_dtype _ _ = false

unfoldable pub same_shape : List ℕ → List ℕ → Bool
same_shape [] [] = true
same_shape (a ∷ as') (b ∷ bs) = (a == b) && same_shape as' bs
same_shape _ _ = false

-- `self.rr_torch_dtype is None`, `inp.dtype != ...` and `inp.nbytes > ...`, or the same of `ag_*`.
unfoldable pub fits_pool : Option Pool → Dtype → (bytes : ℕ) → Bool
fits_pool none d bytes = false
fits_pool (some pool) d bytes = same_dtype d pool.dtype && leb bytes pool.capacity_bytes

unfoldable pub is_some : Option ℕ → Bool
is_some none = false
is_some (some x) = true

-- `self.disabled or self.comm is None`, negated.
unfoldable pub is_available : Adapter → Bool
is_available a = not a.disabled && is_some a.comm

unfoldable pub should_ooverlap_ar : Adapter → Tensor → Bool
should_ooverlap_ar a t =
    if not (is_available a)
    then false
    else if not t.is_cuda
    then false
    else if not (t.device_index == a.device_index)
    then false
    else if not t.is_contiguous
    then false
    else if numel t == 0
    then false
    else fits_pool a.rr_pool t.dtype (nbytes t)

-- What is asked of the extension, and with which communicator.
pub data Call : Type 0 where
  all_reduce_round_robin : (comm : ℕ) → Tensor → Call
  all_gather_round_robin : (comm : ℕ) → Tensor → (output_size : List ℕ) → Call
  all_reduce_preloaded_slot : (comm : ℕ) → (slot : Tensor) → Call

-- `None` where the caller has to fall back to another backend.
unfoldable pub all_reduce : Adapter → Tensor → Option Call
all_reduce a t = elim a.comm [
  | none ↦ none
  | some comm ↦ if should_ooverlap_ar a t then some (all_reduce_round_robin comm t) else none
]

unfoldable pub dim_at : List ℕ → ℕ → Result ℕ
dim_at [] i = err index_error
dim_at (n ∷ ns) zero = ok n
dim_at (n ∷ ns) (suc i) = dim_at ns i

-- `normalized_dim`, or the `RuntimeError` for a dimension that the tensor lacks.
unfoldable pub normalize_dim : ℤ → (rank : ℕ) → Result ℕ
normalize_dim (pos d) rank = if ltb d rank then ok d else err runtime_error
normalize_dim (negsuc k) rank = if ltb k rank then ok (rank - suc k) else err runtime_error

-- `gathered` is flattened over its first two dimensions; for another dimension it is moved there.
unfoldable pub output_size : (world_size : ℕ) → List ℕ → ℕ → Result (List ℕ)
output_size world_size shape d = do
  n ← dim_at shape d
  ok (take d shape ++ (world_size * n) ∷ drop (suc d) shape)

-- The checks of `all_gather` after the one of the dimension.
unfoldable pub check_gather : Adapter → Tensor → Result (Unit {0})
check_gather a t = do
  cuda ← require t.is_cuda
  device ← require (t.device_index == a.device_index)
  contiguous ← require t.is_contiguous
  nonempty ← require (ltb 0 (numel t))
  require (fits_pool a.ag_pool t.dtype (nbytes t * a.world_size))

unfoldable pub all_gather : Adapter → Tensor → ℤ → Result Call
all_gather a t dim = elim a.comm [
  | none ↦ err runtime_error
  | some comm ↦ do
    enabled ← require (not a.disabled)
    some_dims ← require (ltb 0 (length t.shape))
    d ← normalize_dim dim (length t.shape)
    checked ← check_gather a t
    size ← output_size a.world_size t.shape d
    ok (all_gather_round_robin comm t size)
]

-- The checks of `qwen_row_parallel` before a slot is acquired.
unfoldable pub check_qwen :
    Adapter → (inp weight : Tensor) → (rows k cols k' : ℕ) → Result (Unit {0})
check_qwen a inp weight rows k cols k' = do
  cuda ← require (inp.is_cuda && weight.is_cuda)
  inp_device ← require (inp.device_index == a.device_index)
  weight_device ← require (weight.device_index == a.device_index)
  inp_contiguous ← require inp.is_contiguous
  weight_contiguous ← require weight.is_contiguous
  dtypes ← require (same_dtype weight.dtype inp.dtype)
  same_k ← require (k == k')
  require (fits_pool a.rr_pool inp.dtype (rows * cols * element_size inp.dtype))

-- `acquire` stands for the extension's `acquire_all_reduce_slot`.
unfoldable pub preload :
    (acquire : List ℕ → Result Tensor) (comm : ℕ) → (inp : Tensor) → (rows cols : ℕ) → Result Call
preload acquire comm inp rows cols = do
  slot ← acquire (rows ∷ cols ∷ [])
  shape ← require (same_shape slot.shape (rows ∷ cols ∷ []))
  place ←
      require
        (same_dtype slot.dtype inp.dtype && slot.device_index == inp.device_index && slot.is_cuda)
  ok (all_reduce_preloaded_slot comm slot)

-- The part that has both shapes: anything but two dimensions each is refused.
unfoldable pub qwen_checked :
    Adapter
    → (acquire : List ℕ → Result Tensor) (comm : ℕ) → (inp weight : Tensor)
    → (inp_shape weight_shape : List ℕ) → Result Call
qwen_checked a acquire comm inp weight (rows ∷ k ∷ []) (cols ∷ k' ∷ []) = do
  checked ← check_qwen a inp weight rows k cols k'
  preload acquire comm inp rows cols
qwen_checked a acquire comm inp weight _ _ = err runtime_error

unfoldable pub qwen_row_parallel :
    Adapter → (acquire : List ℕ → Result Tensor) → (inp weight : Tensor) → Result Call
qwen_row_parallel a acquire inp weight = elim a.comm [
  | none ↦ err runtime_error
  | some comm ↦ do
    enabled ← require (a.qwen_direct_slot_enabled && not a.disabled)
    qwen_checked a acquire comm inp weight inp.shape weight.shape
]

unfoldable pub release_held :
    (has_destroy : Bool) (release : ℕ → Result (Unit {0})) → Option ℕ → Result (List Event)
release_held has_destroy release none = ok []
release_held false release (some comm) = ok []
release_held true release (some comm) = do released ← release comm; ok (destroyed comm ∷ [])

-- `destroy`; `has_destroy` says whether the extension's communicator has that method, `release` is
-- what it does. Where it raises, nothing is assigned.
unfoldable pub destroy :
    (has_destroy : Bool) (release : ℕ → Result (Unit {0})) → Adapter → Result (Adapter × List Event)
destroy has_destroy release a = do
  events ← release_held has_destroy release a.comm
  ok (record a { comm = none; disabled = true; qwen_direct_slot_enabled = false }, events)
