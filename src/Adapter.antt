-- ===== src/Adapter.antt =====
-- patches/vllm/v0.25.0/vllm/distributed/device_communicators/ooverlap_all_reduce.py: the adapter that
-- lets vLLM run its collectives on ooverlap's pools of slots.
pub mod Settings
pub mod Startup
pub mod Collectives
pub mod Lifecycle
pub mod Guards
pub mod Shapes
use ooverlap.Prelude.{ℕ, ◌*◌, Bool, Option, List, [], ◌∷◌}

-- The element types of a slot pool, and any other with its size.
pub data Dtype : Type 0 where
  bf16 fp16 fp32 : Dtype
  other_dtype : ℕ → Dtype

-- `torch.empty((), dtype=d).element_size()`
unfoldable pub element_size : Dtype → ℕ
element_size bf16 = 2
element_size fp16 = 2
element_size fp32 = 4
element_size (other_dtype size) = size

unfoldable pub product : List ℕ → ℕ
product [] = 1
product (n ∷ ns) = n * product ns

-- What the adapter asks of a tensor.
pub record Tensor : Type 0 where
  pub shape : List ℕ
  pub dtype : Dtype
  pub is_cuda : Bool
  pub device_index : ℕ
  pub is_contiguous : Bool

unfoldable pub numel : Tensor → ℕ
numel t = product t.shape

unfoldable pub nbytes : Tensor → ℕ
nbytes t = numel t * element_size t.dtype

-- A pool of slots: `rr_*` or `ag_*`.
pub record Pool : Type 0 where
  pub dtype : Dtype
  pub slot_count : ℕ
  pub capacity_bytes : ℕ

-- An `OoverlapAllReduce` object. The fields of a pool are set together, so a pool that is not set is
-- `none`; the communicator is the handle that the extension returned.
pub record Adapter : Type 0 where
  pub device_index : ℕ
  pub world_size : ℕ
  pub disabled : Bool
  pub comm : Option ℕ
  pub rr_pool : Option Pool
  pub ag_pool : Option Pool
  pub qwen_direct_slot_enabled : Bool
