-- ===== src/Tests/Adapters.antt =====
-- The adapter's life on two ranks, with two communicators that an extension could give.
use ooverlap.Prelude.{ℕ, ◌≡◌, refl, ◌⊎◌, ◌↔◌, true, false, none, some, List, [], ◌∷◌}
use ooverlap.Prelude.Int.{pos, negsuc}
use ooverlap.Prelude.Result.{Result, ok, err, runtime_error}
use ooverlap.Adapter.{Dtype, bf16, fp16, element_size, numel, nbytes, product, Tensor, Adapter}
use ooverlap.Adapter.Settings.{
  positive_env_int, find_alias, normalize_rr_dtype, gather_visible_devices,
}
use ooverlap.Adapter.Startup.{
  Surroundings, Event, created, rr_initialized, ag_initialized, destroyed, start, may_start,
  open_communicator, after_communicator, read_pools, require, read_pool, getenv, check_divisible,
  init_pools, blank, abandon,
}
use ooverlap.Adapter.Collectives.{
  Call, all_reduce_round_robin, all_gather_round_robin, all_reduce_preloaded_slot,
  should_ooverlap_ar, all_reduce, all_gather, qwen_row_parallel, destroy, release_held,
  qwen_checked, check_qwen, same_dtype, fits_pool, preload, same_shape, normalize_dim, check_gather,
  output_size, dim_at,
}
use ooverlap.Adapter.Lifecycle.{IsOff, IsStarted, alive_after, start-IsStarted, destroy-IsOff}
use ooverlap.Adapter.Guards.{
  IsAccepted, IsProduct, should_ooverlap_ar-IsAccepted, all_reduce-IsAccepted, destroy-all_reduce,
  qwen_row_parallel-IsProduct,
}
use ooverlap.Adapter.Shapes.{IsGathered, all_gather-IsGathered}

abbrev surroundings : Surroundings
surroundings = record {
  device_is_cuda = true;
  device_index = 1;
  dist_initialized = true;
  cuda_available = true;
  rank = 1;
  world_size = 2;
  ext_loads = true;
  has_communicator = true;
  devices = ok (some 0 ∷ some 1 ∷ []);
  broker_key = ok "pair";
  communicator = λ devices rank key. ok 7;
  has_init_round_robin_slots = true;
  has_all_reduce_round_robin = true;
  has_init_all_gather_round_robin_slots = true;
  has_all_gather_round_robin = true;
  has_acquire_all_reduce_slot = true;
  has_all_reduce_preloaded_slot = true;
  has_destroy = true;
  init_round_robin_slots = λ comm pool. ok tt;
  init_all_gather_round_robin_slots = λ comm pool. ok tt;
  parse = λ raw. some (pos 64);
  normalize = λ name. name;
  rr_dtype = none;
  ag_dtype = some "half";
  rr_slots = none;
  rr_capacity = some "64";
  ag_slots = none;
  ag_capacity = some "64";
}

abbrev adapter : Adapter
adapter = record {
  device_index = 1;
  world_size = 2;
  disabled = false;
  comm = some 7;
  rr_pool = some (record { dtype = bf16; slot_count = 32; capacity_bytes = 64 });
  ag_pool = some (record { dtype = fp16; slot_count = 4; capacity_bytes = 64 });
  qwen_direct_slot_enabled = true;
}

abbrev destroyed_adapter : Adapter
destroyed_adapter = record adapter {
  comm = none;
  disabled = true;
  qwen_direct_slot_enabled = false;
}

abbrev tensor : Dtype → List ℕ → Tensor
tensor dtype shape = record {
  shape = shape;
  dtype = dtype;
  is_cuda = true;
  device_index = 1;
  is_contiguous = true;
}

abbrev acquire : List ℕ → Result Tensor
acquire shape = ok (tensor bf16 shape)

-- The second pool cannot be made: the communicator is given up.
abbrev refused : Surroundings
refused = record surroundings { init_all_gather_round_robin_slots = λ comm pool. err runtime_error }

abbrev started : List Event
started = created 7 ∷ rr_initialized 7 ∷ ag_initialized 7 ∷ []

start-IsStarted_example : IsStarted true adapter started
unfolding start may_start open_communicator gather_visible_devices after_communicator read_pools
    require read_pool normalize_rr_dtype find_alias getenv positive_env_int check_divisible
    element_size init_pools blank
start-IsStarted_example = start-IsStarted surroundings {a = adapter} {events = started} refl

abbrev refused_adapter : Adapter
refused_adapter = record destroyed_adapter { ag_pool = none }

start-refused :
    start refused ≡ ok (refused_adapter, created 7 ∷ rr_initialized 7 ∷ destroyed 7 ∷ [])
unfolding start may_start open_communicator gather_visible_devices after_communicator read_pools
    require read_pool normalize_rr_dtype find_alias getenv positive_env_int check_divisible
    element_size init_pools blank abandon
start-refused = refl

destroy-IsOff_example :
    IsOff destroyed_adapter
    × (destroyed_adapter.rr_pool ≡ adapter.rr_pool)
    × (destroyed_adapter.ag_pool ≡ adapter.ag_pool)
    × (true ≡ true → alive_after (some 7) (destroyed 7 ∷ []) ≡ none)
    × (destroy true (λ comm. err runtime_error) destroyed_adapter ≡ ok (destroyed_adapter, []))
unfolding destroy release_held
destroy-IsOff_example =
    destroy-IsOff true (λ comm. ok tt) (λ comm. err runtime_error) adapter {b = destroyed_adapter}
      {events = destroyed 7 ∷ []} refl

should_ooverlap_ar-IsAccepted_example :
    (should_ooverlap_ar adapter (tensor bf16 (4 ∷ 8 ∷ [])) ≡ true)
    ↔ IsAccepted adapter (tensor bf16 (4 ∷ 8 ∷ []))
should_ooverlap_ar-IsAccepted_example =
    should_ooverlap_ar-IsAccepted adapter (tensor bf16 (4 ∷ 8 ∷ []))

all_reduce-IsAccepted_example :
    ((v : IsAccepted adapter (tensor bf16 (4 ∷ 8 ∷ []))) × (all_reduce adapter
          (tensor bf16 (4 ∷ 8 ∷ []))
        ≡ some (all_reduce_round_robin v.handle (tensor bf16 (4 ∷ 8 ∷ [])))))
    ⊎ ((¬ IsAccepted adapter (tensor bf16 (4 ∷ 8 ∷ [])))
        × (all_reduce adapter (tensor bf16 (4 ∷ 8 ∷ [])) ≡ none))
all_reduce-IsAccepted_example = all_reduce-IsAccepted adapter (tensor bf16 (4 ∷ 8 ∷ []))

destroy-all_reduce_example :
    (all_reduce destroyed_adapter (tensor bf16 (4 ∷ 8 ∷ [])) ≡ none)
    × (all_gather destroyed_adapter (tensor bf16 (4 ∷ 8 ∷ [])) (pos 0) ≡ err runtime_error)
    × (qwen_row_parallel destroyed_adapter acquire
          (tensor bf16 (4 ∷ 8 ∷ []))
          (tensor bf16 (8 ∷ 8 ∷ []))
        ≡ err runtime_error)
unfolding destroy release_held
destroy-all_reduce_example =
    destroy-all_reduce true (λ comm. ok tt) adapter {b = destroyed_adapter}
      {events = destroyed 7 ∷ []} acquire (tensor bf16 (4 ∷ 8 ∷ [])) (tensor bf16 (8 ∷ 8 ∷ []))
      (pos 0) refl

abbrev product_call : Call
product_call = all_reduce_preloaded_slot 7 (tensor bf16 (4 ∷ 8 ∷ []))

qwen_row_parallel-IsProduct_example :
    IsProduct adapter acquire (tensor bf16 (4 ∷ 3 ∷ [])) (tensor bf16 (8 ∷ 3 ∷ [])) product_call
unfolding qwen_row_parallel require qwen_checked check_qwen same_dtype fits_pool element_size
    preload same_shape
qwen_row_parallel-IsProduct_example =
    qwen_row_parallel-IsProduct adapter acquire (tensor bf16 (4 ∷ 3 ∷ []))
      (tensor bf16 (8 ∷ 3 ∷ [])) {c = product_call} refl

abbrev gather_call : Call
gather_call = all_gather_round_robin 7 (tensor fp16 (2 ∷ 3 ∷ [])) (2 ∷ 6 ∷ [])

all_gather-IsGathered_example : IsGathered adapter (tensor fp16 (2 ∷ 3 ∷ [])) (negsuc 0) gather_call
unfolding all_gather require normalize_dim check_gather numel nbytes product same_dtype fits_pool
    element_size output_size dim_at
all_gather-IsGathered_example =
    all_gather-IsGathered adapter (tensor fp16 (2 ∷ 3 ∷ [])) (negsuc 0) {c = gather_call} refl
